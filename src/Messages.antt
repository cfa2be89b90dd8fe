-- ===== src/Messages.antt =====
-- The messages that the components exchange: exchange/order_server/client_request.h,
-- exchange/order_server/client_response.h and exchange/market_data/market_update.h.
pub mod Text
use low_latency_trading_engi.Base.{ℕ}
use low_latency_trading_engi.Types.{
  OrderId, TickerId, ClientId, Price, Qty, Priority, Side, order_id_invalid, ticker_id_invalid,
  client_id_invalid, price_invalid, qty_invalid, priority_invalid,
}

pub data ClientRequestType : Type 0 where
  invalid new cancel : ClientRequestType

pub record MeClientRequest : Type 0 where
  pub kind : ClientRequestType
  pub client_id : ClientId
  pub ticker_id : TickerId
  pub order_id : OrderId
  pub side : Side
  pub price : Price
  pub qty : Qty

pub record OmClientRequest : Type 0 where
  pub seq_num : ℕ
  pub me_client_request : MeClientRequest

pub data ClientResponseType : Type 0 where
  invalid accepted canceled filled cancel_rejected : ClientResponseType

pub record MeClientResponse : Type 0 where
  pub kind : ClientResponseType
  pub client_id : ClientId
  pub ticker_id : TickerId
  pub client_order_id : OrderId
  pub market_order_id : OrderId
  pub side : Side
  pub price : Price
  pub exec_qty : Qty
  pub leaves_qty : Qty

pub record OmClientResponse : Type 0 where
  pub seq_num : ℕ
  pub me_client_response : MeClientResponse

pub data MarketUpdateType : Type 0 where
  invalid clear add modify cancel trade snapshot_start snapshot_end : MarketUpdateType

pub record MeMarketUpdate : Type 0 where
  pub kind : MarketUpdateType
  pub order_id : OrderId
  pub ticker_id : TickerId
  pub side : Side
  pub price : Price
  pub qty : Qty
  pub priority : Priority

pub record MdpMarketUpdate : Type 0 where
  pub seq_num : ℕ
  pub me_market_update : MeMarketUpdate

-- The default member values.
abbrev pub default_request : MeClientRequest
default_request = record {
  kind = ClientRequestType.invalid;
  client_id = client_id_invalid;
  ticker_id = ticker_id_invalid;
  order_id = order_id_invalid;
  side = Side.invalid;
  price = price_invalid;
  qty = qty_invalid;
}

abbrev pub default_response : MeClientResponse
default_response = record {
  kind = ClientResponseType.invalid;
  client_id = client_id_invalid;
  ticker_id = ticker_id_invalid;
  client_order_id = order_id_invalid;
  market_order_id = order_id_invalid;
  side = Side.invalid;
  price = price_invalid;
  exec_qty = qty_invalid;
  leaves_qty = qty_invalid;
}

abbrev pub default_update : MeMarketUpdate
default_update = record {
  kind = MarketUpdateType.invalid;
  order_id = order_id_invalid;
  ticker_id = ticker_id_invalid;
  side = Side.invalid;
  price = price_invalid;
  qty = qty_invalid;
  priority = priority_invalid;
}
