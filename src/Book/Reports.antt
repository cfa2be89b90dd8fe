-- ===== src/Book/Reports.antt =====
-- What clients and the market are to be told of an order, for the theorems on
-- exchange/matcher/me_order_book.cpp: each field as exchange/order_server/client_response.h and
-- exchange/market_data/market_update.h name it, with the resting order as it stands in the book.
use low_latency_trading_engi.Base.{◌==◌, if◌then◌else◌}
use low_latency_trading_engi.Types.{
  OrderId, TickerId, ClientId, Qty, Side, order_id_invalid, price_invalid, qty_invalid,
  priority_invalid,
}
use low_latency_trading_engi.Messages.{
  ClientResponseType, MeClientResponse, MarketUpdateType, MeMarketUpdate,
}
use low_latency_trading_engi.Book.{MeOrder}
use low_latency_trading_engi.Book.Matching.{Incoming}

-- A new order was taken on with its whole quantity.
abbrev pub acceptance : Incoming → OrderId → MeClientResponse
acceptance i id = record {
  kind = ClientResponseType.accepted;
  client_id = i.client_id;
  ticker_id = i.ticker_id;
  client_order_id = i.client_order_id;
  market_order_id = id;
  side = i.side;
  price = i.price;
  exec_qty = 0;
  leaves_qty = i.qty;
}

-- A cancellation of an order that is not known.
abbrev pub rejection : ClientId → OrderId → TickerId → MeClientResponse
rejection client order ticker = record {
  kind = ClientResponseType.cancel_rejected;
  client_id = client;
  ticker_id = ticker;
  client_order_id = order;
  market_order_id = order_id_invalid;
  side = Side.invalid;
  price = price_invalid;
  exec_qty = qty_invalid;
  leaves_qty = qty_invalid;
}

-- A resting order was taken out, with what it had left.
abbrev pub cancellation : TickerId → MeOrder → MeClientResponse
cancellation ticker o = record {
  kind = ClientResponseType.canceled;
  client_id = o.client_id;
  ticker_id = ticker;
  client_order_id = o.client_order_id;
  market_order_id = o.market_order_id;
  side = o.side;
  price = o.price;
  exec_qty = qty_invalid;
  leaves_qty = o.qty;
}

abbrev pub withdrawal : TickerId → MeOrder → MeMarketUpdate
withdrawal ticker o = record {
  kind = MarketUpdateType.cancel;
  order_id = o.market_order_id;
  ticker_id = ticker;
  side = o.side;
  price = o.price;
  qty = 0;
  priority = o.priority;
}

-- A fill of `n` from the resting order `o`, which has `left` afterwards, as the two clients are told
-- of it.
abbrev pub incoming_fill : Incoming → OrderId → MeOrder → (n leaves : Qty) → MeClientResponse
incoming_fill i id o n leaves = record {
  kind = ClientResponseType.filled;
  client_id = i.client_id;
  ticker_id = i.ticker_id;
  client_order_id = i.client_order_id;
  market_order_id = id;
  side = i.side;
  price = o.price;
  exec_qty = n;
  leaves_qty = leaves;
}

abbrev pub resting_fill : TickerId → MeOrder → (n left : Qty) → MeClientResponse
resting_fill ticker o n left = record {
  kind = ClientResponseType.filled;
  client_id = o.client_id;
  ticker_id = ticker;
  client_order_id = o.client_order_id;
  market_order_id = o.market_order_id;
  side = o.side;
  price = o.price;
  exec_qty = n;
  leaves_qty = left;
}

-- And the market: of the trade, and of the order, which is gone or has less left.
abbrev pub trade : Incoming → MeOrder → Qty → MeMarketUpdate
trade i o n = record {
  kind = MarketUpdateType.trade;
  order_id = order_id_invalid;
  ticker_id = i.ticker_id;
  side = i.side;
  price = o.price;
  qty = n;
  priority = priority_invalid;
}

abbrev pub gone : TickerId → MeOrder → MeMarketUpdate
gone ticker o = record {
  kind = MarketUpdateType.cancel;
  order_id = o.market_order_id;
  ticker_id = ticker;
  side = o.side;
  price = o.price;
  qty = o.qty;
  priority = priority_invalid;
}

abbrev pub reduced : TickerId → MeOrder → Qty → MeMarketUpdate
reduced ticker o left = record {
  kind = MarketUpdateType.modify;
  order_id = o.market_order_id;
  ticker_id = ticker;
  side = o.side;
  price = o.price;
  qty = left;
  priority = o.priority;
}

abbrev pub remainder : TickerId → MeOrder → Qty → MeMarketUpdate
remainder ticker o left = if left == 0 then gone ticker o else reduced ticker o left
