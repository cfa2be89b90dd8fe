-- ===== src/Messages/Text.antt =====
-- The functions that print the messages of exchange/order_server/client_request.h,
-- exchange/order_server/client_response.h and exchange/market_data/market_update.h. A string stream
-- is the list of what is written to it.
use Prim.Native.String
use Prim.Native.String.{String}
use low_latency_trading_engi.Base.{List, [], ◌∷◌}
use low_latency_trading_engi.Types.Text.{
  to_string, order_id_to_string, ticker_id_to_string, client_id_to_string, price_to_string,
  qty_to_string, priority_to_string, side_to_string,
}
use low_latency_trading_engi.Messages.{
  ClientRequestType, MeClientRequest, OmClientRequest, ClientResponseType, MeClientResponse,
  OmClientResponse, MarketUpdateType, MeMarketUpdate, MdpMarketUpdate,
}

abbrev text : List String → String
text [] = ""
text (s ∷ ss) = String.◌++◌ s (text ss)

unfoldable pub client_request_type_to_string : ClientRequestType → String
client_request_type_to_string ClientRequestType.invalid = "INVALID"
client_request_type_to_string ClientRequestType.new = "NEW"
client_request_type_to_string ClientRequestType.cancel = "CANCEL"

unfoldable pub me_client_request_to_string : MeClientRequest → String
me_client_request_to_string r = text (
    "MEClientRequest"
    ∷ " ["
    ∷ " type:"
    ∷ client_request_type_to_string r.kind
    ∷ " client:"
    ∷ client_id_to_string r.client_id
    ∷ " ticker:"
    ∷ ticker_id_to_string r.ticker_id
    ∷ " oid:"
    ∷ order_id_to_string r.order_id
    ∷ " side:"
    ∷ side_to_string r.side
    ∷ " price:"
    ∷ price_to_string r.price
    ∷ " qty:"
    ∷ qty_to_string r.qty
    ∷ "]"
    ∷ [])

unfoldable pub om_client_request_to_string : OmClientRequest → String
unfolding to_string
om_client_request_to_string r = text (
    "OMClientRequest"
    ∷ " ["
    ∷ " seq:"
    ∷ to_string r.seq_num
    ∷ " "
    ∷ me_client_request_to_string r.me_client_request
    ∷ "]"
    ∷ [])

unfoldable pub client_response_type_to_string : ClientResponseType → String
client_response_type_to_string ClientResponseType.invalid = "INVALID"
client_response_type_to_string ClientResponseType.accepted = "ACCEPTED"
client_response_type_to_string ClientResponseType.canceled = "CANCELED"
client_response_type_to_string ClientResponseType.filled = "FILLED"
client_response_type_to_string ClientResponseType.cancel_rejected = "CANCEL_REJECTED"

unfoldable pub me_client_response_to_string : MeClientResponse → String
me_client_response_to_string r = text (
    "MEClientResponse"
    ∷ " ["
    ∷ " type:"
    ∷ client_response_type_to_string r.kind
    ∷ " client:"
    ∷ client_id_to_string r.client_id
    ∷ " ticker:"
    ∷ ticker_id_to_string r.ticker_id
    ∷ " coid:"
    ∷ order_id_to_string r.client_order_id
    ∷ " moid:"
    ∷ order_id_to_string r.market_order_id
    ∷ " side:"
    ∷ side_to_string r.side
    ∷ " price:"
    ∷ price_to_string r.price
    ∷ " exec_qty:"
    ∷ qty_to_string r.exec_qty
    ∷ " leaves_qty:"
    ∷ qty_to_string r.leaves_qty
    ∷ "]"
    ∷ [])

unfoldable pub om_client_response_to_string : OmClientResponse → String
unfolding to_string
om_client_response_to_string r = text (
    "OMClientResponse"
    ∷ " ["
    ∷ " seq:"
    ∷ to_string r.seq_num
    ∷ " "
    ∷ me_client_response_to_string r.me_client_response
    ∷ "]"
    ∷ [])

unfoldable pub market_update_type_to_string : MarketUpdateType → String
market_update_type_to_string MarketUpdateType.add = "ADD"
market_update_type_to_string MarketUpdateType.modify = "MODIFY"
market_update_type_to_string MarketUpdateType.cancel = "CANCEL"
market_update_type_to_string MarketUpdateType.trade = "TRADE"
market_update_type_to_string MarketUpdateType.invalid = "INVALID"
market_update_type_to_string MarketUpdateType.clear = "CLEAR"
market_update_type_to_string MarketUpdateType.snapshot_start = "SNAPSHOT_START"
market_update_type_to_string MarketUpdateType.snapshot_end = "SNAPSHOT_END"

unfoldable pub me_market_update_to_string : MeMarketUpdate → String
me_market_update_to_string r = text (
    "MEMarketUpdate"
    ∷ " ["
    ∷ " type:"
    ∷ market_update_type_to_string r.kind
    ∷ " ticker:"
    ∷ ticker_id_to_string r.ticker_id
    ∷ " oid:"
    ∷ order_id_to_string r.order_id
    ∷ " side:"
    ∷ side_to_string r.side
    ∷ " qty:"
    ∷ qty_to_string r.qty
    ∷ " price:"
    ∷ price_to_string r.price
    ∷ " priority:"
    ∷ priority_to_string r.priority
    ∷ "]"
    ∷ [])

unfoldable pub mdp_market_update_to_string : MdpMarketUpdate → String
unfolding to_string
mdp_market_update_to_string r = text (
    "MPDMarketUpdate"
    ∷ " ["
    ∷ " seq:"
    ∷ to_string r.seq_num
    ∷ " "
    ∷ me_market_update_to_string r.me_market_update
    ∷ "]"
    ∷ [])
