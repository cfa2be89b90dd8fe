-- ===== src/Bbo/Text.antt =====
-- The functions that print the structs of trading/strategy/market_order.h and
-- trading/strategy/market_order.cpp. A string stream is the list of what is written to it.
use Prim.Native.String.{String}
use low_latency_trading_engi.Base.{ℕ, Option, none, some, List, [], ◌∷◌, ◌++◌}
use low_latency_trading_engi.Types.{OrderId, Price, order_id_invalid, price_invalid}
use low_latency_trading_engi.Types.Text.{
  order_id_to_string, price_to_string, qty_to_string, priority_to_string, side_to_string,
}
use low_latency_trading_engi.Bbo.{
  MarketOrder, MarketOrdersAtPrice, Bbo, MarketOrderBook, order_at, level_at,
}

-- What a pointer leads to, or what stands for a null pointer.
abbrev linked_order_id : MarketOrderBook → Option ℕ → OrderId
linked_order_id b none = order_id_invalid
linked_order_id b (some p) = (order_at b p).order_id

abbrev linked_price : MarketOrderBook → Option ℕ → Price
linked_price b none = price_invalid
linked_price b (some p) = (level_at b p).price

unfoldable pub market_order_to_string : MarketOrderBook → MarketOrder → List String
market_order_to_string b o =
    "MarketOrder"
    ∷ "["
    ∷ "oid:"
    ∷ order_id_to_string o.order_id
    ∷ " "
    ∷ "side:"
    ∷ side_to_string o.side
    ∷ " "
    ∷ "price:"
    ∷ price_to_string o.price
    ∷ " "
    ∷ "qty:"
    ∷ qty_to_string o.qty
    ∷ " "
    ∷ "prio:"
    ∷ priority_to_string o.priority
    ∷ " "
    ∷ "prev:"
    ∷ order_id_to_string (linked_order_id b o.prev_order)
    ∷ " "
    ∷ "next:"
    ∷ order_id_to_string (linked_order_id b o.next_order)
    ∷ "]"
    ∷ []

abbrev first_order_to_string : MarketOrderBook → Option ℕ → List String
first_order_to_string b none = "null" ∷ []
first_order_to_string b (some p) = market_order_to_string b (order_at b p)

unfoldable pub market_orders_at_price_to_string :
    MarketOrderBook → MarketOrdersAtPrice → List String
market_orders_at_price_to_string b l =
    ("MarketOrdersAtPrice["
      ∷ "side:"
      ∷ side_to_string l.side
      ∷ " "
      ∷ "price:"
      ∷ price_to_string l.price
      ∷ " "
      ∷ "first_mkt_order:"
      ∷ [])
    ++ first_order_to_string b l.first_mkt_order
    ++ (" "
        ∷ "prev:"
        ∷ price_to_string (linked_price b l.prev_entry)
        ∷ " "
        ∷ "next:"
        ∷ price_to_string (linked_price b l.next_entry)
        ∷ "]"
        ∷ [])

unfoldable pub bbo_to_string : Bbo → List String
bbo_to_string x =
    "BBO{"
    ∷ qty_to_string x.bid_qty
    ∷ "@"
    ∷ price_to_string x.bid_price
    ∷ "X"
    ∷ price_to_string x.ask_price
    ∷ "@"
    ∷ qty_to_string x.ask_qty
    ∷ "}"
    ∷ []
