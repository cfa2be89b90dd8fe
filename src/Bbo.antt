-- ===== src/Bbo.antt =====
-- The best bid and offer of trading/strategy/market_orderbook.h, with the structs of
-- trading/strategy/market_order.h. The pools are the heap, as in the exchange's own order book.
pub mod Total
pub mod Text
mod Tests
use low_latency_trading_engi.Base.{
  ℕ, zero, suc, ◌+◌, ◌%◌, ◌^◌, Bool, true, false, Option, none, some, Fault, Result, ok, err,
  bind_result, M, ◌>>=◌, ◌>>◌, pure, fail, gets, modify, deref, ◌==◌, if◌then◌else◌, to_u64,
}
use low_latency_trading_engi.Types.{
  OrderId, Price, Qty, Priority, Side, order_id_invalid, price_invalid, qty_invalid,
  priority_invalid, me_max_price_levels,
}
use low_latency_trading_engi.MemPool
use low_latency_trading_engi.MemPool.{MemPool}

pub record MarketOrder : Type 0 where
  pub order_id : OrderId
  pub side : Side
  pub price : Price
  pub qty : Qty
  pub priority : Priority
  pub prev_order : Option ℕ
  pub next_order : Option ℕ

pub record MarketOrdersAtPrice : Type 0 where
  pub side : Side
  pub price : Price
  pub first_mkt_order : Option ℕ
  pub prev_entry : Option ℕ
  pub next_entry : Option ℕ

pub record Bbo : Type 0 where
  pub bid_price : Price
  pub ask_price : Price
  pub bid_qty : Qty
  pub ask_qty : Qty

abbrev pub empty_bbo : Bbo
empty_bbo = record {
  bid_price = price_invalid;
  ask_price = price_invalid;
  bid_qty = qty_invalid;
  ask_qty = qty_invalid;
}

pub record MarketOrderBook : Type 0 where
  pub orders_at_price_pool : MemPool MarketOrdersAtPrice
  pub bids_by_price : Option ℕ
  pub asks_by_price : Option ℕ
  pub price_orders_at_price : ℕ → Option ℕ
  pub order_pool : MemPool MarketOrder
  pub bbo : Bbo

abbrev pub order_at : MarketOrderBook → ℕ → MarketOrder
order_at b p = MemPool.object_at b.order_pool p

abbrev pub level_at : MarketOrderBook → ℕ → MarketOrdersAtPrice
level_at b p = MemPool.object_at b.orders_at_price_pool p

-- `a + b` on uint32_t.
abbrev pub add32 : ℕ → ℕ → ℕ
add32 a b = (a + b) % 2 ^ 32

-- The loop over the orders at the best price, from `p` until it comes round to `first`.
unfoldable pub sum_loop : ℕ → MarketOrderBook → (first : ℕ) → Option ℕ → Qty → Result Qty
sum_loop zero b first p qty = err Fault.no_fuel
sum_loop (suc fuel) b first none qty = err Fault.null_pointer
sum_loop (suc fuel) b first (some p) qty =
    let rest = sum_loop fuel b first (order_at b p).next_order (add32 qty (order_at b p).qty) in
    if p == first then ok qty else rest

-- Price and quantity of one side. A list of orders has no more than the pool has blocks.
unfoldable pub best : MarketOrderBook → Option ℕ → Result (Price × Qty)
best b none = ok (price_invalid, qty_invalid)
best b (some l) = elim (level_at b l).first_mkt_order [
  | none ↦ err Fault.null_pointer
  | some first ↦
      bind_result
        (sum_loop (b.order_pool.store_size + 1) b first (order_at b first).next_order
          (order_at b first).qty)
        (λ q. ok ((level_at b l).price, q))
]

unfoldable pub update_bid : M MarketOrderBook (Unit {0})
update_bid b =
    bind_result (best b b.bids_by_price)
      (λ r. ok (tt, record b { bbo = record b.bbo { bid_price = r.0; bid_qty = r.1 } }))

unfoldable pub update_ask : M MarketOrderBook (Unit {0})
update_ask b =
    bind_result (best b b.asks_by_price)
      (λ r. ok (tt, record b { bbo = record b.bbo { ask_price = r.0; ask_qty = r.1 } }))

unfoldable pub update_bbo : (bid ask : Bool) → M MarketOrderBook (Unit {0})
update_bbo bid ask = do (if bid then update_bid else pure tt); (if ask then update_ask else pure tt)

unfoldable pub get_bbo : MarketOrderBook → Bbo
get_bbo b = b.bbo

-- `price % ME_MAX_PRICE_LEVELS`: the price is converted to size_t first. The index is in range.
unfoldable pub price_to_index : Price → ℕ
price_to_index price = to_u64 price % me_max_price_levels

unfoldable pub get_orders_at_price : MarketOrderBook → Price → Option ℕ
get_orders_at_price b price = b.price_orders_at_price (price_to_index price)
