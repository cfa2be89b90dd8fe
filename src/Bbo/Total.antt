-- ===== src/Bbo/Total.antt =====
-- What `updateBBO` of trading/strategy/market_orderbook.h reports of a well-linked side.
use low_latency_trading_engi.Base.{
  ℕ, zero, suc, ◌+◌, ◌%◌, ◌^◌, ◌<◌, ◌≡◌, refl, ap, ◌∙◌, true, false, Option, some, List, [], ◌∷◌,
  ok, arith, ◌==◌, ==-self, length,
}
use low_latency_trading_engi.Types.{Qty}
use low_latency_trading_engi.Ring.{has, Links, IsRing}
use low_latency_trading_engi.Bbo.{
  MarketOrderBook, Bbo, order_at, level_at, sum_loop, best, update_bid, update_ask, update_bbo,
  add32,
}

abbrev pub next_in : MarketOrderBook → ℕ → Option ℕ
next_in b z = (order_at b z).next_order

abbrev pub prev_in : MarketOrderBook → ℕ → Option ℕ
prev_in b z = (order_at b z).prev_order

abbrev pub total : MarketOrderBook → List ℕ → ℕ
total b [] = 0
total b (x ∷ xs) = (order_at b x).qty + total b xs

-- The orders `x ∷ xs` at one price, in a circle that fits into the pool.
pub record IsSide (b : MarketOrderBook) (l x : ℕ) (xs : List ℕ) : Type 0 where
  pub first : (level_at b l).first_mkt_order ≡ some x
  pub ring : IsRing (next_in b) (prev_in b) x xs
  pub fits : length xs < b.order_pool.store_size

sum_loop-total :
    (b : MarketOrderBook) (first fuel a : ℕ) (xs : List ℕ) (qty : Qty)
    → Links (next_in b) (prev_in b) a xs first
    → has first xs ≡ false
    → length xs < fuel
    → qty < 2 ^ 32
    → sum_loop fuel b first (order_at b a).next_order qty ≡ ok ((qty + total b xs) % 2 ^ 32)
unfolding sum_loop
sum_loop-total b first zero a xs qty l out f small = absurd (omega arith)
sum_loop-total b first (suc fuel) a [] qty l out f small =
    rw (l.0, ==-self first) (ap ok (omega arith))
sum_loop-total b first (suc fuel) a (x ∷ xs) qty l out f small =
    rw (l.0, other)
      (sum_loop-total b first fuel x xs (add32 qty (order_at b x).qty) l.2 (ground arith)
          (omega arith) (omega arith)
        ∙ ap ok (omega arith))
  where
    other : (x == first) ≡ false
    other = ground arith

-- The best price of a side is its first level's, and the best quantity is the sum of all orders
-- there, modulo 2 ^ 32; a side without levels has the invalid price and quantity.
pub best-total :
    (b : MarketOrderBook) (l x : ℕ) (xs : List ℕ)
    → IsSide b l x xs
    → (order_at b x).qty < 2 ^ 32
    → best b (some l) ≡ ok ((level_at b l).price, total b (x ∷ xs) % 2 ^ 32)
unfolding best
best-total b l x xs v small = rw (
  v.first,
  best,
  sum_loop-total b x (b.order_pool.store_size + 1) x xs (order_at b x).qty v.ring.links
      v.ring.distinct.0 (omega (arith, v.fits)) small,
)

-- For a book whose two best levels have well-linked orders that fit into the pool, `updateBBO` of
-- both sides ends, and reports for each side the price of its best level and the sum of the
-- quantities there, modulo 2 ^ 32.
pub update_bbo-total :
    (b : MarketOrderBook) (bid ask x y : ℕ) (xs ys : List ℕ)
    → b.bids_by_price ≡ some bid
    → b.asks_by_price ≡ some ask
    → IsSide b bid x xs
    → IsSide b ask y ys
    → (order_at b x).qty < 2 ^ 32
    → (order_at b y).qty < 2 ^ 32
    → (b' : MarketOrderBook) × (update_bbo true true b ≡ ok (tt, b'))
      × (b'.bbo ≡ record {
        bid_price = (level_at b bid).price;
        ask_price = (level_at b ask).price;
        bid_qty = total b (x ∷ xs) % 2 ^ 32;
        ask_qty = total b (y ∷ ys) % 2 ^ 32;
      })
unfolding update_bbo update_bid update_ask
update_bbo-total b bid ask x y xs ys eb ea vb va sb sa =
    let bids : Bbo = record b.bbo {
      bid_price = (level_at b bid).price;
      bid_qty = total b (x ∷ xs) % 2 ^ 32;
    } in
    let mid : MarketOrderBook = record b { bbo = bids } in
    let va' : IsSide mid ask y ys = record { first = va.first; ring = va.ring; fits = va.fits } in
    (
      record mid {
        bbo = record bids {
          ask_price = (level_at b ask).price;
          ask_qty = total b (y ∷ ys) % 2 ^ 32;
        };
      },
      rw (
        ap (best b) eb ∙ best-total b bid x xs vb sb,
        ap (best mid) ea ∙ best-total mid ask y ys va' sa,
      ),
      refl,
    )
