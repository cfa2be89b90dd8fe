-- ===== src/Book/FillOrder.antt =====
-- In which order `checkForMatch` of exchange/matcher/me_order_book.cpp fills orders, what it tells of
-- each, and where it stops.
use low_latency_trading_engi.Base.{
  ℕ, ◌-◌, ◌<◌, ◌≡◌, refl, true, false, Option, none, some, List, [], ◌∷◌, ok, if◌then◌else◌, Bool,
  ltb_ℤ, min,
}
use low_latency_trading_engi.LfQueue.{write_all}
use low_latency_trading_engi.Types.{OrderId, Qty, Price, Side, is_buy, sub32}
use low_latency_trading_engi.Messages.{MeClientResponse, MeMarketUpdate}
use low_latency_trading_engi.Book.{MeOrder, State, order_at, level_at}
use low_latency_trading_engi.Book.Reports.{incoming_fill, resting_fill, trade, remainder}
use low_latency_trading_engi.Book.Matching.{Incoming, match_order, too_far, opposite}

-- The best level that an order of a side is matched against, of those of the asks and the bids.
abbrev pub facing : Side → (asks bids : Option ℕ) → Option ℕ
facing Side.buy asks bids = asks
facing _ asks bids = bids

pub opposite-facing :
    (s : State) (sd : Side) → opposite s sd ≡ facing sd s.asks_by_price s.bids_by_price
opposite-facing s Side.buy = refl
opposite-facing s Side.sell = refl
opposite-facing s Side.invalid = refl

-- A price is beyond the limit of an order: above that of a bid, below that of an ask.
abbrev pub beyond : Side → (limit price : Price) → Bool
beyond Side.buy limit price = ltb_ℤ limit price
beyond _ limit price = ltb_ℤ price limit

beyond_if :
    (sd : Side) (limit price : Price)
    → (if is_buy sd then ltb_ℤ limit price else ltb_ℤ price limit) ≡ beyond sd limit price
beyond_if Side.buy limit price = refl
beyond_if Side.sell limit price = refl
beyond_if Side.invalid limit price = refl

pub too_far-beyond : (i : Incoming) (o : MeOrder) → too_far i o ≡ beyond i.side i.price o.price
too_far-beyond i o = beyond_if i.side i.price o.price

-- The first order of the best level that an order of the side is matched against.
pub record IsNextToMatch (s : State) (sd : Side) (p q : ℕ) : Type 0 where
  pub best_level : facing sd s.asks_by_price s.bids_by_price ≡ some p
  pub first : (level_at s p).first_me_order ≡ some q

-- The quantity of a fill.
abbrev pub smaller : (s : State) → ℕ → Qty → Qty
smaller s q leaves = min (order_at s q).qty leaves

-- A series of fills that takes an incoming order from `leaves` to `left` and the book from one state
-- to another, with its messages: each is of the order that is then the first of the best level of
-- the other side, at the price that this order has in the book, which is not beyond the incoming
-- one's limit, for the smaller of the two quantities, and is told to both clients and to the market.
pub data Fills (i : Incoming) (id : OrderId) (left : Qty)
    : State → Qty → List MeClientResponse → List MeMarketUpdate → State → Type 0 where
  done : {s : State} → Fills i id left s left [] [] s
  fill :
      (p q : ℕ) {s t s' : State} {leaves : Qty} {rs : List MeClientResponse}
      {us : List MeMarketUpdate}
      → IsNextToMatch s i.side p q
      → beyond i.side i.price (order_at s q).price ≡ false
      → 0 < leaves
      → match_order i id q leaves s ≡ ok (leaves - smaller s q leaves, t)
      → Fills i id left t (leaves - smaller s q leaves) rs us s'
      → Fills i id left s leaves
          (incoming_fill i id (order_at s q) (smaller s q leaves) (leaves - smaller s q leaves)
            ∷ resting_fill i.ticker_id
                (order_at s q)
                (smaller s q leaves)
                (sub32 (order_at s q).qty (smaller s q leaves))
            ∷ rs)
          (trade i (order_at s q) (smaller s q leaves)
            ∷ remainder i.ticker_id (order_at s q) (sub32 (order_at s q).qty (smaller s q leaves))
            ∷ us)
          s'

-- Why the loop stops.
pub data Stops (i : Incoming) (left : Qty) (s : State) : Type 0 where
  filled : left ≡ 0 → Stops i left s
  no_more : facing i.side s.asks_by_price s.bids_by_price ≡ none → Stops i left s
  too_dear :
      (p q : ℕ)
      → IsNextToMatch s i.side p q
      → beyond i.side i.price (order_at s q).price ≡ true
      → Stops i left s

pub record Matched (i : Incoming) (id : OrderId) (leaves : Qty) (s : State) (left : Qty)
    (s' : State) : Type 0 where
  pub rs : List MeClientResponse
  pub us : List MeMarketUpdate
  pub fills : Fills i id left s leaves rs us s'
  pub stops : Stops i left s'
  pub responses : s'.outgoing_ogw_responses ≡ write_all s.outgoing_ogw_responses rs
  pub updates : s'.outgoing_md_updates ≡ write_all s.outgoing_md_updates us
  pub next_id : s'.next_market_order_id ≡ s.next_market_order_id
