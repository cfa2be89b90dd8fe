-- ===== src/Book/Ladder/BetterAsk.antt =====
-- `addOrdersAtPrice` of exchange/matcher/me_order_book.h for an ask below the best one: it is linked
-- in front, but the entry point that is moved is that of the bids.
use low_latency_trading_engi.Base.{
  ◌≡◌, ap, ◌∙◌, some, true, false, List, ◌∷◌, ok, ltb_ℤ, ◌&&◌, ◌||◌, refl, ℕ, arith,
}
use low_latency_trading_engi.Types.{Side, is_buy, is_sell}
use low_latency_trading_engi.Ring.{IsRing}
use low_latency_trading_engi.Ring.Edit.{turn-IsRing}
use low_latency_trading_engi.Book.{MeOrdersAtPrice, State, level_at, best_of}
use low_latency_trading_engi.Book.Levels.{add_orders_at_price, goes_after, goes_before, worse_than}
use low_latency_trading_engi.Book.Ladder.{Level, IsBookSide, places, next_level, prev_level}
use low_latency_trading_engi.Book.Ladder.Walk.{
  priced, from_best, add_orders_at_price_lem, find_place-first,
}
use low_latency_trading_engi.Book.Ladder.Writes.{front, insert_before_runs}
use low_latency_trading_engi.Book.Ladder.Insert.{ahead-Spliced}
use low_latency_trading_engi.Book.Ladder.Splice.{IsFresh, fresh-apart, spliced-IsRing}

ask_before :
    (new target : MeOrdersAtPrice)
    → new.side ≡ Side.sell
    → ltb_ℤ new.price target.price ≡ true
    → goes_before new target ≡ true
ask_before new target side h =
    ap
      (λ d.
        (is_buy d && ltb_ℤ target.price new.price) || (is_sell d && ltb_ℤ new.price target.price))
      side
    ∙ h

ask_not_after :
    (new target : MeOrdersAtPrice)
    → new.side ≡ Side.sell
    → ltb_ℤ new.price target.price ≡ true
    → goes_after new target ≡ false
ask_not_after new target side h = ap (λ d. worse_than d new.price target) side ∙ ground (arith, h)

-- For an ask below all others, a fresh level is linked in front of the first level of the asks, which
-- are in order and not empty; yet the asks are still entered at that level, and the bids, whatever
-- they were, are now entered at the new ask.
pub add_orders_at_price-better_ask :
    (s : State) (n p : ℕ) (l : Level) (ls : List Level)
    → IsFresh s Side.sell n p
    → IsBookSide s Side.sell (l ∷ ls)
    → ltb_ℤ (level_at s n).price (level_at s l.at).price ≡ true
    → (s' : State) × (add_orders_at_price n s ≡ ok (tt, s'))
      × IsRing (next_level s') (prev_level s') n (l.at ∷ places ls)
      × (best_of s' Side.sell ≡ some l.at)
      × (best_of s' Side.buy ≡ some n)
add_orders_at_price-better_ask s n p l ls f v better =
    let out = fresh-apart s Side.sell Side.sell n p f (l ∷ ls) v.levels in
    let t : State = front (priced s n) n l.at (places ls) v.linked.1 out in
    (
      front (priced s n) n l.at (places ls) v.linked.1 out,
      add_orders_at_price_lem n s
          ∙ ap (λ d. from_best (level_at s n) n (best_of s d) (priced s n)) f.side
          ∙ ap (λ o. from_best (level_at s n) n o (priced s n)) v.linked.0
          ∙ find_place-first (priced s n) (level_at s n) n l.at
              (ask_not_after (level_at s n) (level_at s l.at) f.side better)
          ∙ insert_before_runs (priced s n) n l.at (places ls) v.linked.1 out
              (ask_before (level_at s n) (level_at s l.at) f.side better),
      turn-IsRing (next_level t) (prev_level t) l.at (places ls) n (
          spliced-IsRing s t Side.sell n p f l ls v out
            (ahead-Spliced s n l.at (places ls) v.linked.1 out)),
      v.linked.0,
      refl,
    )
