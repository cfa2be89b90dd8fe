-- ===== src/Book/Ladder/Insert.antt =====
-- `addOrdersAtPrice` of exchange/matcher/me_order_book.h where it keeps a side in order: on an empty
-- side, at a price worse than all, and for a bid better than all.
use low_latency_trading_engi.Base.{
  ℕ, ◌≤◌, ◌≡◌, ◌≢◌, refl, sym, ap, ◌∙◌, subst, true, false, not, ◌&&◌, ◌||◌, Option, ltb_ℤ, none,
  some, List, [], ◌∷◌, ◌++◌, All, ok, arith, inl, inr, Bool-cases, if◌then◌else◌, length,
}
use low_latency_trading_engi.Types.{Price, Side, is_buy, is_sell}
use low_latency_trading_engi.Ring.{has, last, IsRing}
use low_latency_trading_engi.Book.{
  MeOrdersAtPrice, B, set_level, State, level_at, best_of, with_best, put_level,
}
use low_latency_trading_engi.Ring.Bounds.{length-Distinct}
use low_latency_trading_engi.Book.Ladder.Walk.{
  priced, from_best, add_orders_at_price_lem, find_place-worst, find_place-first,
}
use low_latency_trading_engi.Book.Ladder.Writes.{
  behind_last, apart, front, insert_after_runs, insert_before_runs,
}
use low_latency_trading_engi.Book.Levels.{goes_after, goes_before, worse_than, add_orders_at_price}
use low_latency_trading_engi.Book.Ladder.{Level, next_level, prev_level, IsBookSide, places}
use low_latency_trading_engi.Book.Ladder.Empty.{new_best, with_best_lem, best_of-new_best}
use low_latency_trading_engi.Book.Ladder.Splice.{
  IsFresh, fresh-apart, sides-apart, last-apart, places-Below, other_side-IsBookSide, Spliced,
  alone-IsBookSide, spliced_first-IsBookSide, spliced_last-IsBookSide,
}

-- What an insertion leaves as it was.
pub record OnlyLevels (s s' : State) : Type 0 where
  pub orders : s'.order_pool ≡ s.order_pool
  pub clients : s'.cid_oid_to_order ≡ s.cid_oid_to_order
  pub responses : s'.outgoing_ogw_responses ≡ s.outgoing_ogw_responses
  pub updates : s'.outgoing_md_updates ≡ s.outgoing_md_updates

-- Every level of the side has a better price than the new one.
abbrev pub IsWorse : State → Side → Price → List ℕ → Type 0
IsWorse s sd price ls = All (λ z. worse_than sd price (level_at s z) ≡ true) ls

-- Where a new level goes among the ones that are there.
pub data Place (s : State) (sd : Side) (price : Price) (new : Level)
    : List Level → List Level → Type 0 where
  alone : Place s sd price new [] (new ∷ [])
  behind_all :
      (l : Level) (ls : List Level)
      → IsWorse s sd price (places (l ∷ ls))
      → Place s sd price new (l ∷ ls) ((l ∷ ls) ++ (new ∷ []))
  in_front :
      (l : Level) (ls : List Level)
      → sd ≡ Side.buy
      → ltb_ℤ (level_at s l.at).price price ≡ true
      → Place s sd price new (l ∷ ls) (new ∷ l ∷ ls)

abbrev pub Inserted : State → Side → Side → ℕ → List Level → List Level → Type 0
Inserted s sd od n ls ms =
    (s' : State) × (add_orders_at_price n s ≡ ok (tt, s'))
    × OnlyLevels s s'
    × IsBookSide s' sd ls
    × IsBookSide s' od ms

abbrev pub IsOpposite : Side → Side → Type 0
IsOpposite sd od = is_buy od ≡ not (is_buy sd)

opposite_ne : (sd od : Side) → IsOpposite sd od → sd ≢ od
opposite_ne sd od h e = elim (Bool-cases (is_buy sd)) [
  | inl y ↦ let e' : is_buy sd ≡ is_buy od = ap is_buy e in cc
  | inr n ↦ let e' : is_buy sd ≡ is_buy od = ap is_buy e in cc
]

-- A better bid than `target` passes the tests of the code.
bid_before :
    (new target : MeOrdersAtPrice)
    → new.side ≡ Side.buy
    → ltb_ℤ target.price new.price ≡ true
    → goes_before new target ≡ true
bid_before new target side h =
    ap
      (λ d.
        (is_buy d && ltb_ℤ target.price new.price) || (is_sell d && ltb_ℤ new.price target.price))
      side
    ∙ ap (λ x. x || false) h

bid_not_after :
    (new target : MeOrdersAtPrice)
    → new.side ≡ Side.buy
    → ltb_ℤ target.price new.price ≡ true
    → goes_after new target ≡ false
bid_not_after new target side h = ap (λ d. worse_than d new.price target) side ∙ ground (arith, h)

-- Both insertions put the level between the last and the first one.
module _ (s : State) (n b : ℕ) (ls : List ℕ) (r : IsRing (next_level s) (prev_level s) b ls)
    (out : has n (b ∷ ls) ≡ false) where
  behind-Spliced : Spliced s n (last b ls) b (behind_last (priced s n) n (last b ls) b)
  behind-Spliced =
      let a = apart (priced s n) n b ls r out in
      record {
        next_l = ground (arith, a);
        prev_n = ground (arith, a);
        next_n = ground (arith, a);
        prev_x = ground (arith, a);
        nexts = λ z h k. ground (arith, a);
        prevs = λ z h k. ground (arith, a);
        firsts = λ z. ground arith;
        marks = λ z. ground arith;
        orders = refl;
        prices = refl;
        levels_size = refl;
      }

  pub ahead-Spliced : Spliced s n (last b ls) b (front (priced s n) n b ls r out)
  ahead-Spliced =
      let a = apart (priced s n) n b ls r out in
      record {
        next_l = ground (arith, a);
        prev_n = ground (arith, a);
        next_n = ground (arith, a);
        prev_x = ground (arith, a);
        nexts = λ z h k. ground (arith, a);
        prevs = λ z h k. ground (arith, a);
        firsts = λ z. ground arith;
        marks = λ z. ground arith;
        orders = refl;
        prices = refl;
        levels_size = refl;
      }

module _ (s : State) (sd od : Side) (opp : IsOpposite sd od) (n p : ℕ) (f : IsFresh s sd n p)
    (ms : List Level) (w : IsBookSide s od ms) where
  abbrev new_level : Level
  new_level = record { at = n; head = p; behind = [] }

  reads_best :
      (o : Option ℕ)
      → best_of s sd ≡ o
      → add_orders_at_price n s ≡ from_best (level_at s n) n o (priced s n)
  reads_best o best =
      add_orders_at_price_lem n s
      ∙ ap (λ d. from_best (level_at s n) n (best_of s d) (priced s n)) f.side
      ∙ ap (λ o. from_best (level_at s n) n o (priced s n)) best

  abbrev first_best : State
  first_best = new_best (priced s n) sd (some n)

  abbrev only : State
  only = put_level first_best n (record (level_at s n) { prev_entry = some n; next_entry = some n })

  only-Spliced : Spliced s n n n only
  only-Spliced = record {
    next_l = ground arith;
    prev_n = ground arith;
    next_n = ground arith;
    prev_x = ground arith;
    nexts = λ z h k. ground arith;
    prevs = λ z h k. ground arith;
    firsts = λ z. ground arith;
    marks = λ z. ground arith;
    orders = refl;
    prices = refl;
    levels_size = refl;
  }

  abbrev close_circle : B (Unit {0})
  close_circle = set_level n (λ l. record l { prev_entry = some n; next_entry = some n })

  -- On an empty side.
  insert-alone : IsBookSide s sd [] → Inserted s sd od n (new_level ∷ []) ms
  insert-alone v =
      let out : has n (places ms) ≡ false = fresh-apart s sd od n p f ms w.levels in
      let kept : best_of only od ≡ best_of s od = ground (arith, opp) in
      (
        only,
        reads_best none v.linked
            ∙ ap (λ d. close_circle (with_best (priced s n) d (some n))) f.side
            ∙ ap close_circle (with_best_lem (priced s n) sd (some n)),
        record { orders = refl; clients = refl; responses = refl; updates = refl },
        alone-IsBookSide s only sd n p f only-Spliced (best_of-new_best (priced s n) sd (some n)),
        other_side-IsBookSide s only sd od n p n n f only-Spliced ms w out out kept,
      )

  module _ (l : Level) (ls : List Level) (v : IsBookSide s sd (l ∷ ls)) where
    out : has n (places (l ∷ ls)) ≡ false
    out = fresh-apart s sd sd n p f (l ∷ ls) v.levels

    few : length (places ls) ≤ s.orders_at_price_pool.store_size
    few =
        length-Distinct s.orders_at_price_pool.store_size (places ls) v.linked.1.distinct.1
          (places-Below s sd ls v.levels.1)

    not_theirs : (has (last l.at (places ls)) (places ms) ≡ false) × (has l.at (places ms) ≡ false)
    not_theirs =
        let ne = opposite_ne sd od opp in
        (
          last-apart s sd od l ls ms v.levels ne w.levels,
          sides-apart s sd od l v.levels.0 ne ms w.levels,
        )

    abbrev behind : State
    behind = behind_last (priced s n) n (last l.at (places ls)) l.at

    abbrev ahead : State
    ahead = front (priced s n) n l.at (places ls) v.linked.1 out

    -- At a price worse than every other one of the side.
    insert-behind :
        IsWorse s sd (level_at s n).price (places (l ∷ ls))
        → Inserted s sd od n ((l ∷ ls) ++ (new_level ∷ [])) ms
    insert-behind worse = (
      behind,
      reads_best (some l.at) v.linked.0
          ∙ find_place-worst (priced s n) (level_at s n) n l.at (places ls) v.linked.1
              (subst (λ d. IsWorse s d (level_at s n).price (places (l ∷ ls))) (sym f.side) worse)
              few
          ∙ insert_after_runs (priced s n) n l.at (places ls) v.linked.1 out,
      record { orders = refl; clients = refl; responses = refl; updates = refl },
      spliced_last-IsBookSide s behind sd n p f l ls v out
          (behind-Spliced s n l.at (places ls) v.linked.1 out) v.linked.0,
      other_side-IsBookSide s behind sd od n p (last l.at (places ls)) l.at f
          (behind-Spliced s n l.at (places ls) v.linked.1 out) ms w not_theirs.0 not_theirs.1 refl,
    )

    -- A bid at a price better than every other one.
    insert-ahead :
        sd ≡ Side.buy
        → ltb_ℤ (level_at s l.at).price (level_at s n).price ≡ true
        → Inserted s sd od n (new_level ∷ l ∷ ls) ms
    insert-ahead bid better =
        let side : (level_at s n).side ≡ Side.buy = f.side ∙ bid in
        let buys : is_buy sd ≡ true = ap is_buy bid in
        let sells : is_buy od ≡ false = opp ∙ ap not buys in
        (
          ahead,
          reads_best (some l.at) v.linked.0
              ∙ find_place-first (priced s n) (level_at s n) n l.at
                  (bid_not_after (level_at s n) (level_at s l.at) side better)
              ∙ insert_before_runs (priced s n) n l.at (places ls) v.linked.1 out
                  (bid_before (level_at s n) (level_at s l.at) side better),
          record { orders = refl; clients = refl; responses = refl; updates = refl },
          spliced_first-IsBookSide s ahead sd n p f l ls v out
              (ahead-Spliced s n l.at (places ls) v.linked.1 out)
              (ap (λ b. if b then some n else s.asks_by_price) buys),
          other_side-IsBookSide s ahead sd od n p (last l.at (places ls)) l.at f
              (ahead-Spliced s n l.at (places ls) v.linked.1 out) ms w not_theirs.0 not_theirs.1
              (ap (λ b. if b then some n else s.asks_by_price) sells
                ∙ sym (ap (λ b. if b then s.bids_by_price else s.asks_by_price) sells)),
        )

  -- On each of these ways the new level takes its place, and the other side stays as it was.
  pub insert-Inserted :
      (ls ls' : List Level)
      → Place s sd (level_at s n).price new_level ls ls'
      → IsBookSide s sd ls
      → Inserted s sd od n ls' ms
  insert-Inserted _ _ alone v = insert-alone v
  insert-Inserted _ _ (behind_all l ls worse) v = insert-behind l ls v worse
  insert-Inserted _ _ (in_front l ls bid better) v = insert-ahead l ls v bid better
