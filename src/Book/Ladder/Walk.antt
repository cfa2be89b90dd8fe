-- ===== src/Book/Ladder/Walk.antt =====
-- The search for the place of a new level, of `addOrdersAtPrice` in exchange/matcher/me_order_book.h:
-- past levels that are all better it goes round the circle and ends.
use low_latency_trading_engi.Base.{
  ℕ, zero, suc, ◌+◌, ◌<◌, ◌≤◌, ◌≡◌, refl, ap, ◌∙◌, Bool, true, false, not, Option, none, some, List,
  [], ◌∷◌, All, ok, arith, ==-self, if◌then◌else◌, modify, deref, gets, ◌==◌, ◌>>=◌, ◌>>◌, pure,
  update, bind_result, length,
}
use low_latency_trading_engi.Ring.{has, Links, IsRing}
use low_latency_trading_engi.Book.{
  MeOrdersAtPrice, B, set_level, State, level_at, best_of, with_best, level,
}
use low_latency_trading_engi.Book.Levels.{
  goes_after, find_place, insert_after, insert_before, first_step, add_orders_at_price,
}
use low_latency_trading_engi.Book.Ladder.{next_level, prev_level}
use low_latency_trading_engi.Book.Ladder.Splice.{index_of}

-- The array of levels by price knows the new level.
abbrev pub priced : State → ℕ → State
priced s n = record s {
  book = record s.book {
    price_orders_at_price = update s.price_orders_at_price (index_of s n) (some n);
  };
}

-- What follows the search for the place.
abbrev pub put_in : ℕ → ℕ → Bool × ℕ → B (Unit {0})
put_in n b r = if r.0 then insert_after n b r.1 else insert_before n b r.1

abbrev pub from_place : MeOrdersAtPrice → ℕ → ℕ → Bool × ℕ → B (Unit {0})
from_place new n b r = do
  levels ← gets (λ (s : State). s.orders_at_price_pool.store_size)
  place ← find_place (levels + 1) new b r.0 r.1
  put_in n b place

abbrev pub from_best : MeOrdersAtPrice → ℕ → Option ℕ → B (Unit {0})
from_best new n best = elim best [
  | none ↦ do
    modify (λ s. with_best s new.side (some n))
    set_level n (λ l. record l { prev_entry = some n; next_entry = some n })
  | some b ↦ do r ← first_step new b; from_place new n b r
]

pub add_orders_at_price_lem :
    (n : ℕ) (s : State)
    → add_orders_at_price n s
      ≡ from_best (level_at s n) n (best_of s (level_at s n).side) (priced s n)
unfolding add_orders_at_price
add_orders_at_price_lem n s = refl

-- One step of the walk.
abbrev look_at : ℕ → MeOrdersAtPrice → ℕ → ℕ → B (Bool × ℕ)
look_at fuel new b a = do
  t ← level a
  if goes_after new t
      then (do next ← deref t.next_entry; find_place fuel new b true next)
      else find_place fuel new b false a

find_place-step :
    (fuel : ℕ) (s : State) (new : MeOrdersAtPrice) (b a c : ℕ)
    → (a == b) ≡ false
    → goes_after new (level_at s a) ≡ true
    → next_level s a ≡ some c
    → find_place (suc fuel) new b true a s ≡ find_place fuel new b true c s
unfolding find_place
find_place-step fuel s new b a c other worse next =
    ap
      (λ e.
        (elim (not e) as (λ x. B (Bool × ℕ)) [
          | true ↦ look_at fuel new b a
          | false ↦ pure (true, a)
        ])
          s)
      other
    ∙ ap
        (λ e.
          (if e
              then (do m ← deref (next_level s a); find_place fuel new b true m)
              else find_place fuel new b false a)
            s)
        worse
    ∙ ap (λ o. (do m ← deref o; find_place fuel new b true m) s) next

find_place-stop :
    (fuel : ℕ) (s : State) (new : MeOrdersAtPrice) (b : ℕ)
    → 0 < fuel
    → find_place fuel new b true b s ≡ ok ((true, b), s)
unfolding find_place
find_place-stop zero s new b h = absurd (omega (arith, h))
find_place-stop (suc fuel) s new b h =
    ap
      (λ e.
        (elim (not e) as (λ x. B (Bool × ℕ)) [
          | true ↦ look_at fuel new b b
          | false ↦ pure (true, b)
        ])
          s)
      (==-self b)

-- The walk goes round the circle.
find_place-round :
    (fuel : ℕ) (s : State) (new : MeOrdersAtPrice) (b a : ℕ) (ls : List ℕ)
    → Links (next_level s) (prev_level s) a ls b
    → has b (a ∷ ls) ≡ false
    → All (λ z. goes_after new (level_at s z) ≡ true) (a ∷ ls)
    → length ls + 1 < fuel
    → find_place fuel new b true a s ≡ ok ((true, b), s)
find_place-round zero s new b a ls l out worse h = absurd (omega (arith, h))
find_place-round (suc zero) s new b a ls l out worse h = absurd (omega (arith, h))
find_place-round (suc (suc fuel)) s new b a [] l out worse h =
    find_place-step (suc fuel) s new b a b (ground arith) worse.0 l.0
    ∙ find_place-stop (suc fuel) s new b (omega arith)
find_place-round (suc (suc fuel)) s new b a (x ∷ xs) l out worse h =
    find_place-step (suc fuel) s new b a x (ground arith) worse.0 l.0
    ∙ find_place-round (suc fuel) s new b x xs l.2 (ground arith) worse.1 (omega (arith, h))

first_step-worse :
    (s : State) (new : MeOrdersAtPrice) (b c : ℕ)
    → goes_after new (level_at s b) ≡ true
    → next_level s b ≡ some c
    → goes_after new (level_at s c) ≡ true
    → first_step new b s ≡ ok ((true, c), s)
unfolding first_step
first_step-worse s new b c wb next wc =
    ap
      (λ e.
        (if e
            then (do
              second ← deref (next_level s b)
              t ← level second
              pure (goes_after new t, second))
            else pure (false, b))
          s)
      wb
    ∙ ap (λ o. (do second ← deref o; t ← level second; pure (goes_after new t, second)) s) next
    ∙ ap (λ e. ok ((e, c), s)) wc

-- The first step and the walk, on a side whose levels are all better.
pub find_place-worst :
    (s : State) (new : MeOrdersAtPrice) (n b : ℕ) (ls : List ℕ)
    → IsRing (next_level s) (prev_level s) b ls
    → All (λ z. goes_after new (level_at s z) ≡ true) (b ∷ ls)
    → length ls ≤ s.orders_at_price_pool.store_size
    → (first_step new b >>= from_place new n b) s ≡ insert_after n b b s
find_place-worst s new n b [] r worse h =
    ap (λ z. bind_result z (λ x. from_place new n b x.0 x.1))
      (first_step-worse s new b b worse.0 r.links.0 worse.0)
    ∙ ap (λ z. bind_result z (λ x. put_in n b x.0 x.1))
        (find_place-stop (s.orders_at_price_pool.store_size + 1) s new b (omega arith))
find_place-worst s new n b (m ∷ ms) r worse h =
    ap (λ z. bind_result z (λ x. from_place new n b x.0 x.1))
      (first_step-worse s new b m worse.0 r.links.0 worse.1.0)
    ∙ ap (λ z. bind_result z (λ x. put_in n b x.0 x.1))
        (find_place-round (s.orders_at_price_pool.store_size + 1) s new b m ms r.links.2
          (ground (arith, r.distinct)) worse.1 (omega (arith, h)))

find_place-here :
    (fuel : ℕ) (s : State) (new : MeOrdersAtPrice) (b : ℕ)
    → 0 < fuel
    → find_place fuel new b false b s ≡ ok ((false, b), s)
unfolding find_place
find_place-here zero s new b h = absurd (omega (arith, h))
find_place-here (suc fuel) s new b h = refl

-- A level that is not behind the best one stays there.
pub find_place-first :
    (s : State) (new : MeOrdersAtPrice) (n b : ℕ)
    → goes_after new (level_at s b) ≡ false
    → (first_step new b >>= from_place new n b) s ≡ insert_before n b b s
unfolding first_step
find_place-first s new n b h =
    ap
      (λ e.
        ((if e
              then (do
                second ← deref (next_level s b)
                t ← level second
                pure (goes_after new t, second))
              else pure (false, b))
            >>= from_place new n b)
          s)
      h
    ∙ ap (λ z. bind_result z (λ x. put_in n b x.0 x.1))
        (find_place-here (s.orders_at_price_pool.store_size + 1) s new b (omega arith))
