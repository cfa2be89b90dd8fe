-- ===== src/Book/Levels.antt =====
-- The circular list of price levels: `addOrdersAtPrice` and `removeOrdersAtPrice` of
-- exchange/matcher/me_order_book.h.
use low_latency_trading_engi.Base.{
  ℕ, zero, suc, ◌+◌, Bool, true, false, not, ◌&&◌, ◌||◌, Option, none, some, Fault, ◌>>=◌, ◌>>◌,
  pure, fail, gets, modify, deref, ltb_ℤ, ◌==◌, if◌then◌else◌, same_ptr,
}
use low_latency_trading_engi.Types.{Price, Side, is_buy, is_sell}
use low_latency_trading_engi.Book.{
  MeOrdersAtPrice, State, B, level, set_level, best_of, with_best, deallocate_level,
  get_orders_at_price, set_orders_at_price,
}

-- `add_after`: the new level has a higher ask or a lower bid than `target`.
abbrev pub worse_than : Side → Price → MeOrdersAtPrice → Bool
worse_than side price target =
    (is_sell side && ltb_ℤ target.price price) || (is_buy side && ltb_ℤ price target.price)

abbrev pub goes_after : MeOrdersAtPrice → MeOrdersAtPrice → Bool
goes_after new target = worse_than new.side new.price target

-- The test by which the new level becomes the entry point of its side.
abbrev pub goes_before : MeOrdersAtPrice → MeOrdersAtPrice → Bool
goes_before new target =
    (is_buy new.side && ltb_ℤ target.price new.price)
    || (is_sell new.side && ltb_ℤ new.price target.price)

-- The walk from `target` on, until the place is found or the list has been gone round.
unfoldable pub find_place : ℕ → MeOrdersAtPrice → (best : ℕ) → Bool → ℕ → B (Bool × ℕ)
find_place zero new best add_after target = fail Fault.no_fuel
find_place (suc fuel) new best add_after target = elim (add_after && not (target == best)) [
  | true ↦ do
    t ← level target
    if goes_after new t
        then (do next ← deref t.next_entry; find_place fuel new best true next)
        else find_place fuel new best false target
  | false ↦ pure (add_after, target)
]

-- Behind `target`, or behind the last level if the walk came round to the best one.
unfoldable pub insert_after : ℕ → (best : ℕ) → ℕ → B (Unit {0})
insert_after new best target = do
  b ← level best
  target' ← (if target == best then deref b.prev_entry else pure target)
  set_level new (λ l. record l { prev_entry = some target' })
  t ← level target'
  after ← deref t.next_entry
  set_level after (λ l. record l { prev_entry = some new })
  t' ← level target'
  set_level new (λ l. record l { next_entry = t'.next_entry })
  set_level target' (λ l. record l { next_entry = some new })

-- The entry point that the code moves when a level is inserted in front of one with a worse price:
-- both branches of its conditional name the bids.
abbrev pub set_entry_point : ℕ → B (Unit {0})
set_entry_point new = modify (λ (s : State). with_best s Side.buy (some new))

unfoldable pub insert_before : ℕ → (best : ℕ) → ℕ → B (Unit {0})
insert_before new best target = do
  t ← level target
  set_level new (λ l. record l { prev_entry = t.prev_entry })
  set_level new (λ l. record l { next_entry = some target })
  t' ← level target
  before ← deref t'.prev_entry
  set_level before (λ l. record l { next_entry = some new })
  set_level target (λ l. record l { prev_entry = some new })
  n ← level new
  t'' ← level target
  if goes_before n t''
      then (do
        set_level target (λ l. record l {
          next_entry = if same_ptr t''.next_entry (some best) then some new else t''.next_entry;
        })
        set_entry_point new)
      else pure tt

-- The first step of the walk is taken before its loop.
unfoldable pub first_step : MeOrdersAtPrice → (best : ℕ) → B (Bool × ℕ)
first_step new best = do
  b ← level best
  if goes_after new b
      then (do second ← deref b.next_entry; t ← level second; pure (goes_after new t, second))
      else pure (false, best)

unfoldable pub add_orders_at_price : ℕ → B (Unit {0})
add_orders_at_price new = do
  n ← level new
  set_orders_at_price n.price (some new)
  best ← gets (λ (s : State). best_of s n.side)
  elim best [
    | none ↦ do
      modify (λ s. with_best s n.side (some new))
      set_level new (λ l. record l { prev_entry = some new; next_entry = some new })
    | some b ↦ do
      (add_after, target) ← first_step n b
      levels ← gets (λ (s : State). s.orders_at_price_pool.store_size)
      (add_after', target') ← find_place (levels + 1) n b add_after target
      if add_after' then insert_after new b target' else insert_before new b target'
  ]

-- Takes a level out of its list.
unfoldable pub unlink_level : ℕ → Side → (best : Option ℕ) → B (Unit {0})
unlink_level p side best = do
  l ← level p
  before ← deref l.prev_entry
  set_level before (λ b. record b { next_entry = l.next_entry })
  l' ← level p
  after ← deref l'.next_entry
  set_level after (λ a. record a { prev_entry = l'.prev_entry })
  l'' ← level p
  (if same_ptr (some p) best then modify (λ s. with_best s side l''.next_entry) else pure tt)
  set_level p (λ x. record x { prev_entry = none; next_entry = none })

unfoldable pub remove_orders_at_price : Side → Price → B (Unit {0})
remove_orders_at_price side price = do
  best ← gets (λ (s : State). best_of s side)
  found ← get_orders_at_price price
  p ← deref found
  l ← level p
  (if same_ptr l.next_entry (some p)
      then modify (λ s. with_best s side none)
      else unlink_level p side best)
  set_orders_at_price price none
  deallocate_level p
