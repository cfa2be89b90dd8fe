-- ===== src/Book/Ladder/Writes.antt =====
-- The pointers that `addOrdersAtPrice` of exchange/matcher/me_order_book.h writes between the last
-- level and the best one.
use low_latency_trading_engi.Base.{
  ℕ, ◌≡◌, ◌≢◌, ap, ◌∙◌, true, false, Option, none, some, List, [], ◌∷◌, ok, arith, ==-self, ==-ne,
  inl, inr, Bool-cases, if◌then◌else◌, same_ptr, deref, ◌==◌, ◌>>=◌, ◌>>◌, pure, Result,
}
use low_latency_trading_engi.Types.{Side}
use low_latency_trading_engi.Ring.{
  has, Distinct, head_or, head-Links, last, last-ne, last-Links, IsRing,
}
use low_latency_trading_engi.Book.{MeOrdersAtPrice, B, set_level, State, level_at, with_best, level}
use low_latency_trading_engi.Book.Levels.{goes_before, set_entry_point, insert_after, insert_before}
use low_latency_trading_engi.Book.Ladder.{next_level, prev_level}
use low_latency_trading_engi.Book.Ladder.Empty.{set_next_level, set_prev_level, new_best}

-- All of a level but its place in the circle.
abbrev level_payload : MeOrdersAtPrice → MeOrdersAtPrice
level_payload l = record l { prev_entry = none; next_entry = none }

set_next_level-payload :
    (s : State) (z : ℕ) (p : Option ℕ) (y : ℕ)
    → level_payload (level_at (set_next_level s z p) y) ≡ level_payload (level_at s y)
set_next_level-payload s z p y = ground arith

set_prev_level-payload :
    (s : State) (z : ℕ) (p : Option ℕ) (y : ℕ)
    → level_payload (level_at (set_prev_level s z p) y) ≡ level_payload (level_at s y)
set_prev_level-payload s z p y = ground arith

head_or-ne : (b : ℕ) (ls : List ℕ) → Distinct (b ∷ ls) → last b ls ≢ b → head_or b ls ≢ b
head_or-ne b [] d h = h
head_or-ne b (m ∷ ms) d h = λ e. ground (arith, d)

-- The writes of the two insertions, between the last level `l` and the best one `b`.
abbrev pub behind_last : State → (n l b : ℕ) → State
behind_last s n l b =
    set_next_level
      (set_next_level (set_prev_level (set_prev_level s n (some l)) b (some n)) n (some b)) l
      (some n)

module _ (s : State) (n b : ℕ) (ls : List ℕ) (r : IsRing (next_level s) (prev_level s) b ls)
    (out : has n (b ∷ ls) ≡ false) where
  pub ends : (next_level s (last b ls) ≡ some b) × (prev_level s b ≡ some (last b ls))
  ends = last-Links (next_level s) (prev_level s) b ls b r.links

  pub apart : (n ≢ b) × (n ≢ last b ls)
  apart = (λ e. ground arith, last-ne b n ls out)

  abbrev l : ℕ
  l = last b ls

  abbrev from_last : ℕ → B (Unit {0})
  from_last target = do
    set_level n (λ l. record l { prev_entry = some target })
    t ← level target
    after ← deref t.next_entry
    set_level after (λ l. record l { prev_entry = some n })
    t' ← level target
    set_level n (λ l. record l { next_entry = t'.next_entry })
    set_level target (λ l. record l { next_entry = some n })

  abbrev from_after : Option ℕ → State → Result (Unit {0} × State)
  from_after next t =
      (do
        after ← deref next
        set_level after (λ l. record l { prev_entry = some n })
        t' ← level l
        set_level n (λ l. record l { next_entry = t'.next_entry })
        set_level l (λ l. record l { next_entry = some n }))
        t

  kept_next : next_level (set_prev_level s n (some l)) l ≡ some b
  kept_next = ground (arith, apart, ends)

  abbrev pointed_back : State
  pointed_back = set_prev_level (set_prev_level s n (some l)) b (some n)

  kept_next_again : next_level pointed_back l ≡ some b
  kept_next_again = ground (arith, apart, ends)

  pub insert_after_runs : insert_after n b b s ≡ ok (tt, behind_last s n l b)
  unfolding insert_after
  insert_after_runs =
      ap (λ e. ((if e then deref (prev_level s b) else pure b) >>= from_last) s) (==-self b)
      ∙ ap (λ o. (deref o >>= from_last) s) ends.1
      ∙ ap (λ o. from_after o (set_prev_level s n (some l))) kept_next
      ∙ ap (λ o. ok (tt, set_next_level (set_next_level pointed_back n o) l (some n)))
          kept_next_again

  -- The writes of the other one.
  abbrev in_front : State
  in_front =
      set_prev_level
        (set_next_level (set_next_level (set_prev_level s n (some l)) n (some b)) l (some n)) b
        (some n)

  abbrev move_best : MeOrdersAtPrice → MeOrdersAtPrice → B (Unit {0})
  move_best nn t =
      if goes_before nn t
      then (do
        set_level b (λ l. record l {
          next_entry = if same_ptr t.next_entry (some b) then some n else t.next_entry;
        })
        set_entry_point n)
      else pure tt

  abbrev link_in : Option ℕ → B (Unit {0})
  link_in p = do
    set_level n (λ l. record l { prev_entry = p })
    set_level n (λ l. record l { next_entry = some b })
    t' ← level b
    before ← deref t'.prev_entry
    set_level before (λ l. record l { next_entry = some n })
    set_level b (λ l. record l { prev_entry = some n })
    nn ← level n
    t'' ← level b
    move_best nn t''

  abbrev found_last : State
  found_last = set_next_level (set_prev_level s n (some l)) n (some b)

  still_last : prev_level found_last b ≡ some l
  still_last = ground (arith, apart, ends)

  abbrev link_last : Option ℕ → B (Unit {0})
  link_last o = do
    before ← deref o
    set_level before (λ l. record l { next_entry = some n })
    set_level b (λ l. record l { prev_entry = some n })
    nn ← level n
    t'' ← level b
    move_best nn t''

  not_round : same_ptr (next_level in_front b) (some b) ≡ false
  not_round = elim (Bool-cases (l == b)) [
    | inl same ↦
        let e : next_level in_front b ≡ some n = ground (arith, apart) in
        ap (λ o. same_ptr o (some b)) e ∙ ==-ne n b apart.0
    | inr other ↦
        let e : next_level in_front b ≡ next_level s b = ground (arith, apart) in
        let m = head_or b ls in
        ap (λ o. same_ptr o (some b))
          (e ∙ (head-Links (next_level s) (prev_level s) b ls b r.links).0)
        ∙ ==-ne m b (head_or-ne b ls r.distinct (λ eq. ground (arith, eq)))
  ]

  in_front-payload : (y : ℕ) → level_payload (level_at in_front y) ≡ level_payload (level_at s y)
  in_front-payload y =
      set_prev_level-payload (set_next_level found_last l (some n)) b (some n) y
      ∙ set_next_level-payload found_last l (some n) y
      ∙ set_next_level-payload (set_prev_level s n (some l)) n (some b) y
      ∙ set_prev_level-payload s n (some l) y

  still_better :
      goes_before (level_at s n) (level_at s b) ≡ true
      → goes_before (level_at in_front n) (level_at in_front b) ≡ true
  still_better h =
      ap (λ x. goes_before x (level_at in_front b)) (in_front-payload n)
      ∙ ap (λ x. goes_before (level_at s n) x) (in_front-payload b)
      ∙ h

  abbrev pub front : State
  front = new_best (set_next_level in_front b (next_level in_front b)) Side.buy (some n)

  pub insert_before_runs :
      goes_before (level_at s n) (level_at s b) ≡ true → insert_before n b b s ≡ ok (tt, front)
  unfolding insert_before
  insert_before_runs h =
      ap (λ o. link_in o s) ends.1
      ∙ ap (λ o. link_last o found_last) still_last
      ∙ ap
          (λ e.
            (if e
                then (do
                  set_level b (λ l. record l {
                    next_entry =
                        if same_ptr (next_level in_front b) (some b)
                        then some n
                        else (next_level in_front b);
                  })
                  set_entry_point n)
                else pure tt)
              in_front)
          (still_better h)
      ∙ ap
          (λ e. ok (
            tt,
            with_best (set_next_level in_front b (if e then some n else (next_level in_front b)))
                Side.buy (some n),
          ))
          not_round
