-- ===== src/Book/Ladder/Match.antt =====
-- Matching against a side in order, `checkForMatch` of exchange/matcher/me_order_book.cpp: every call
-- ends, and leaves the side in order.
use low_latency_trading_engi.Base.{
  ℕ, zero, suc, ◌+◌, ◌^◌, ◌%◌, ◌≤◌, ◌<◌, ◌≡◌, refl, sym, ap, ◌∙◌, inl, inr, true, false, not, ◌||◌,
  Bool, Bool-cases, Option, none, some, List, [], ◌∷◌, ok, arith, ◌==◌, if◌then◌else◌, subst, deref,
  pure, ◌>>=◌, bind_result,
}
use low_latency_trading_engi.LfQueue.{write_all}
use low_latency_trading_engi.Messages.{MeMarketUpdate, MeClientResponse}
use low_latency_trading_engi.Types.{OrderId, Qty, Side, is_buy, is_sell}
use low_latency_trading_engi.Book.{State, B, order, level, order_at, level_at, best_of}
use low_latency_trading_engi.Book.FillOrder.{Matched}
use low_latency_trading_engi.Book.Fills.{match_loop-Matched}
use low_latency_trading_engi.Book.Totals.{traded, executed, traded-Fills, executed-Fills}
use low_latency_trading_engi.Book.Matching.{
  Incoming, match_order, too_far, opposite, try_order, try_level, match_loop, check_for_match,
}
use low_latency_trading_engi.Book.Ladder.{Level, IsBookSide, count}
use low_latency_trading_engi.Book.Ladder.Sweep.{match_order-Progress}

module _ (i : Incoming) (id : OrderId) (sd : Side) where
  abbrev Against : Type 0
  Against = is_buy i.side ≡ not (is_buy sd)

  opposite-best : Against → (s : State) → opposite s i.side ≡ best_of s sd
  opposite-best a s = elim (Bool-cases (is_buy sd)) [ inl b ↦ rw (a, b) | inr b ↦ rw (a, b) ]

  -- A round with nothing left to fill.
  match_loop-zero : (fuel : ℕ) (s : State) → 0 < fuel → match_loop fuel i id 0 s ≡ ok (0, s)
  unfolding match_loop try_level
  match_loop-zero zero s h = absurd (omega arith)
  match_loop-zero (suc fuel) s h = go (opposite s i.side)
    where
      go : (o : Option ℕ) → try_level (λ left. match_loop fuel i id left) i id 0 o s ≡ ok (0, s)
      go none = refl
      go (some p) = refl

  -- A round that reaches an order, the first of the best level.
  try_level-first :
      (rest : Qty → B Qty) (leaves p q : ℕ) (s : State)
      → opposite s i.side ≡ some p
      → (leaves == 0) ≡ false
      → (level_at s p).first_me_order ≡ some q
      → try_level rest i id leaves (opposite s i.side) s
        ≡ try_order rest i id leaves q (order_at s q) s
  unfolding try_level
  try_level-first rest leaves p q s best more first =
      ap (λ o. try_level rest i id leaves o s) best
      ∙ ap
          (λ (b : Bool).
            (if b then pure leaves else (do
              l ← level p
              itr ← deref l.first_me_order
              o ← order itr
              try_order rest i id leaves itr o))
              s)
          more
      ∙ ap (λ (f : Option ℕ). (do itr ← deref f; o ← order itr; try_order rest i id leaves itr o) s)
          first

  try_order-far :
      (rest : Qty → B Qty) (leaves q : ℕ) (s : State)
      → too_far i (order_at s q) ≡ true
      → try_order rest i id leaves q (order_at s q) s ≡ ok (leaves, s)
  unfolding try_order
  try_order-far rest leaves q s far =
      ap
        (λ (b : Bool).
          (if b then pure leaves else (do left ← match_order i id q leaves; rest left)) s)
        far

  try_order-near :
      (rest : Qty → B Qty) (leaves q left : ℕ) (s t : State)
      → too_far i (order_at s q) ≡ false
      → match_order i id q leaves s ≡ ok (left, t)
      → try_order rest i id leaves q (order_at s q) s ≡ rest left t
  unfolding try_order
  try_order-near rest leaves q left s t near run =
      ap
        (λ (b : Bool).
          (if b then pure leaves else (do left ← match_order i id q leaves; rest left)) s)
        near
      ∙ ap (λ r. bind_result r (λ x. rest x.0 x.1)) run

  abbrev Ends : ℕ → Qty → State → List Level → Type 0
  Ends fuel leaves s ls =
      (left : Qty) × (s' : State) × (ls' : List Level) × (match_loop fuel i id leaves s
        ≡ ok (left, s'))
      × IsBookSide s' sd ls'
      × (count ls' ≤ count ls)

  -- With more rounds than orders the loop ends, and leaves the side in order.
  match_loop-total :
      Against
      → (fuel : ℕ) (ls : List Level) (leaves : Qty) (s : State) → IsBookSide s sd ls
      → count ls < fuel
      → Ends fuel leaves s ls
  unfolding match_loop
  match_loop-total a zero ls leaves s v f = absurd (omega arith)
  match_loop-total a (suc fuel) [] leaves s v f = (
    leaves,
    s,
    [],
    (unfold try_level in
        ap (λ o. try_level (λ left. match_loop fuel i id left) i id leaves o s)
          (opposite-best a s ∙ v.linked)),
    v,
    omega arith,
  )
  match_loop-total a (suc fuel) (l ∷ ls) leaves s v f =
      let rest : Qty → B Qty = λ left. match_loop fuel i id left in
      elim (Bool-cases (leaves == 0)) [
        | inl z ↦
            let nothing : leaves ≡ 0 = ground arith in
            (
              leaves,
              s,
              l ∷ ls,
              subst (λ n. match_loop (suc fuel) i id n s ≡ ok (n, s)) (sym nothing)
                  (match_loop-zero (suc fuel) s (omega arith)),
              v,
              omega arith,
            )
        | inr more ↦
            let first =
              try_level-first rest leaves l.at l.head s (opposite-best a s ∙ v.linked.0) more
                v.levels.0.queue.first in
            elim (Bool-cases (too_far i (order_at s l.head))) [
              | inl far ↦ (
                leaves,
                s,
                l ∷ ls,
                first ∙ try_order-far rest leaves l.head s far,
                v,
                omega arith,
              )
              | inr near ↦
                  let (left, t, run, (ls1, v1, prog)) =
                    match_order-Progress i id sd s l.at l.head l.behind ls leaves v in
                  let round = first ∙ try_order-near rest leaves l.head left s t near run in
                  elim prog [
                    | inl less ↦
                        let (n, s', ls', more_rounds, v', fewer) =
                          match_loop-total a fuel ls1 left t v1 (omega (arith, less, f)) in
                        (n, s', ls', round ∙ more_rounds, v', omega (arith, less, fewer))
                    | inr (same, empty) ↦ (
                      0,
                      t,
                      ls1,
                      round
                          ∙ ap (λ n. match_loop fuel i id n t) empty
                          ∙ match_loop-zero fuel t (omega (arith, f)),
                      v1,
                      omega (arith, same),
                    )
                  ]
            ]
      ]

-- The incoming order is of the other side than `sd`.
abbrev pub IsAgainst : Incoming → Side → Type 0
IsAgainst i sd = (is_buy i.side || is_sell i.side ≡ true) × (is_buy i.side ≡ not (is_buy sd))

check_for_match-loop :
    (i : Incoming) (id : OrderId) (s : State)
    → (is_buy i.side || is_sell i.side) ≡ true
    → check_for_match i id s ≡ match_loop (s.order_pool.store_size + 1) i (id % 2 ^ 32) i.qty s
unfolding check_for_match
check_for_match-loop i id s known =
    ap
      (λ (b : Bool).
        (if b then match_loop (s.order_pool.store_size + 1) i (id % 2 ^ 32) i.qty else pure i.qty)
          s)
      known

-- Matching an order with a quantity of 32 bits against the other side, which is in order and has no
-- more orders than the pool has blocks, ends. It leaves the side in order with no more orders than
-- before, the messages sent are those of a series of fills, each of the order that is then the first of
-- the best level, at that order's price in the book, which the incoming order accepts, and for the
-- smaller of the two quantities, and it stops for want of quantity, of orders, or of orders at a
-- price that the incoming one accepts.
pub check_for_match-Matched :
    (i : Incoming) (id : OrderId) (sd : Side) (s : State) (ls : List Level)
    → IsAgainst i sd
    → i.qty < 2 ^ 32
    → IsBookSide s sd ls
    → count ls ≤ s.order_pool.store_size
    → (left : Qty) × (s' : State) × (ls' : List Level) × (check_for_match i id s ≡ ok (left, s'))
      × IsBookSide s' sd ls'
      × (count ls' ≤ count ls)
      × Matched i (id % 2 ^ 32) i.qty s left s'
check_for_match-Matched i id sd s ls (known, against) small v fits =
    let n = s.order_pool.store_size + 1 in
    let (left, s', ls', run, v', fewer) =
      match_loop-total i (id % 2 ^ 32) sd against n ls i.qty s v (omega (arith, fits)) in
    (
      left,
      s',
      ls',
      check_for_match-loop i id s known ∙ run,
      v',
      fewer,
      match_loop-Matched i (id % 2 ^ 32) n i.qty s s' left small run,
    )

-- Matching an order with a quantity of 32 bits against the other side, which is in order and has no
-- more orders than the pool has blocks, creates and loses no quantity: what the trades told to the
-- market add up to, together with what is left, is the incoming quantity, and the fills told to the
-- clients add up to twice what was traded.
pub check_for_match-traded :
    (i : Incoming) (id : OrderId) (sd : Side) (s : State) (ls : List Level)
    → IsAgainst i sd
    → i.qty < 2 ^ 32
    → IsBookSide s sd ls
    → count ls ≤ s.order_pool.store_size
    → (left : Qty) × (s' : State) × (rs : List MeClientResponse) × (us : List MeMarketUpdate)
      × (check_for_match i id s ≡ ok (left, s'))
      × (s'.outgoing_ogw_responses ≡ write_all s.outgoing_ogw_responses rs)
      × (s'.outgoing_md_updates ≡ write_all s.outgoing_md_updates us)
      × (traded us + left ≡ i.qty)
      × (executed rs ≡ traded us + traded us)
check_for_match-traded i id sd s ls against small v fits =
    let (left, s', ls', run, v', fewer, m) =
      check_for_match-Matched i id sd s ls against small v fits in
    (
      left,
      s',
      m.rs,
      m.us,
      run,
      m.responses,
      m.updates,
      traded-Fills i (id % 2 ^ 32) m.fills,
      executed-Fills i (id % 2 ^ 32) m.fills,
    )
