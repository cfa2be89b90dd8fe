-- ===== src/Book/Queue.antt =====
-- The orders of one price form a first-in first-out queue: what `addOrder`, `removeOrder` and
-- `getNextPriority` of exchange/matcher/me_order_book.h do to it.
use low_latency_trading_engi.Base.{
  ℕ, ◌≡◌, sym, ◌≢◌, false, Option, none, some, List, [], ◌∷◌, ◌++◌, ok, arith, ==-self, ==-ne,
  deref,
}
use low_latency_trading_engi.Ring.{
  has, last, last-ne, IsRing, last-Links, Links-split, head_or, head-Links,
}
use low_latency_trading_engi.Ring.Edit.{
  append-IsRing, remove-IsRing, remove_head-IsRing, Distinct-parts,
}
use low_latency_trading_engi.Book.{MeOrder, State, order_at, level_at, put_order, put_level}
use low_latency_trading_engi.Book.Orders.{append_order, unlink_order}

abbrev pub next_of : State → ℕ → Option ℕ
next_of s z = (order_at s z).next_order

abbrev pub prev_of : State → ℕ → Option ℕ
prev_of s z = (order_at s z).prev_order

-- The level at `lp` heads the circle of the orders `x ∷ xs`, oldest first.
pub record IsQueue (s : State) (lp x : ℕ) (xs : List ℕ) : Type 0 where
  pub first : (level_at s lp).first_me_order ≡ some x
  pub ring : IsRing (next_of s) (prev_of s) x xs

-- All of an order but its place in the list.
abbrev pub payload : MeOrder → MeOrder
payload o = record o { prev_order = none; next_order = none }

abbrev pub SamePayloads : State → State → Type 0
SamePayloads s s' = (z : ℕ) → payload (order_at s' z) ≡ payload (order_at s z)

abbrev pub set_next : State → ℕ → Option ℕ → State
set_next s z p = put_order s z (record (order_at s z) { next_order = p })

abbrev pub set_prev : State → ℕ → Option ℕ → State
set_prev s z p = put_order s z (record (order_at s z) { prev_order = p })

-- The four writes of `addOrder`, behind the order `l`.
abbrev pub appended : State → (x l p : ℕ) → State
appended s x l p =
    set_prev (set_next (set_prev (set_next s l (some p)) p (some l)) p (some x)) x (some p)

module _ (s : State) (lp x : ℕ) (xs : List ℕ) (q : IsQueue s lp x xs) where
  pub back : prev_of s x ≡ some (last x xs)
  back = (last-Links (next_of s) (prev_of s) x xs x q.ring.links).1

  still_back : (l : ℕ) (p : Option ℕ) → prev_of (set_next s l p) x ≡ prev_of s x
  still_back l p = ground arith

  pub append_order_runs : (p : ℕ) → append_order p lp s ≡ ok (tt, appended s x (last x xs) p)
  unfolding append_order
  append_order_runs p = rw (q.first, deref, back, deref, still_back (last x xs) (some p), back)

  pub append_order-IsQueue :
      (p : ℕ) → has p (x ∷ xs) ≡ false → IsQueue (appended s x (last x xs) p) lp x (xs ++ (p ∷ []))
  append_order-IsQueue p out = record {
    first = q.first;
    ring =
        append-IsRing (next_of s) (prev_of s) (next_of after) (prev_of after) x xs q.ring p out
          (ground (arith, apart)) (ground (arith, apart)) (ground (arith, apart))
          (ground (arith, apart)) (λ z h k. ground arith) (λ z h k. ground arith);
  }
    where
      after : State
      after = appended s x (last x xs) p

      apart : (p ≢ x) × (p ≢ last x xs)
      apart = (λ e. ground arith, last-ne x p xs out)

  pub append_order-SamePayloads : (p : ℕ) → SamePayloads s (appended s x (last x xs) p)
  append_order-SamePayloads p z = ground arith

-- The writes of `removeOrder` to the orders: two close the gap, one clears the order taken out.
abbrev pub cleared : State → ℕ → State
cleared s q = put_order s q (record (order_at s q) { prev_order = none; next_order = none })

abbrev pub unlinked : State → (l a q : ℕ) → State
unlinked s l a q = cleared (set_prev (set_next s l (some a)) a (some l)) q

abbrev pub new_first : State → (lp a : ℕ) → State
new_first s lp a = put_level s lp (record (level_at s lp) { first_me_order = some a })

-- An order behind the first one.
module _ (s : State) (lp x : ℕ) (ls : List ℕ) (q : ℕ) (rs : List ℕ)
    (v : IsQueue s lp x (ls ++ (q ∷ rs))) where
  pub around : (prev_of s q ≡ some (last x ls)) × (next_of s q ≡ some (head_or x rs))
  around =
      let (front, back) = Links-split (next_of s) (prev_of s) x ls q rs x v.ring.links in
      (
        (last-Links (next_of s) (prev_of s) x ls q front).1,
        (head-Links (next_of s) (prev_of s) q rs x back).0,
      )

  pub not_head : (x ≢ q) × (last x ls ≢ q) × (head_or x rs ≢ q)
  not_head =
      let (dl, out, dq, dd, apart) = Distinct-parts (x ∷ ls) q rs v.ring.distinct in
      let xq : x ≢ q = λ e. ground arith in
      (xq, λ e. last-ne x q ls out (sym e), head_ne rs dq.0 xq)
    where
      head_ne : (ys : List ℕ) → has q ys ≡ false → x ≢ q → head_or x ys ≢ q
      head_ne [] h ne = ne
      head_ne (y ∷ ys) h ne = λ e. ground arith

  unfoldable pub after_unlink : State
  after_unlink = unlinked s (last x ls) (head_or x rs) q

  pub unlink_order_runs : unlink_order q (some lp) s ≡ ok (tt, after_unlink)
  unfolding unlink_order after_unlink
  unlink_order_runs = simp (around.0, around.1, v.first, ==-ne x q not_head.0)

  pub after_unlink-IsQueue : IsQueue after_unlink lp x (ls ++ rs)
  unfolding after_unlink
  after_unlink-IsQueue = record {
    first = v.first;
    ring =
        remove-IsRing (next_of s) (prev_of s) (next_of after) (prev_of after) x q ls rs v.ring
          (ground (arith, not_head)) (ground (arith, not_head)) (λ z h k. ground arith)
          (λ z h k. ground arith);
  }
    where
      after : State
      after = unlinked s (last x ls) (head_or x rs) q

  pub after_unlink-SamePayloads : SamePayloads s after_unlink
  unfolding after_unlink
  after_unlink-SamePayloads z = ground arith

-- The first order, with others behind it: the next one becomes the first.
module _ (s : State) (lp x y : ℕ) (ys : List ℕ) (v : IsQueue s lp x (y ∷ ys)) where
  pub around_head : (prev_of s x ≡ some (last y ys)) × (next_of s x ≡ some y)
  around_head = ((last-Links (next_of s) (prev_of s) y ys x v.ring.links.2).1, v.ring.links.0)

  pub not_tail : (y ≢ x) × (last y ys ≢ x)
  not_tail = (λ e. ground (arith, v.ring.distinct), λ e. last-ne y x ys v.ring.distinct.0 (sym e))

  unfoldable pub after_unlink_head : State
  after_unlink_head =
      cleared (new_first (set_prev (set_next s (last y ys) (some y)) y (some (last y ys))) lp y) x

  pub unlink_head_runs : unlink_order x (some lp) s ≡ ok (tt, after_unlink_head)
  unfolding unlink_order after_unlink_head
  unlink_head_runs = simp (around_head.0, around_head.1, v.first, ==-self x)

  pub after_unlink_head-IsQueue : IsQueue after_unlink_head lp y ys
  unfolding after_unlink_head
  after_unlink_head-IsQueue = record {
    first = ground arith;
    ring =
        remove_head-IsRing (next_of s) (prev_of s) (next_of after) (prev_of after) x y ys v.ring
          (ground (arith, not_tail)) (ground (arith, not_tail)) (λ z h k. ground arith)
          (λ z h k. ground arith);
  }
    where
      after : State
      after = cleared (set_prev (set_next s (last y ys) (some y)) y (some (last y ys))) x

  pub after_unlink_head-SamePayloads : SamePayloads s after_unlink_head
  unfolding after_unlink_head
  after_unlink_head-SamePayloads z = ground arith
