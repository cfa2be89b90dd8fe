-- ===== src/Ring.antt =====
-- Circular doubly linked lists, over the two functions that read a node's pointers: the shape of the
-- orders at one price and of the price levels of one side in exchange/matcher/me_order_book.h.
pub mod Edit
pub mod Bounds
use low_latency_trading_engi.Base.{
  ℕ, suc, ◌+◌, ◌≡◌, refl, ap, ◌≢◌, ◌⊎◌, inl, inr, Bool, true, false, ◌||◌, Option, none, some, List,
  [], ◌∷◌, ◌++◌, arith, ◌==◌, Bool-cases, length,
}

abbrev pub has : ℕ → List ℕ → Bool
has a [] = false
has a (x ∷ xs) = (a == x) || has a xs

abbrev pub Distinct : List ℕ → Type 0
Distinct [] = Unit {0}
Distinct (x ∷ xs) = (has x xs ≡ false) × Distinct xs

-- The last node of a list that begins with `a`.
abbrev pub last : ℕ → List ℕ → ℕ
last a [] = a
last a (x ∷ xs) = last x xs

pub has-append :
    (z : ℕ) (xs ys : List ℕ) → has z xs ≡ false → has z ys ≡ false → has z (xs ++ ys) ≡ false
has-append z [] ys h k = k
has-append z (x ∷ xs) ys h k = ground (arith, has-append z xs ys)

pub has-append_inv :
    (z : ℕ) (xs ys : List ℕ) → has z (xs ++ ys) ≡ false → (has z xs ≡ false) × (has z ys ≡ false)
has-append_inv z [] ys h = (refl, h)
has-append_inv z (x ∷ xs) ys h = ground (arith, has-append_inv z xs ys)

pub has-last : (a : ℕ) (xs : List ℕ) → has (last a xs) (a ∷ xs) ≡ true
has-last a [] = ground arith
has-last a (x ∷ xs) = ground (arith, has-last x xs)

pub last-ne : (a b : ℕ) (xs : List ℕ) → has b (a ∷ xs) ≡ false → b ≢ last a xs
last-ne a b xs h e = ground (arith, has-last a xs)

-- From `a` through `xs` to `b`, each node points to the next one and is pointed back at.
abbrev pub Links : (ℕ → Option ℕ) → (ℕ → Option ℕ) → ℕ → List ℕ → ℕ → Type 0
Links n p a [] b = (n a ≡ some b) × (p b ≡ some a)
Links n p a (x ∷ xs) b = (n a ≡ some x) × (p x ≡ some a) × Links n p x xs b

-- The nodes `x ∷ xs` in a circle, each once.
pub record IsRing (n p : ℕ → Option ℕ) (x : ℕ) (xs : List ℕ) : Type 0 where
  pub links : Links n p x xs x
  pub distinct : Distinct (x ∷ xs)

module _ (n p : ℕ → Option ℕ) where
  pub last-Links :
      (a : ℕ) (xs : List ℕ) (b : ℕ)
      → Links n p a xs b
      → (n (last a xs) ≡ some b) × (p b ≡ some (last a xs))
  last-Links a [] b l = l
  last-Links a (x ∷ xs) b l = last-Links x xs b l.2

  pub Links-append :
      (a : ℕ) (xs : List ℕ) (c : ℕ) (ys : List ℕ) (b : ℕ)
      → Links n p a xs c
      → Links n p c ys b
      → Links n p a (xs ++ (c ∷ ys)) b
  Links-append a [] c ys b l m = (l.0, l.1, m)
  Links-append a (x ∷ xs) c ys b l m = (l.0, l.1, Links-append x xs c ys b l.2 m)

  pub Links-split :
      (a : ℕ) (xs : List ℕ) (c : ℕ) (ys : List ℕ) (b : ℕ)
      → Links n p a (xs ++ (c ∷ ys)) b
      → Links n p a xs c × Links n p c ys b
  Links-split a [] c ys b l = ((l.0, l.1), l.2)
  Links-split a (x ∷ xs) c ys b l = let (m, r) = Links-split x xs c ys b l.2 in ((l.0, l.1, m), r)

-- Other pointer functions, that agree where it matters.
module _ (n p n' p' : ℕ → Option ℕ) where
  pub Links-frame :
      (a : ℕ) (xs : List ℕ) (b : ℕ)
      → Links n p a xs b
      → ((z : ℕ) → has z (a ∷ xs) ≡ true → n' z ≡ n z)
      → ((z : ℕ) → has z xs ≡ true → p' z ≡ p z)
      → p' b ≡ p b
      → Links n' p' a xs b
  Links-frame a [] b l hn hp hb = (ground (arith, hn a), ground arith)
  Links-frame a (x ∷ xs) b l hn hp hb = (
    ground (arith, hn a),
    ground (arith, hp x),
    Links-frame x xs b l.2 (λ z h. hn z (ground arith)) (λ z h. hp z (ground arith)) hb,
  )

  -- The last node of a chain is made to point somewhere else.
  pub Links-retarget :
      (a : ℕ) (xs : List ℕ) (b c : ℕ)
      → Links n p a xs b
      → Distinct (a ∷ xs)
      → ((z : ℕ) → has z (a ∷ xs) ≡ true → z ≢ last a xs → n' z ≡ n z)
      → ((z : ℕ) → has z xs ≡ true → p' z ≡ p z)
      → n' (last a xs) ≡ some c
      → p' c ≡ some (last a xs)
      → Links n' p' a xs c
  Links-retarget a [] b c l d hn hp hl hc = (hl, hc)
  Links-retarget a (x ∷ xs) b c l d hn hp hl hc = (
    ground (arith, hn a, last-ne x a xs),
    ground (arith, hp x),
    Links-retarget x xs b c l.2 d.1 (λ z h. hn z (ground arith)) (λ z h. hp z (ground arith)) hl hc,
  )

-- The node behind `b`'s circle entry `a`: the first of the rest, or round to `b`.
abbrev pub head_or : ℕ → List ℕ → ℕ
head_or b [] = b
head_or b (y ∷ ys) = y

pub head-Links :
    (n p : ℕ → Option ℕ) (a : ℕ) (xs : List ℕ) (b : ℕ)
    → Links n p a xs b
    → (n a ≡ some (head_or b xs)) × (p (head_or b xs) ≡ some a)
head-Links n p a [] b l = l
head-Links n p a (x ∷ xs) b l = (l.0, l.1)
