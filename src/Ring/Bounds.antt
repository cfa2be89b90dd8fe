-- ===== src/Ring/Bounds.antt =====
-- How long a list of different nodes can be: the pools hold so many blocks.
use low_latency_trading_engi.Base.{
  ℕ, zero, suc, ◌+◌, ◌<◌, ◌≤◌, ◌≡◌, ◌≢◌, refl, sym, ap, ◌∙◌, subst, inl, inr, true, false, List, [],
  ◌∷◌, arith, ◌==◌, ==_iff, Bool-cases, length, if◌then◌else◌,
}
use low_latency_trading_engi.Ring.{has, Distinct}

-- The list without the node `k`.
abbrev without : ℕ → List ℕ → List ℕ
without k [] = []
without k (x ∷ xs) = let rest = without k xs in if k == x then rest else x ∷ rest

abbrev pub Below : ℕ → List ℕ → Type 0
Below k xs = (z : ℕ) → has z xs ≡ true → z < k

has-without : (z k : ℕ) (xs : List ℕ) → has z (without k xs) ≡ true → (has z xs ≡ true) × (z ≢ k)
has-without z k [] h = absurd (cc)
has-without z k (x ∷ xs) h = ground (arith, has-without z k xs)

without-has_self : (z k : ℕ) (xs : List ℕ) → has z xs ≡ false → has z (without k xs) ≡ false
without-has_self z k [] h = refl
without-has_self z k (x ∷ xs) h = ground (arith, without-has_self z k xs)

without-Distinct : (k : ℕ) (xs : List ℕ) → Distinct xs → Distinct (without k xs)
without-Distinct k [] d = tt
without-Distinct k (x ∷ xs) d = elim (Bool-cases (k == x)) [
  | inl same ↦
      subst Distinct (sym (ap (λ b. if b then without k xs else x ∷ without k xs) same))
        (without-Distinct k xs d.1)
  | inr other ↦
      subst Distinct (sym (ap (λ b. if b then without k xs else x ∷ without k xs) other))
        (without-has_self x k xs d.0, without-Distinct k xs d.1)
]

without-absent : (k : ℕ) (xs : List ℕ) → has k xs ≡ false → without k xs ≡ xs
without-absent k [] h = refl
without-absent k (x ∷ xs) h =
    let other : (k == x) ≡ false = ground (arith, h) in
    ap (λ b. if b then without k xs else x ∷ without k xs) other
    ∙ ap (λ r. x ∷ r) (without-absent k xs (ground (arith, h)))

length-without : (k : ℕ) (xs : List ℕ) → Distinct xs → length xs ≤ length (without k xs) + 1
length-without k [] d = omega arith
length-without k (x ∷ xs) d = elim (Bool-cases (k == x)) [
  | inl same ↦
      let e : k ≡ x = (==_iff k x).0 same in
      let absent : has k xs ≡ false = ground (arith, e, d.0) in
      let kept = without-absent k xs absent in
      subst (λ r. length (x ∷ xs) ≤ length r + 1)
        (sym (ap (λ b. if b then without k xs else x ∷ without k xs) same ∙ kept)) (omega arith)
  | inr other ↦
      let rec = length-without k xs d.1 in
      subst (λ r. length (x ∷ xs) ≤ length r + 1)
        (sym (ap (λ b. if b then without k xs else x ∷ without k xs) other)) (omega (arith, rec))
]

-- Different numbers below `k` are at most `k` many.
pub length-Distinct : (k : ℕ) (xs : List ℕ) → Distinct xs → Below k xs → length xs ≤ k
length-Distinct zero [] d h = omega arith
length-Distinct zero (x ∷ xs) d h = absurd (ground (arith, h x))
length-Distinct (suc k) xs d h =
    let rec : length (without k xs) ≤ k =
      length-Distinct k (without k xs) (without-Distinct k xs d)
        (λ z e. let (i, ne) = has-without z k xs e in ground (arith, ne, h z)) in
    ground (arith, length-without k xs)
