-- ===== src/Base/Monad.antt =====
-- What a C++ member function does: it returns with a new state, or it ends the process.
use mathlib.Core.Path.{◌≡◌, refl}
use mathlib.Core.Bool.{Bool, true, false}
use mathlib.Core.Option.{Option, none, some}
use mathlib.Core.Logic.{◌⊎◌, inl, inr}

-- ASSERT and FATAL of macros.h call `exit`; `at` out of range throws inside a noexcept function;
-- a null or foreign pointer and an unchecked index are undefined behaviour; `no_fuel` marks a loop
-- that was not given enough rounds.
pub data Fault : Type 0 where
  assert_failed fatal out_of_range null_pointer bad_index no_fuel : Fault

pub data Result {ℓ} (A : Type ℓ) : Type ℓ where
  ok : A → Result A
  err : Fault → Result A

-- A run from a state of type `S`.
abbrev pub M : Type 0 → Type 0 → Type 0
M S A = S → Result (A × S)

abbrev pub bind_result {ℓ κ} : {A : Type ℓ} {B : Type κ} → Result A → (A → Result B) → Result B
bind_result (ok a) f = f a
bind_result (err e) f = err e

abbrev pub pure : {S A : Type 0} → A → M S A
pure a s = ok (a, s)

abbrev pub fail : {S A : Type 0} → Fault → M S A
fail e s = err e

infixl 5 ◌>>=◌ ◌>>◌
abbrev pub ◌>>=◌ : {S A B : Type 0} → M S A → (A → M S B) → M S B
◌>>=◌ m f s = bind_result (m s) (λ r. f r.0 r.1)

abbrev pub ◌>>◌ : {S B : Type 0} → M S (Unit {0}) → M S B → M S B
m >> k = m >>= λ _. k

-- ASSERT of macros.h.
abbrev pub assert : {S : Type 0} → Bool → M S (Unit {0})
assert true s = ok (tt, s)
assert false s = err Fault.assert_failed

abbrev pub modify : {S : Type 0} → (S → S) → M S (Unit {0})
modify f s = ok (tt, f s)

abbrev pub gets : {S A : Type 0} → (S → A) → M S A
gets f s = ok (f s, s)

-- The target of a pointer that must not be null.
abbrev pub deref : {S A : Type 0} → Option A → M S A
deref none s = err Fault.null_pointer
deref (some a) s = ok (a, s)

pub Result-cases {ℓ} :
    {A : Type ℓ} (r : Result A) → ((a : A) × (r ≡ ok a)) ⊎ ((e : Fault) × (r ≡ err e))
Result-cases (ok a) = inl (a, refl)
Result-cases (err e) = inr (e, refl)

pub ok-injective {ℓ} : {A : Type ℓ} {a b : A} → ok a ≡ ok b → a ≡ b
ok-injective e = cc

-- Inversion of a run whose first step succeeds.
pub >>=-eq-ok :
    {S A B : Type 0} (m : M S A) (f : A → M S B) (s : S) {r : B × S}
    → (m >>= f) s ≡ ok r
    → (a : A) × (s' : S) × (m s ≡ ok (a, s')) × (f a s' ≡ ok r)
>>=-eq-ok {S} {A} {B} m f s {r} h = go (m s) refl h
  where
    go :
        (x : Result (A × S))
        → m s ≡ x
        → bind_result x (λ p. f p.0 p.1) ≡ ok r
        → (a : A) × (s' : S) × (m s ≡ ok (a, s')) × (f a s' ≡ ok r)
    go (ok (a, s')) e q = (a, s', e, q)
    go (err x) e q = cc
