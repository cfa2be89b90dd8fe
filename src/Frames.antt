-- ===== src/Frames.antt =====
-- A loop over the bytes that a socket has delivered, which takes a message of a fixed number of bytes in
-- each round and leaves what is less than one: `recvCallback` of exchange/order_server/order_server.h
-- and of trading/market_data/market_data_consumer.cpp.
use low_latency_trading_engi.Base.{
  ℕ, zero, suc, ◌+◌, ◌≤◌, ◌<◌, ◌≡◌, refl, sym, ap, ◌∙◌, inl, inr, true, false, List, [], ◌∷◌, Fault,
  ◌++◌, append_assoc, Result, ok, err, bind_result, Result-cases, ok-injective, subst, M, leb,
  leb→le, Bool-cases, length, length-append, take, drop, All, take-append, drop-append, length-drop,
  take-length_append, drop-length_append, arith,
}

pub bind_assoc :
    {A B C : Type 0} (r : Result A) (f : A → Result B) (g : B → Result C)
    → bind_result (bind_result r f) g ≡ bind_result r (λ a. bind_result (f a) g)
bind_assoc (ok a) f g = refl
bind_assoc (err e) f g = refl

pub bind-ext :
    {A B : Type 0} (r : Result A) (f g : A → Result B)
    → ((a : A) → f a ≡ g a)
    → bind_result r f ≡ bind_result r g
bind-ext (ok a) f g h = h a
bind-ext (err e) f g h = refl

bind-ext_ok :
    {A B : Type 0} (r : Result A) (f g : A → Result B)
    → ((a : A) → r ≡ ok a → f a ≡ g a)
    → bind_result r f ≡ bind_result r g
bind-ext_ok (ok a) f g h = h a refl
bind-ext_ok (err e) f g h = refl

short→leb : (n m : ℕ) → m < n → leb n m ≡ false
short→leb n m h = ground arith

leb-false : (n m : ℕ) → leb n m ≡ false → m < n
leb-false n m h = ground arith

le→leb : (n m : ℕ) → n ≤ m → leb n m ≡ true
le→leb n m h = ground arith

-- What such a loop does in a round, for messages of `n` bytes; the first argument of `loop` is how many
-- rounds it may take.
pub record IsFraming {S : Type 0} (n : ℕ) (handle : List ℕ → M S (Unit {0}))
    (loop : ℕ → List ℕ → M S (List ℕ)) : Type 0 where
  pub some_bytes : 0 < n
  pub stuck : (bytes : List ℕ) (s : S) → loop zero bytes s ≡ err Fault.no_fuel
  pub whole :
      (fuel : ℕ) (bytes : List ℕ) (s : S)
      → leb n (length bytes) ≡ true
      → loop (suc fuel) bytes s
        ≡ bind_result (handle (take n bytes) s) (λ r. loop fuel (drop n bytes) r.1)
  pub short :
      (fuel : ℕ) (bytes : List ℕ) (s : S)
      → leb n (length bytes) ≡ false
      → loop (suc fuel) bytes s ≡ ok (bytes, s)

abbrev pub joined : List (List ℕ) → List ℕ
joined [] = []
joined (p ∷ ps) = p ++ joined ps

module _ {S : Type 0} (n : ℕ) (handle : List ℕ → M S (Unit {0})) (loop : ℕ → List ℕ → M S (List ℕ))
    (w : IsFraming n handle loop) where
  -- More rounds than bytes make no difference.
  loop-fuel :
      (f g : ℕ) (bytes : List ℕ) (s : S)
      → length bytes < f
      → length bytes < g
      → loop f bytes s ≡ loop g bytes s
  loop-fuel zero g bytes s h k = absurd (omega arith)
  loop-fuel (suc f) zero bytes s h k = absurd (omega arith)
  loop-fuel (suc f) (suc g) bytes s h k = elim (Bool-cases (leb n (length bytes))) [
    | inl whole ↦
        let le = leb→le n (length bytes) whole in
        let len = length-drop n bytes le in
        let some = w.some_bytes in
        w.whole f bytes s whole
        ∙ bind-ext (handle (take n bytes) s) _ _
            (λ r. loop-fuel f g (drop n bytes) r.1 (omega arith) (omega arith))
        ∙ sym (w.whole g bytes s whole)
    | inr short ↦ w.short f bytes s short ∙ sym (w.short g bytes s short)
  ]

  loop-append :
      (f g k : ℕ) (before after : List ℕ) (s : S)
      → length before < f
      → length before + length after < g
      → length before + length after < k
      → loop g (before ++ after) s ≡ bind_result (loop f before s) (λ r. loop k (r.0 ++ after) r.1)
  loop-append zero g k before after s hf hg hk = absurd (omega arith)
  loop-append (suc f) zero k before after s hf hg hk = absurd (omega arith)
  loop-append (suc f) (suc g) k before after s hf hg hk =
      let both = length-append before after in
      let last = λ (r : List ℕ × S). loop k (r.0 ++ after) r.1 in
      elim (Bool-cases (leb n (length before))) [
        | inl whole ↦
            let le = leb→le n (length before) whole in
            let len = length-drop n before le in
            let some = w.some_bytes in
            let first = handle (take n before) s in
            w.whole g (before ++ after) s (le→leb _ _ (omega (arith, both, le)))
            ∙ ap (λ xs. bind_result (handle xs s) (λ r. loop g (drop n (before ++ after)) r.1))
                (take-append n before after le)
            ∙ ap (λ xs. bind_result first (λ r. loop g xs r.1)) (drop-append n before after le)
            ∙ bind-ext first _ _ (λ r.
              loop-append f g k (drop n before) after r.1 (omega arith) (omega arith) (omega arith))
            ∙ sym (bind_assoc first (λ r. loop f (drop n before) r.1) last)
            ∙ ap (λ r. bind_result r last) (sym (w.whole f before s whole))
        | inr short ↦
            loop-fuel (suc g) k (before ++ after) s (omega (arith, both)) (omega (arith, both))
            ∙ ap (λ r. bind_result r last) (sym (w.short f before s short))
      ]

  -- A call leaves less than a request, and no more than it was given.
  pub loop-left :
      (fuel : ℕ) (bytes left : List ℕ) (s s' : S)
      → loop fuel bytes s ≡ ok (left, s')
      → (length left < n) × (length left ≤ length bytes)
  loop-left zero bytes left s s' e = let stuck = w.stuck bytes s in absurd (cc)
  loop-left (suc fuel) bytes left s s' e = elim (Bool-cases (leb n (length bytes))) [
    | inl whole ↦
        let run = sym (w.whole fuel bytes s whole) ∙ e in
        let le = leb→le n (length bytes) whole in
        let len = length-drop n bytes le in
        elim (Result-cases (handle (take n bytes) s)) [
          | inl (r, first) ↦
              let (short, fewer) =
                loop-left fuel (drop n bytes) left r.1 s'
                  (ap (λ x. bind_result x (λ r. loop fuel (drop n bytes) r.1)) (sym first) ∙ run) in
              (short, omega (arith, len, fewer))
          | inr (fault, first) ↦
              absurd
                (cc (ap (λ x. bind_result x (λ r. loop fuel (drop n bytes) r.1)) (sym first) ∙ run))
        ]
    | inr short ↦
        let same = sym (w.short fuel bytes s short) ∙ e in
        let kept : bytes ≡ left = ap (λ r. r.0) (ok-injective same) in
        subst (λ xs. (length xs < n) × (length xs ≤ length bytes)) kept
          (leb-false n (length bytes) short, omega arith)
  ]

  -- What no message changes, a call does not change.
  pub loop-keeps :
      {X : Type 0} (f : S → X)
      → ((p : List ℕ) (s s' : S) → handle p s ≡ ok (tt, s') → f s' ≡ f s)
      → (fuel : ℕ) (bytes left : List ℕ) (s s' : S) → loop fuel bytes s ≡ ok (left, s')
      → f s' ≡ f s
  loop-keeps f h zero bytes left s s' e = let stuck = w.stuck bytes s in absurd (cc)
  loop-keeps f h (suc fuel) bytes left s s' e = elim (Bool-cases (leb n (length bytes))) [
    | inl whole ↦
        let run = sym (w.whole fuel bytes s whole) ∙ e in
        elim (Result-cases (handle (take n bytes) s)) [
          | inl (r, first) ↦
              loop-keeps f h fuel (drop n bytes) left r.1 s'
                (ap (λ x. bind_result x (λ r. loop fuel (drop n bytes) r.1)) (sym first) ∙ run)
              ∙ h (take n bytes) s r.1 first
          | inr (fault, first) ↦
              absurd
                (cc (ap (λ x. bind_result x (λ r. loop fuel (drop n bytes) r.1)) (sym first) ∙ run))
        ]
    | inr short ↦
        let same = sym (w.short fuel bytes s short) ∙ e in
        ap (λ (r : List ℕ × S). f r.1) (sym (ok-injective same))
  ]

  -- The loop of one call over all the bytes, against a call for each of two pieces.
  pub loop-cut :
      (before after : List ℕ) (s : S)
      → loop (length (before ++ after) + 1) (before ++ after) s
        ≡ bind_result
            (loop (length before + 1) before s)
            (λ r. loop (length (r.0 ++ after) + 1) (r.0 ++ after) r.1)
  loop-cut before after s =
      let both = length-append before after in
      let m = length before + length after + 1 in
      loop-append (length before + 1) (length (before ++ after) + 1) m before after s (omega arith)
        (omega (arith, both)) (omega arith)
      ∙ bind-ext_ok (loop (length before + 1) before s) _ _ (λ r run.
        let (short, fewer) = loop-left (length before + 1) before r.0 s r.1 run in
        let now = length-append r.0 after in
        loop-fuel m (length (r.0 ++ after) + 1) (r.0 ++ after) r.1 (omega (arith, now, fewer))
          (omega arith))

  -- Messages handled one after another.
  abbrev pub handle_frames : List (List ℕ) → M S (Unit {0})
  handle_frames [] s = ok (tt, s)
  handle_frames (p ∷ ps) s = bind_result (handle p s) (λ x. handle_frames ps x.1)

  abbrev pub IsFrame : List ℕ → Type 0
  IsFrame p = length p ≡ n

  pub loop-frames :
      (fuel : ℕ) (ps : List (List ℕ)) (tail : List ℕ) (s : S)
      → All IsFrame ps
      → length tail < n
      → length (joined ps ++ tail) < fuel
      → loop fuel (joined ps ++ tail) s ≡ bind_result (handle_frames ps s) (λ r. ok (tail, r.1))
  loop-frames zero ps tail s whole short f = absurd (omega arith)
  loop-frames (suc fuel) [] tail s whole short f =
      w.short fuel tail s (short→leb n (length tail) short)
  loop-frames (suc fuel) (p ∷ ps) tail s (one, whole) short f =
      let rest = joined ps ++ tail in
      let cut = append_assoc p (joined ps) tail in
      let len = length-append p rest in
      let big = ap length cut in
      let some = w.some_bytes in
      let first : take n (p ++ rest) ≡ p =
        ap (λ n. take n (p ++ rest)) (sym one) ∙ take-length_append p rest in
      let after : drop n (p ++ rest) ≡ rest =
        ap (λ n. drop n (p ++ rest)) (sym one) ∙ drop-length_append p rest in
      ap (λ xs. loop (suc fuel) xs s) cut
      ∙ w.whole fuel (p ++ rest) s (le→leb _ _ (omega (arith, len, one)))
      ∙ ap (λ xs. bind_result (handle xs s) (λ r. loop fuel (drop n (p ++ rest)) r.1)) first
      ∙ ap (λ xs. bind_result (handle p s) (λ r. loop fuel xs r.1)) after
      ∙ bind-ext (handle p s) _ _
          (λ r. loop-frames fuel ps tail r.1 whole short (omega (arith, f, big, len, one)))
      ∙ sym (bind_assoc (handle p s) _ _)
