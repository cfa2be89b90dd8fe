-- ===== src/Book/Text/Loops.antt =====
-- The two loops of `toString` in exchange/matcher/me_order_book.cpp over the orders of a level.
use low_latency_trading_engi.Base.{
  refl, ℕ, zero, suc, ◌+◌, ◌%◌, ◌^◌, ◌<◌, ◌≡◌, sym, ap, ◌∙◌, Bool, true, false, Option, some, List,
  [], ◌∷◌, ◌++◌, append-nil, Result, ok, bind_result, ◌>>=◌, pure, deref, same_ptr, arith, length,
  ==-self, ==-ne,
}
use low_latency_trading_engi.Types.{Qty}
use low_latency_trading_engi.Ring.{has, Links}
use low_latency_trading_engi.Book.{MeOrder, State, B, order_at}
use low_latency_trading_engi.Book.Queue.{next_of, prev_of}
use low_latency_trading_engi.Book.Text.{Stream, order_id_of, total_loop, details, detail_loop}
use low_latency_trading_engi.Types.Text.{order_id_to_string, qty_to_string}

-- The quantities of some orders, added up.
abbrev pub sum_qty : State → List ℕ → ℕ
sum_qty s [] = 0
sum_qty s (q ∷ qs) = (order_at s q).qty + sum_qty s qs

-- What is to be written of an order.
abbrev pub order_text : State → MeOrder → Stream
order_text s o =
    "[oid:"
    ∷ order_id_to_string o.market_order_id
    ∷ " q:"
    ∷ qty_to_string o.qty
    ∷ " p:"
    ∷ order_id_to_string (order_id_of s o.prev_order)
    ∷ " n:"
    ∷ order_id_to_string (order_id_of s o.next_order)
    ∷ "] "
    ∷ []

-- The details of some orders, one after another, if they are asked for.
abbrev pub details_of : Bool → State → List ℕ → Stream
details_of false s qs = []
details_of true s [] = []
details_of true s (q ∷ qs) = order_text s (order_at s q) ++ details_of true s qs

abbrev raw_details : Bool → State → List ℕ → Stream
raw_details detailed s [] = []
raw_details detailed s (q ∷ qs) = details detailed s (order_at s q) ++ raw_details detailed s qs

details_lem :
    (detailed : Bool) (s : State) (qs : List ℕ)
    → raw_details detailed s qs ≡ details_of detailed s qs
details_lem false s [] = refl
details_lem false s (q ∷ qs) = details_lem false s qs
details_lem true s [] = refl
details_lem true s (q ∷ qs) =
    ap (λ rest. order_text s (order_at s q) ++ rest) (details_lem true s qs)

module _ (s : State) (x : ℕ) where
  abbrev total_at : ℕ → Qty → ℕ → Option ℕ → Bool → Result ((Qty × ℕ) × State)
  total_at fuel qty n o b =
      (elim b as (λ b. B (Qty × ℕ)) [
        | true ↦ pure (qty, n)
        | false ↦ do next ← deref o; total_loop fuel (some x) next qty n
      ])
        s

  pub total_loop_lem :
      (fuel : ℕ) (a : ℕ) (xs : List ℕ) (qty : Qty) (n : ℕ)
      → Links (next_of s) (prev_of s) a xs x
      → has x xs ≡ false
      → length xs < fuel
      → total_loop fuel (some x) a qty n s
        ≡ ok (((qty + sum_qty s (a ∷ xs)) % 2 ^ 32, n + length (a ∷ xs)), s)
  unfolding total_loop
  total_loop_lem zero a xs qty n l out f = absurd (omega (arith, f))
  total_loop_lem (suc fuel) a [] qty n l out f =
      let here = (qty + (order_at s a).qty) % 2 ^ 32 in
      ap (λ o. total_at fuel here (n + 1) o (same_ptr o (some x))) l.0
      ∙ ap (total_at fuel here (n + 1) (some x)) (==-self x)
      ∙ ap (λ k. ok ((k % 2 ^ 32, n + 1), s)) (omega arith)
  total_loop_lem (suc fuel) a (c ∷ cs) qty n l out f =
      let here = (qty + (order_at s a).qty) % 2 ^ 32 in
      ap (λ o. total_at fuel here (n + 1) o (same_ptr o (some x))) l.0
      ∙ ap (total_at fuel here (n + 1) (some c)) (==-ne c x (λ e. ground (arith, e)))
      ∙ total_loop_lem fuel c cs here (n + 1) l.2 (ground (arith, out)) (omega (arith, f))
      ∙ ap (λ k. ok ((k, (n + 1) + length (c ∷ cs)), s)) (omega arith)
      ∙ ap (λ k. ok (((qty + sum_qty s (a ∷ c ∷ cs)) % 2 ^ 32, k), s)) (omega arith)

  abbrev detail_at : ℕ → Bool → Stream → Option ℕ → Bool → Result (Stream × State)
  detail_at fuel detailed here o b =
      (elim b as (λ b. B Stream) [
        | true ↦ pure here
        | false ↦ do
          next ← deref o
          rest ← detail_loop fuel detailed (some x) next
          pure (here ++ rest)
      ])
        s

  raw_loop_lem :
      (fuel : ℕ) (detailed : Bool) (a : ℕ) (xs : List ℕ)
      → Links (next_of s) (prev_of s) a xs x
      → has x xs ≡ false
      → length xs < fuel
      → detail_loop fuel detailed (some x) a s ≡ ok (raw_details detailed s (a ∷ xs), s)
  unfolding detail_loop
  raw_loop_lem zero detailed a xs l out f = absurd (omega (arith, f))
  raw_loop_lem (suc fuel) detailed a [] l out f =
      let here = details detailed s (order_at s a) in
      ap (λ o. detail_at fuel detailed here o (same_ptr o (some x))) l.0
      ∙ ap (detail_at fuel detailed here (some x)) (==-self x)
      ∙ ap (λ k. ok (k, s)) (sym (append-nil here))
  raw_loop_lem (suc fuel) detailed a (c ∷ cs) l out f =
      let here = details detailed s (order_at s a) in
      let add_here : Result (Stream × State) → Result (Stream × State) =
        λ r. bind_result r (λ p. ok (here ++ p.0, p.1)) in
      ap (λ o. detail_at fuel detailed here o (same_ptr o (some x))) l.0
      ∙ ap (detail_at fuel detailed here (some c)) (==-ne c x (λ e. ground (arith, e)))
      ∙ ap add_here (raw_loop_lem fuel detailed c cs l.2 (ground (arith, out)) (omega (arith, f)))

  pub detail_loop_lem :
      (fuel : ℕ) (detailed : Bool) (a : ℕ) (xs : List ℕ)
      → Links (next_of s) (prev_of s) a xs x
      → has x xs ≡ false
      → length xs < fuel
      → detail_loop fuel detailed (some x) a s ≡ ok (details_of detailed s (a ∷ xs), s)
  detail_loop_lem fuel detailed a xs l out f =
      raw_loop_lem fuel detailed a xs l out f
      ∙ ap (λ k. ok (k, s)) (details_lem detailed s (a ∷ xs))
