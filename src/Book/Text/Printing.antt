-- ===== src/Book/Text/Printing.antt =====
-- What `toString` of exchange/matcher/me_order_book.cpp prints of a side in order.
use low_latency_trading_engi.Base.{
  not, ◌&&◌, ◌||◌, ltb_ℤ, err, inl, inr, Bool-cases, ℕ, zero, suc, ◌+◌, ◌%◌, ◌^◌, ◌<◌, ◌≡◌, refl,
  sym, ap, ◌∙◌, Bool, true, false, Option, some, List, [], ◌∷◌, ◌++◌, All, Fault, Result, ok,
  bind_result, ◌>>=◌, ◌>>◌, pure, fail, deref, if◌then◌else◌, same_ptr, arith, length, ==-self,
  ==-ne,
}
use low_latency_trading_engi.Types.{Price, Qty, Side, is_buy}
use low_latency_trading_engi.Types.Text.{to_string, price_to_string, qty_to_string}
use Prim.Native.String.{String}
use low_latency_trading_engi.Ring
use low_latency_trading_engi.Ring.{has, Links, last-Links}
use low_latency_trading_engi.Ring.Bounds.{Below, length-Distinct}
use low_latency_trading_engi.Book.{State, B, level, level_at, best_of}
use low_latency_trading_engi.Book.Text.{
  Stream, pad_left, pad_right, price_of, total_loop, detail_loop, out_of_order, print_level,
  side_loop, side_to_text,
}
use low_latency_trading_engi.Book.Ladder.Splice.{places-Below}
use low_latency_trading_engi.Book.Ladder.{
  Level, IsLevel, IsOrderOf, IsBookSide, places, next_level, prev_level,
}
use low_latency_trading_engi.Book.Text.Loops.{sum_qty, details_of, total_loop_lem, detail_loop_lem}

-- What is to be written at the head of a level, in fields of at least the given widths, and before a
-- level of a side.
abbrev pub level_text : (price before after : Price) → Qty → ℕ → Stream
level_text price before after qty num_orders =
    " <px:"
    ∷ pad_left 3 (price_to_string price)
    ∷ " p:"
    ∷ pad_left 3 (price_to_string before)
    ∷ " n:"
    ∷ pad_left 3 (price_to_string after)
    ∷ "> "
    ∷ pad_right 3 (price_to_string price)
    ∷ " @ "
    ∷ pad_right 5 (qty_to_string qty)
    ∷ "("
    ∷ pad_right 4 (to_string num_orders)
    ∷ ")"
    ∷ []

abbrev pub side_title : Side → String
side_title side = if is_buy side then "BIDS L:" else "ASKS L:"

-- The lines of a level: its price with those of its neighbours, the number and the quantity of its
-- orders, and the orders if details are asked for.
abbrev pub level_lines : Bool → State → Level → Stream
level_lines detailed s l =
    level_text (level_at s l.at).price (price_of s (prev_level s l.at))
      (price_of s (next_level s l.at)) (sum_qty s (l.head ∷ l.behind) % 2 ^ 32)
      (length (l.head ∷ l.behind))
    ++ details_of detailed s (l.head ∷ l.behind)
    ++ ("\n" ∷ [])

-- A price comes after another one on a side: above it on that of the asks, below it on that of the
-- bids.
abbrev pub is_after : Side → (last price : Price) → Bool
is_after Side.buy last price = ltb_ℤ price last
is_after Side.sell last price = ltb_ℤ last price
is_after Side.invalid last price = true

or_false : (b : Bool) → (b || false) ≡ b
or_false true = refl
or_false false = refl

not_after :
    (sd : Side) (last price : Price) → out_of_order sd last price ≡ not (is_after sd last price)
not_after Side.buy last price = refl
not_after Side.sell last price = or_false (not (ltb_ℤ last price))
not_after Side.invalid last price = refl

-- The prices of the levels go up on the side of the asks, and down on that of the bids.
abbrev pub is_sorted : State → Side → Price → List Level → Bool
is_sorted s side last [] = true
is_sorted s side last (l ∷ ls) =
    is_after side last (level_at s l.at).price && is_sorted s side (level_at s l.at).price ls

abbrev pub IsSorted : State → Side → Price → List Level → Type 0
IsSorted s side last ls = is_sorted s side last ls ≡ true

abbrev pub side_lines : Bool → State → Side → ℕ → List Level → Stream
side_lines detailed s side count [] = []
side_lines detailed s side count (l ∷ ls) =
    (side_title side ∷ to_string count ∷ " => " ∷ [])
    ++ level_lines detailed s l
    ++ side_lines detailed s side (count + 1) ls

orders-Below :
    (s : State) (sd : Side) (l : ℕ) (xs : List ℕ)
    → All (IsOrderOf s sd l) xs
    → Below s.order_pool.store_size xs
orders-Below s sd l [] v z h = absurd (cc)
orders-Below s sd l (x ∷ xs) v z h = ground (arith, v.0.0.inside, orders-Below s sd l xs v.1 z)

module _ (detailed : Bool) (s : State) (sd : Side) (last : Price) (l : Level)
    (v : IsLevel s sd l) where
  abbrev fuel : ℕ
  fuel = s.order_pool.store_size + 1

  abbrev price : Price
  price = (level_at s l.at).price

  few : length l.behind < fuel
  few =
      let most =
        length-Distinct s.order_pool.store_size (l.head ∷ l.behind) v.queue.ring.distinct
          (orders-Below s sd l.at (l.head ∷ l.behind) v.orders) in
      omega (arith, most)

  abbrev from_lines : Price → Price → Qty → ℕ → Stream → B (Stream × Price)
  from_lines before after qty num_orders lines = do
    (if out_of_order sd last price then fail Fault.fatal else pure tt)
    pure (level_text price before after qty num_orders ++ lines ++ ("\n" ∷ []), price)

  abbrev from_totals : Option ℕ → ℕ → Option ℕ → Option ℕ → Qty → ℕ → B (Stream × Price)
  from_totals o first p n qty num_orders = do
    prev ← deref p
    before ← level prev
    next ← deref n
    after ← level next
    lines ← detail_loop fuel detailed o first
    from_lines before.price after.price qty num_orders lines

  abbrev from_first : Option ℕ → Option ℕ → Option ℕ → B (Stream × Price)
  from_first o p n = do
    first ← deref o
    (qty, num_orders) ← total_loop fuel o first 0 0
    from_totals o first p n qty num_orders

  abbrev total : Qty
  total = sum_qty s (l.head ∷ l.behind) % 2 ^ 32

  abbrev number : ℕ
  number = length (l.head ∷ l.behind)

  abbrev then_totals : Result ((Qty × ℕ) × State) → Result ((Stream × Price) × State)
  then_totals r = bind_result r (λ x.
      from_totals (some l.head) l.head (prev_level s l.at) (next_level s l.at) x.0.0 x.0.1 x.1)

  abbrev then_lines : Price → Price → Result (Stream × State) → Result ((Stream × Price) × State)
  then_lines before after r = bind_result r (λ y. from_lines before after total number y.0 y.1)

  abbrev printed : Price → Price → Stream
  printed before after =
      level_text price before after total number
      ++ details_of detailed s (l.head ∷ l.behind)
      ++ ("\n" ∷ [])

  abbrev checked : Price → Price → Bool → Result ((Stream × Price) × State)
  checked before after out =
      ((if out then fail Fault.fatal else pure tt) >> pure (printed before after, price)) s

  print_level_up_to_check :
      (p n : ℕ)
      → prev_level s l.at ≡ some p
      → next_level s l.at ≡ some n
      → print_level detailed true sd last l.at s
        ≡ checked (level_at s p).price (level_at s n).price (not (is_after sd last price))
  unfolding print_level
  print_level_up_to_check p n before after =
      ap (λ o. from_first o (prev_level s l.at) (next_level s l.at) s) v.queue.first
      ∙ ap then_totals (
          total_loop_lem s l.head fuel l.head l.behind 0 0 v.queue.ring.links
            v.queue.ring.distinct.0 few)
      ∙ ap
          (λ k.
            from_totals (some l.head) l.head (prev_level s l.at) (next_level s l.at) (k % 2 ^ 32)
              (0 + length (l.head ∷ l.behind)) s)
          (omega arith)
      ∙ ap (λ k. from_totals (some l.head) l.head (prev_level s l.at) (next_level s l.at) total k s)
          (omega arith)
      ∙ ap (λ o. from_totals (some l.head) l.head o (next_level s l.at) total number s) before
      ∙ ap (λ o. from_totals (some l.head) l.head (some p) o total number s) after
      ∙ ap (then_lines (level_at s p).price (level_at s n).price) (
          detail_loop_lem s l.head fuel detailed l.head l.behind v.queue.ring.links
            v.queue.ring.distinct.0 few)
      ∙ ap (checked (level_at s p).price (level_at s n).price) (not_after sd last price)

  print_level_lem :
      (p n : ℕ)
      → prev_level s l.at ≡ some p
      → next_level s l.at ≡ some n
      → is_after sd last price ≡ true
      → print_level detailed true sd last l.at s ≡ ok ((level_lines detailed s l, price), s)
  print_level_lem p n before after sorted =
      print_level_up_to_check p n before after
      ∙ ap (λ b. checked (level_at s p).price (level_at s n).price (not b)) sorted
      ∙ ap (λ o. ok ((printed (price_of s o) (level_at s n).price, price), s)) (sym before)
      ∙ ap (λ o. ok ((printed (price_of s (prev_level s l.at)) (price_of s o), price), s))
          (sym after)

  print_level_fatal :
      (p n : ℕ)
      → prev_level s l.at ≡ some p
      → next_level s l.at ≡ some n
      → is_after sd last price ≡ false
      → print_level detailed true sd last l.at s ≡ err Fault.fatal
  print_level_fatal p n before after unsorted =
      print_level_up_to_check p n before after
      ∙ ap (λ b. checked (level_at s p).price (level_at s n).price (not b)) unsorted

module _ (detailed : Bool) (s : State) (sd : Side) (b : ℕ) where
  abbrev choose : ℕ → ℕ → Option ℕ → Stream → Price → Bool → Result (Stream × State)
  choose fuel count o lines last e =
      (do
        rest ← elim e as (λ e. B Stream) [
          | true ↦ pure []
          | false ↦ do
            next ← deref o
            side_loop fuel detailed true sd (some b) next (count + 1) last
        ]
        pure ((side_title sd ∷ to_string count ∷ " => " ∷ []) ++ lines ++ rest))
        s

  abbrev rest_of : ℕ → ℕ → Option ℕ → Stream → Price → Result (Stream × State)
  rest_of fuel count o lines last = choose fuel count o lines last (same_ptr o (some b))

  abbrev in_front : ℕ → Stream → Result (Stream × State) → Result (Stream × State)
  in_front count lines r =
      bind_result r (λ x. ok ((side_title sd ∷ to_string count ∷ " => " ∷ []) ++ lines ++ x.0, x.1))

  abbrev then_rest : ℕ → ℕ → ℕ → Stream → Price → State → Result (Stream × State)
  then_rest fuel a count lines last t =
      (do
        rest ← elim (same_ptr (next_level s a) (some b)) as (λ e. B Stream) [
          | true ↦ pure []
          | false ↦ do
            next ← deref (next_level s a)
            side_loop fuel detailed true sd (some b) next (count + 1) last
        ]
        pure ((side_title sd ∷ to_string count ∷ " => " ∷ []) ++ lines ++ rest))
        t

  abbrev then_side : ℕ → ℕ → ℕ → Result ((Stream × Price) × State) → Result (Stream × State)
  then_side fuel a count r = bind_result r (λ x. then_rest fuel a count x.0.0 x.0.1 x.1)

  abbrev verdict : Bool → Stream → Result (Stream × State)
  verdict sorted lines = if sorted then ok (lines, s) else err Fault.fatal

  in_front-verdict :
      (count : ℕ) (lines rest : Stream) (sorted : Bool)
      → in_front count lines (verdict sorted rest)
        ≡ verdict sorted ((side_title sd ∷ to_string count ∷ " => " ∷ []) ++ lines ++ rest)
  in_front-verdict count lines rest true = refl
  in_front-verdict count lines rest false = refl

  -- A level that is next to the one before it decides nothing; another one ends the run.
  side_loop_lem :
      (fuel : ℕ) (l : Level) (ls : List Level) (count : ℕ) (last : Price) (p : ℕ)
      → prev_level s l.at ≡ some p
      → Links (next_level s) (prev_level s) l.at (places ls) b
      → has b (places ls) ≡ false
      → length ls < fuel
      → All (IsLevel s sd) (l ∷ ls)
      → side_loop fuel detailed true sd (some b) l.at count last s
        ≡ verdict (is_sorted s sd last (l ∷ ls)) (side_lines detailed s sd count (l ∷ ls))
  unfolding side_loop
  side_loop_lem zero l ls count last p before links out f v = absurd (omega (arith, f))
  side_loop_lem (suc fuel) l [] count last p before links out f v =
      let lines = side_lines detailed s sd count (l ∷ []) in
      elim (Bool-cases (is_after sd last (level_at s l.at).price)) [
        | inr out_of_turn ↦
            ap (then_side fuel l.at count)
              (print_level_fatal detailed s sd last l v.0 p b before links.0 out_of_turn)
            ∙ ap (λ a. verdict (a && true) lines) (sym out_of_turn)
        | inl in_turn ↦
            ap (then_side fuel l.at count)
              (print_level_lem detailed s sd last l v.0 p b before links.0 in_turn)
            ∙ ap (λ o. rest_of fuel count o (level_lines detailed s l) (level_at s l.at).price)
                links.0
            ∙ ap (choose fuel count (some b) (level_lines detailed s l) (level_at s l.at).price)
                (==-self b)
            ∙ ap (λ a. verdict (a && true) lines) (sym in_turn)
      ]
  side_loop_lem (suc fuel) l (k ∷ ks) count last p before links out f v =
      let lines = side_lines detailed s sd count (l ∷ k ∷ ks) in
      let rest = is_sorted s sd (level_at s l.at).price (k ∷ ks) in
      elim (Bool-cases (is_after sd last (level_at s l.at).price)) [
        | inr out_of_turn ↦
            ap (then_side fuel l.at count)
              (print_level_fatal detailed s sd last l v.0 p k.at before links.0 out_of_turn)
            ∙ ap (λ a. verdict (a && rest) lines) (sym out_of_turn)
        | inl in_turn ↦
            ap (then_side fuel l.at count)
              (print_level_lem detailed s sd last l v.0 p k.at before links.0 in_turn)
            ∙ ap (λ o. rest_of fuel count o (level_lines detailed s l) (level_at s l.at).price)
                links.0
            ∙ ap (choose fuel count (some k.at) (level_lines detailed s l) (level_at s l.at).price)
                (==-ne k.at b (λ e. ground (arith, e)))
            ∙ ap (in_front count (level_lines detailed s l)) (
                side_loop_lem fuel k ks (count + 1) (level_at s l.at).price l.at links.1 links.2
                  (ground (arith, out)) (omega (arith, f)) v.1)
            ∙ in_front-verdict count (level_lines detailed s l)
                (side_lines detailed s sd (count + 1) (k ∷ ks)) rest
            ∙ ap (λ a. verdict (a && rest) lines) (sym in_turn)
      ]

length-places : (ls : List Level) → length (places ls) ≡ length ls
length-places [] = refl
length-places (l ∷ ls) = ap suc (length-places ls)

-- The printing of a side in order, with the sanity check: if the prices of the levels go up for asks and
-- down for bids from the limit given on, it changes nothing and prints every level once and in
-- order, with the number of its orders, their added quantities modulo 2 ^ 32, and the orders
-- themselves if details are asked for; and if a price is not in order it ends the process.
pub side_to_text-checks :
    (detailed : Bool) (s : State) (sd : Side) (last : Price) (ls : List Level)
    → IsBookSide s sd ls
    → side_to_text detailed true sd (best_of s sd) last s
      ≡ (if is_sorted s sd last ls then ok (side_lines detailed s sd 0 ls, s) else err Fault.fatal)
unfolding side_to_text
side_to_text-checks detailed s sd last [] v =
    ap (λ o. side_to_text detailed true sd o last s) v.linked
side_to_text-checks detailed s sd last (l ∷ ls) v =
    let most =
      length-Distinct s.orders_at_price_pool.store_size (l.at ∷ places ls) v.linked.1.distinct
        (places-Below s sd (l ∷ ls) v.levels) in
    let back = last-Links (next_level s) (prev_level s) l.at (places ls) l.at v.linked.1.links in
    ap (λ o. side_to_text detailed true sd o last s) v.linked.0
    ∙ side_loop_lem detailed s sd l.at (s.orders_at_price_pool.store_size + 1) l ls 0 last
        (Ring.last l.at (places ls)) back.1 v.linked.1.links v.linked.1.distinct.0
        (omega (arith, most, length-places ls)) v.levels

pub side_to_text-lines :
    (detailed : Bool) (s : State) (sd : Side) (last : Price) (ls : List Level)
    → IsBookSide s sd ls
    → IsSorted s sd last ls
    → side_to_text detailed true sd (best_of s sd) last s ≡ ok (side_lines detailed s sd 0 ls, s)
side_to_text-lines detailed s sd last ls v sorted =
    side_to_text-checks detailed s sd last ls v
    ∙ ap (λ b. if b then ok (side_lines detailed s sd 0 ls, s) else err Fault.fatal) sorted
