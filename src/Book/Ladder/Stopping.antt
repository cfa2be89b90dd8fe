-- ===== src/Book/Ladder/Stopping.antt =====
-- `checkForMatch` of exchange/matcher/me_order_book.cpp where nothing matches: it leaves the whole
-- quantity and changes nothing.
use low_latency_trading_engi.Base.{
  ℕ, zero, suc, ◌+◌, ◌<◌, ◌≡◌, ap, ◌∙◌, Bool, true, false, ◌||◌, Option, ok, arith, ◌==◌, ◌>>=◌,
  pure, Result, if◌then◌else◌, ◌%◌, ◌^◌, deref,
}
use low_latency_trading_engi.Types.{Qty, OrderId, is_buy, is_sell}
use low_latency_trading_engi.Book.{State, B, level, order, order_at}
use low_latency_trading_engi.Book.Matching.{
  Incoming, check_for_match, match_loop, match_order, try_level, try_order,
}
use low_latency_trading_engi.Book.FillOrder.{
  Stops, filled, no_more, too_dear, opposite-facing, too_far-beyond,
}

-- The loop stops at once.
module _ (i : Incoming) (id : OrderId) (s : State) (more : 0 < i.qty) where
  abbrev go_on : ℕ → Qty → B Qty
  go_on fuel qty = match_loop fuel i id qty

  abbrev at_first : ℕ → Option ℕ → Result (Qty × State)
  at_first fuel o = (do itr ← deref o; x ← order itr; try_order (go_on fuel) i id i.qty itr x) s

  match_loop-stops :
      (fuel : ℕ) → 0 < fuel → Stops i i.qty s → match_loop fuel i id i.qty s ≡ ok (i.qty, s)
  unfolding match_loop try_level try_order
  match_loop-stops zero h st = absurd (omega (arith, h))
  match_loop-stops (suc fuel) h (filled e) = absurd (omega (arith, e, more))
  match_loop-stops (suc fuel) h (no_more e) =
      ap (λ o. try_level (go_on fuel) i id i.qty o s) (opposite-facing s i.side ∙ e)
  match_loop-stops (suc fuel) h (too_dear p q next far) =
      let some_left : (i.qty == 0) ≡ false = ground (arith, more) in
      ap (λ o. try_level (go_on fuel) i id i.qty o s) (opposite-facing s i.side ∙ next.best_level)
      ∙ ap
          (λ b.
            (if b then pure i.qty else (do
              l ← level p
              itr ← deref l.first_me_order
              x ← order itr
              try_order (go_on fuel) i id i.qty itr x))
              s)
          some_left
      ∙ ap (at_first fuel) next.first
      ∙ ap (λ (b : Bool). (if b then pure i.qty else (match_order i id q i.qty >>= go_on fuel)) s)
          (too_far-beyond i (order_at s q) ∙ far)

pub check_for_match-stops :
    (i : Incoming) (id : OrderId) (s : State)
    → (is_buy i.side || is_sell i.side) ≡ true
    → 0 < i.qty
    → Stops i i.qty s
    → check_for_match i id s ≡ ok (i.qty, s)
unfolding check_for_match
check_for_match-stops i id s known more stops =
    ap
      (λ (b : Bool).
        (if b then match_loop (s.order_pool.store_size + 1) i (id % 2 ^ 32) i.qty else pure i.qty)
          s)
      known
    ∙ match_loop-stops i (id % 2 ^ 32) s more (s.order_pool.store_size + 1) (omega arith) stops
