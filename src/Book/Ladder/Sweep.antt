-- ===== src/Book/Ladder/Sweep.antt =====
-- One fill of the first order of a side in order, of `match` of exchange/matcher/me_order_book.cpp:
-- it ends and leaves the side in order.
use low_latency_trading_engi.Base.{
  ℕ, ◌+◌, ◌≡◌, ◌≢◌, refl, ap, ◌∙◌, ◌⊎◌, inl, inr, true, false, Bool-cases, List, [], ◌∷◌, ok, arith,
  ◌==◌, bind_result,
}
use low_latency_trading_engi.LfQueue.{write}
use low_latency_trading_engi.Messages.{MeMarketUpdate}
use low_latency_trading_engi.Types.{OrderId, Qty, Side, sub32}
use low_latency_trading_engi.Book.{MeOrder, State, order_at, send_market_update}
use low_latency_trading_engi.Book.Orders.{remove_order}
use low_latency_trading_engi.Book.Fills.{sent, match_order-sent}
use low_latency_trading_engi.Book.Matching.{
  Incoming, fill_of, filled_update, modify_update, settle, match_order,
}
use low_latency_trading_engi.Book.Ladder.{Level, IsBookSide, count}
use low_latency_trading_engi.Book.Ladder.Head.{remove_order-head}
use low_latency_trading_engi.Book.Ladder.Empty.{remove_order-last, remove_order-only}
use low_latency_trading_engi.Book.Ladder.Requantified.{SameButQty, IsBookSide-requantified}

-- Removing the very first order of a side.
remove_order-first_of_side :
    (s : State) (sd : Side) (lp x : ℕ) (xs : List ℕ) (ls : List Level)
    → IsBookSide s sd (record { at = lp; head = x; behind = xs } ∷ ls)
    → (s' : State) × (ls' : List Level) × (remove_order x s ≡ ok (tt, s'))
      × IsBookSide s' sd ls'
      × (count ls' + 1 ≡ count (record { at = lp; head = x; behind = xs } ∷ ls))
remove_order-first_of_side s sd lp x [] [] v =
    let (s', run, v') = remove_order-last s sd lp x v in (s', [], run, v', omega arith)
remove_order-first_of_side s sd lp x [] (l2 ∷ ls) v =
    let (s', run, v') = remove_order-only s sd lp x l2 ls v in (s', l2 ∷ ls, run, v', omega arith)
remove_order-first_of_side s sd lp x (y ∷ ys) ls v =
    let (s', run, v') = remove_order-head s sd lp x y ys ls v in
    (s', record { at = lp; head = y; behind = ys } ∷ ls, run, v', omega arith)

sent-SameButQty :
    (i : Incoming) (id : OrderId) (leaves : Qty) (s : State) (itr : ℕ)
    → SameButQty s (sent i id leaves s itr)
unfolding sent
sent-SameButQty i id leaves s itr = record {
  keys = λ z. ground arith;
  marks = λ z. ground arith;
  orders_size = refl;
  levels = refl;
  prices = refl;
  bids = refl;
  asks = refl;
}

abbrev pub with_update : State → MeMarketUpdate → State
with_update s u = record s { outgoing_md_updates = write s.outgoing_md_updates u }

pub update-SameButQty : (s : State) (u : MeMarketUpdate) → SameButQty s (with_update s u)
update-SameButQty s u = record {
  keys = λ z. refl;
  marks = λ z. refl;
  orders_size = refl;
  levels = refl;
  prices = refl;
  bids = refl;
  asks = refl;
}

-- What a fill leaves of a side: an order less, or the incoming order is used up.
abbrev pub Progress : Side → List Level → Qty → State → Type 0
Progress sd ls left s' =
    (ls' : List Level) × IsBookSide s' sd ls'
    × ((count ls' + 1 ≡ count ls) ⊎ ((count ls' ≡ count ls) × (left ≡ 0)))

fill_ends :
    (o : MeOrder) (leaves : Qty)
    → (sub32 o.qty (fill_of o leaves) == 0) ≡ false
    → sub32 leaves (fill_of o leaves) ≡ 0
fill_ends o leaves h =
    let more : sub32 o.qty (fill_of o leaves) ≢ 0 = ground arith in omega (arith, more)

settle_removes :
    (i : Incoming) (itr : ℕ) (o : MeOrder) (n : Qty) (t s' : State)
    → (o.qty == 0) ≡ true
    → remove_order itr (with_update t (filled_update i o n)) ≡ ok (tt, s')
    → settle i itr o n t ≡ ok (tt, s')
unfolding settle send_market_update
settle_removes i itr o n t s' gone run = rw gone run

settle_keeps :
    (i : Incoming) (itr : ℕ) (o : MeOrder) (n : Qty) (t : State)
    → (o.qty == 0) ≡ false
    → settle i itr o n t ≡ ok (tt, with_update t (modify_update i o o.qty))
unfolding settle send_market_update
settle_keeps i itr o n t stays = rw stays

module _ (i : Incoming) (id : OrderId) (sd : Side) where
  pub match_order-Progress :
      (s : State) (lp x : ℕ) (xs : List ℕ) (ls : List Level) (leaves : Qty)
      → IsBookSide s sd (record { at = lp; head = x; behind = xs } ∷ ls)
      → (left : Qty) × (s' : State) × (match_order i id x leaves s ≡ ok (left, s'))
        × Progress sd (record { at = lp; head = x; behind = xs } ∷ ls) left s'
  match_order-Progress s lp x xs ls leaves v =
      let o = order_at s x in
      let o' : MeOrder = record o { qty = sub32 o.qty (fill_of o leaves) } in
      let t = sent i id leaves s x in
      let vt = IsBookSide-requantified s t sd (sent-SameButQty i id leaves s x) _ v in
      elim (Bool-cases (o'.qty == 0)) [
        | inl gone ↦
            let t' : State = with_update t (filled_update i o' o.qty) in
            let (s', ls', run, v', less) =
              remove_order-first_of_side t' sd lp x xs ls
                (IsBookSide-requantified t t' sd (update-SameButQty t _) _ vt) in
            (
              sub32 leaves (fill_of o leaves),
              s',
              match_order-sent i id x leaves s
                  ∙ ap (λ r. bind_result r (λ q. ok (sub32 leaves (fill_of o leaves), q.1)))
                      (settle_removes i x o' o.qty t s' gone run),
              (ls', v', inl less),
            )
        | inr stays ↦
            let t' : State = with_update t (modify_update i o' o'.qty) in
            (
              sub32 leaves (fill_of o leaves),
              t',
              match_order-sent i id x leaves s
                  ∙ ap (λ r. bind_result r (λ q. ok (sub32 leaves (fill_of o leaves), q.1)))
                      (settle_keeps i x o' o.qty t stays),
              (
                _,
                IsBookSide-requantified t t' sd (update-SameButQty t _) _ vt,
                inr (refl, fill_ends o leaves stays),
              ),
            )
      ]
