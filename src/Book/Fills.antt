-- ===== src/Book/Fills.antt =====
-- What `checkForMatch` of exchange/matcher/me_order_book.cpp sends and how much it fills.
use low_latency_trading_engi.Base.{
  ℕ, zero, suc, ◌-◌, ◌^◌, ◌<◌, ◌≡◌, refl, sym, ap, ◌∙◌, inl, inr, false, Option, none, some, [],
  ◌∷◌, ok, arith, ◌>>=◌, >>=-eq-ok, Option-cases, Bool-cases, pure, subst, ◌==◌, ==-self,
  if◌then◌else◌, ok-injective,
}
use low_latency_trading_engi.LfQueue.{write, write_all}
use low_latency_trading_engi.Types.{OrderId, Qty, sub32}
use low_latency_trading_engi.Book.{
  MeOrder, State, B, order_at, level_at, put_order, send_client_response, send_market_update,
}
use low_latency_trading_engi.Book.Reports.{incoming_fill, resting_fill, trade, remainder}
use low_latency_trading_engi.Book.Frame.{remove_order-SameOutside}
use low_latency_trading_engi.Book.Matching.{
  Incoming, aggressor_filled, passive_filled, trade_update, filled_update, modify_update, fill_of,
  settle, match_order, too_far, opposite, try_order, try_level, match_loop,
}
use low_latency_trading_engi.Book.FillOrder.{
  Fills, done, fill, smaller, Stops, filled, no_more, too_dear, Matched, IsNextToMatch, beyond,
  too_far-beyond, opposite-facing,
}

-- One fill.
record OneFill (i : Incoming) (id : OrderId) (o : MeOrder) (leaves : Qty) (s : State) (left : Qty)
    (s' : State) : Type 0 where
  left_eq : left ≡ leaves - fill_of o leaves
  responses :
      s'.outgoing_ogw_responses
      ≡ write
          (write s.outgoing_ogw_responses
            (incoming_fill i id o (fill_of o leaves) (leaves - fill_of o leaves)))
          (resting_fill i.ticker_id o (fill_of o leaves) (sub32 o.qty (fill_of o leaves)))
  updates :
      s'.outgoing_md_updates
      ≡ write
          (write s.outgoing_md_updates (trade i o (fill_of o leaves)))
          (remainder i.ticker_id o (sub32 o.qty (fill_of o leaves)))
  next_id : s'.next_market_order_id ≡ s.next_market_order_id

settle-sends :
    (i : Incoming) (itr : ℕ) (o : MeOrder) (n : Qty) (s s' : State) (u : Unit {0})
    → settle i itr o n s ≡ ok (u, s')
    → (s'.outgoing_ogw_responses ≡ s.outgoing_ogw_responses)
      × (s'.outgoing_md_updates
          ≡ write s.outgoing_md_updates
              (if o.qty == 0 then filled_update i o n else modify_update i o o.qty))
      × (s'.next_market_order_id ≡ s.next_market_order_id)
unfolding settle send_market_update
settle-sends i itr o n s s' u e = elim (Bool-cases (o.qty == 0)) [
  | inl z ↦
      let same =
        remove_order-SameOutside itr
          (record s { outgoing_md_updates = write s.outgoing_md_updates (filled_update i o n) }) s'
          u (rw z at e) in
      rw z (same.responses, same.updates, same.next_id)
  | inr nz ↦
      let same = sym (ap (λ r. r.1) (ok-injective (rw nz at e))) in
      rw nz (
        ap (λ t. t.outgoing_ogw_responses) same,
        ap (λ t. t.outgoing_md_updates) same,
        ap (λ t. t.next_market_order_id) same,
      )
]

-- The state once the messages common to both endings are sent.
unfoldable pub sent : Incoming → OrderId → Qty → State → ℕ → State
sent i id leaves s itr =
    let o = order_at s itr in
    let left = sub32 o.qty (fill_of o leaves) in
    record (put_order s itr (record o { qty = left })) {
      outgoing_ogw_responses =
          write
            (write s.outgoing_ogw_responses
              (aggressor_filled i id o (fill_of o leaves) (sub32 leaves (fill_of o leaves))))
            (passive_filled i o (fill_of o leaves) left);
      outgoing_md_updates = write s.outgoing_md_updates (trade_update i o (fill_of o leaves));
    }

order_at-put_order : (s : State) (p : ℕ) (o : MeOrder) → order_at (put_order s p o) p ≡ o
order_at-put_order s p o =
    ap
      (λ b.
        (if b
          then record { object = o; is_free = (s.order_pool.store p).is_free }
          else s.order_pool.store p).object)
      (==-self p)

pub match_order-sent :
    (i : Incoming) (id : OrderId) (itr : ℕ) (leaves : Qty) (s : State)
    → match_order i id itr leaves s
      ≡ (settle i itr
              (record (order_at s itr) {
                qty = sub32 (order_at s itr).qty (fill_of (order_at s itr) leaves);
              })
              (order_at s itr).qty
            >>= λ _. pure (sub32 leaves (fill_of (order_at s itr) leaves)))
          (sent i id leaves s itr)
unfolding match_order send_client_response send_market_update sent
match_order-sent i id itr leaves s =
    let o = order_at s itr in
    let fill = fill_of o leaves in
    let o' : MeOrder = record o { qty = sub32 o.qty fill } in
    let t = put_order s itr o' in
    let reread : order_at t itr ≡ o' = order_at-put_order s itr o' in
    ap
      (λ (x : MeOrder). (settle i itr x o.qty >>= λ _. pure (sub32 leaves fill)) (record t {
        outgoing_ogw_responses =
            write
              (write s.outgoing_ogw_responses (aggressor_filled i id x fill (sub32 leaves fill)))
              (passive_filled i x fill x.qty);
        outgoing_md_updates = write s.outgoing_md_updates (trade_update i x fill);
      }))
      reread

match_order-OneFill :
    (i : Incoming) (id : OrderId) (itr : ℕ) (leaves : Qty) (s s' : State) (left : Qty)
    → leaves < 2 ^ 32
    → match_order i id itr leaves s ≡ ok (left, s')
    → OneFill i id (order_at s itr) leaves s left s'
unfolding sent
match_order-OneFill i id itr leaves s s' left small e =
    let o = order_at s itr in
    let o' : MeOrder = record o { qty = sub32 o.qty (fill_of o leaves) } in
    let exact : sub32 leaves (fill_of o leaves) ≡ leaves - fill_of o leaves = omega arith in
    let (u, t, m, r) =
      >>=-eq-ok (settle i itr o' o.qty) (λ _. pure (sub32 leaves (fill_of o leaves)))
        (sent i id leaves s itr) (sym (match_order-sent i id itr leaves s) ∙ e) in
    let sends = settle-sends i itr o' o.qty (sent i id leaves s itr) t u m in
    subst (λ x. OneFill i id o leaves s x.0 x.1) (ok-injective r)
      (record {
        left_eq = exact;
        responses =
            sends.0
            ∙ ap
                (λ n.
                  write
                    (write s.outgoing_ogw_responses (aggressor_filled i id o (fill_of o leaves) n))
                    (passive_filled i o (fill_of o leaves) o'.qty))
                exact;
        updates = sends.1;
        next_id = sends.2;
      })

-- What the rounds after this one do.
abbrev RestMatches : Incoming → OrderId → (Qty → B Qty) → Type 0
RestMatches i id rest =
    (n : Qty) (s s' : State) (left : Qty)
    → n < 2 ^ 32
    → rest n s ≡ ok (left, s')
    → Matched i id n s left s'

module _ (i : Incoming) (id : OrderId) where
  nothing_more :
      (leaves left : Qty) (s s' : State)
      → Stops i leaves s
      → pure leaves s ≡ ok (left, s')
      → Matched i id leaves s left s'
  nothing_more leaves left s s' why e =
      let same = ok-injective e in
      subst (λ r. Matched i id leaves s r.0 r.1) same
        (record {
          rs = [];
          us = [];
          fills = done;
          stops = why;
          responses = unfold write_all in refl;
          updates = unfold write_all in refl;
          next_id = refl;
        })

  one_more :
      (p q : ℕ) (leaves mid left : Qty) (s t s' : State)
      → IsNextToMatch s i.side p q
      → beyond i.side i.price (order_at s q).price ≡ false
      → 0 < leaves
      → match_order i id q leaves s ≡ ok (mid, t)
      → OneFill i id (order_at s q) leaves s mid t
      → Matched i id mid t left s'
      → Matched i id leaves s left s'
  unfolding write_all
  one_more p q leaves mid left s t s' next near some_left run f m = record {
    rs =
        incoming_fill i id (order_at s q) (smaller s q leaves) (leaves - smaller s q leaves)
        ∷ resting_fill i.ticker_id (order_at s q) (smaller s q leaves)
            (sub32 (order_at s q).qty (smaller s q leaves))
        ∷ m.rs;
    us =
        trade i (order_at s q) (smaller s q leaves)
        ∷ remainder i.ticker_id (order_at s q) (sub32 (order_at s q).qty (smaller s q leaves))
        ∷ m.us;
    fills =
        fill p q next near some_left
          (subst (λ n. match_order i id q leaves s ≡ ok (n, t)) f.left_eq run)
          (subst (λ n. Fills i id left t n m.rs m.us s') f.left_eq m.fills);
    stops = m.stops;
    responses = m.responses ∙ ap (λ q. write_all q m.rs) f.responses;
    updates = m.updates ∙ ap (λ q. write_all q m.us) f.updates;
    next_id = m.next_id ∙ f.next_id;
  }

  try_order-Matched :
      (rest : Qty → B Qty)
      → RestMatches i id rest
      → (leaves left : Qty) (p itr : ℕ) (s s' : State) → leaves < 2 ^ 32
      → 0 < leaves
      → opposite s i.side ≡ some p
      → (level_at s p).first_me_order ≡ some itr
      → try_order rest i id leaves itr (order_at s itr) s ≡ ok (left, s')
      → Matched i id leaves s left s'
  unfolding try_order
  try_order-Matched rest spec leaves left p itr s s' small some_left at first e =
      let next : IsNextToMatch s i.side p itr = record {
        best_level = sym (opposite-facing s i.side) ∙ at;
        first = first;
      } in
      let same = sym (too_far-beyond i (order_at s itr)) in
      elim (Bool-cases (too_far i (order_at s itr))) [
        | inl far ↦ nothing_more leaves left s s' (too_dear p itr next (same ∙ far)) (rw far at e)
        | inr near ↦
            let (mid, t, m, r) = >>=-eq-ok (match_order i id itr leaves) rest s (rw near at e) in
            let f = match_order-OneFill i id itr leaves s t mid small m in
            one_more p itr leaves mid left s t s' next (same ∙ near) some_left m f
              (spec mid t s' left (omega (arith, f.left_eq)) r)
      ]

  try_level-Matched :
      (rest : Qty → B Qty)
      → RestMatches i id rest
      → (leaves left : Qty) (best : Option ℕ) (s s' : State) → leaves < 2 ^ 32
      → opposite s i.side ≡ best
      → try_level rest i id leaves best s ≡ ok (left, s')
      → Matched i id leaves s left s'
  unfolding try_level
  try_level-Matched rest spec leaves left none s s' small at e =
      nothing_more leaves left s s' (no_more (sym (opposite-facing s i.side) ∙ at)) e
  try_level-Matched rest spec leaves left (some p) s s' small at e =
      elim (Bool-cases (leaves == 0)) [
        | inl z ↦ nothing_more leaves left s s' (filled (ground arith)) (rw z at e)
        | inr nz ↦ elim (Option-cases (level_at s p).first_me_order) [
          | inl null ↦ absurd (cc (rw (nz, null) at e))
          | inr (itr, first) ↦
              try_order-Matched rest spec leaves left p itr s s' small (ground arith) at first
                (rw (nz, first) at e)
        ]
      ]

  pub match_loop-Matched : (fuel : ℕ) → RestMatches i id (match_loop fuel i id)
  unfolding match_loop
  match_loop-Matched zero n s s' left small e = absurd (cc)
  match_loop-Matched (suc fuel) n s s' left small e =
      try_level-Matched (λ left. match_loop fuel i id left) (match_loop-Matched fuel) n left
        (opposite s i.side) s s' small refl e
