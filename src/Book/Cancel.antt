-- ===== src/Book/Cancel.antt =====
-- `cancel` of exchange/matcher/me_order_book.cpp: an order that is not found, and one that rests in
-- the queue of its price.
use low_latency_trading_engi.Base.{
  ℕ, ◌≡◌, ap, ◌⊎◌, inl, inr, true, false, none, some, List, ◌∷◌, ◌++◌, ok, arith, ltb, ◌∙◌, Result,
  bind_result,
}
use low_latency_trading_engi.Types.{me_max_num_clients}
use low_latency_trading_engi.LfQueue.{write}
use low_latency_trading_engi.Book.{
  State, order_at, in_client_map, send_client_response, send_market_update,
}
use low_latency_trading_engi.Book.Orders.{remove_order}
use low_latency_trading_engi.Book.Queue.{IsQueue, SamePayloads}
use low_latency_trading_engi.Book.Removal.{
  IsResting, Removed, remove_order-behind, remove_order-first,
}
use low_latency_trading_engi.Book.Reports.{cancellation, withdrawal, rejection}
use low_latency_trading_engi.Book.Matching.{cancel, find_client_order}

-- A client number out of range, or a known client without an order of that number.
abbrev pub IsUnknown : State → (c o : ℕ) → Type 0
IsUnknown s c o =
    (ltb c me_max_num_clients ≡ false)
    ⊎ ((in_client_map c o ≡ true) × (s.cid_oid_to_order c o ≡ none))

find-in-map :
    (s : State) (c o : ℕ)
    → in_client_map c o ≡ true
    → find_client_order c o s ≡ ok (s.cid_oid_to_order c o, s)
unfolding find_client_order
find-in-map s c o e = ground (arith, e)

abbrev rejected : State → (c o t : ℕ) → State
rejected s c o t = record s {
  outgoing_ogw_responses = write s.outgoing_ogw_responses (rejection c o t);
}

-- Cancelling for a client number out of range, or for a client and an order number in range
-- without an entry, sends one CANCEL_REJECTED response and changes nothing else.
pub cancel_rejects :
    (s : State) (c o t : ℕ)
    → IsUnknown s c o
    → cancel c o t s
      ≡ ok (
        tt,
        record s { outgoing_ogw_responses = write s.outgoing_ogw_responses (rejection c o t) },
      )
unfolding cancel send_client_response
cancel_rejects s c o t (inl e) = unfold find_client_order in rw e
cancel_rejects s c o t (inr (e, f)) = rw (find-in-map s c o e, f)

-- The order at `q` is the one that its client knows under its own number.
abbrev pub IsKnown : State → ℕ → Type 0
IsKnown s q =
    (in_client_map (order_at s q).client_id (order_at s q).client_order_id ≡ true)
    × (s.cid_oid_to_order (order_at s q).client_id (order_at s q).client_order_id ≡ some q)

abbrev told : State → (q t : ℕ) → State → State
told s q t s' = record s' {
  outgoing_md_updates = write s'.outgoing_md_updates (withdrawal t (order_at s q));
  outgoing_ogw_responses = write s'.outgoing_ogw_responses (cancellation t (order_at s q));
}

cancel_runs :
    (s s' : State) (q t : ℕ)
    → IsKnown s q
    → remove_order q s ≡ ok (tt, s')
    → cancel (order_at s q).client_id (order_at s q).client_order_id t s ≡ ok (tt, told s q t s')
unfolding cancel send_client_response send_market_update
cancel_runs s s' q t (k0, k1) run = rw (find-in-map s _ _ k0, k1, run)

-- What a cancelled order leaves: the two messages, and `Removed`'s effects on everything else.
pub record Cancelled (s : State) (q t : ℕ) (s' : State) : Type 0 where
  pub freed : (s'.order_pool.store q).is_free ≡ true
  pub unmapped : s'.cid_oid_to_order (order_at s q).client_id (order_at s q).client_order_id ≡ none
  pub payloads : SamePayloads s s'
  pub responses :
      s'.outgoing_ogw_responses ≡ write s.outgoing_ogw_responses (cancellation t (order_at s q))
  pub updates : s'.outgoing_md_updates ≡ write s.outgoing_md_updates (withdrawal t (order_at s q))

told-Cancelled : (s s' : State) (q t : ℕ) → Removed s q s' → Cancelled s q t (told s q t s')
told-Cancelled s s' q t r = record {
  freed = r.freed;
  unmapped = r.unmapped;
  payloads = r.payloads;
  responses = ap (λ w. write w (cancellation t (order_at s q))) r.responses;
  updates = ap (λ w. write w (withdrawal t (order_at s q))) r.updates;
}

told-IsQueue :
    (s s' : State) (q t : ℕ) {lp x : ℕ} {xs : List ℕ}
    → IsQueue s' lp x xs
    → IsQueue (told s q t s') lp x xs
told-IsQueue s s' q t v = record { first = v.first; ring = v.ring }

-- For a well-linked queue of orders at one price and an order behind its first one, which is in
-- use in the pool, whose level is found by its price, and which is its client's entry under its
-- own number: cancelling it sends one CANCELED response and one CANCEL update for it, frees its
-- block, clears its client's entry, changes no other order but for its pointers, and leaves the
-- others of the queue in their order.
pub cancel-behind :
    (s : State) (lp x : ℕ) (ls : List ℕ) (q : ℕ) (rs : List ℕ) (t : ℕ)
    → IsQueue s lp x (ls ++ (q ∷ rs))
    → IsResting s lp q
    → IsKnown s q
    → (s' : State) × (cancel (order_at s q).client_id (order_at s q).client_order_id t s
        ≡ ok (tt, s'))
      × IsQueue s' lp x (ls ++ rs)
      × Cancelled s q t s'
cancel-behind s lp x ls q rs t v r k =
    let (s', run, v', removed) = remove_order-behind s lp x ls q rs v r in
    (
      told s q t s',
      cancel_runs s s' q t k run,
      told-IsQueue s s' q t v',
      told-Cancelled s s' q t removed,
    )

-- For the first order of a well-linked queue that has others, in use, with its level found and
-- known to its client: cancelling it sends one CANCELED response and one CANCEL update for it,
-- frees its block, clears its client's entry, changes no other order but for its pointers, and
-- makes the next order the first of the queue.
pub cancel-first :
    (s : State) (lp x y : ℕ) (ys : List ℕ) (t : ℕ)
    → IsQueue s lp x (y ∷ ys)
    → IsResting s lp x
    → IsKnown s x
    → (s' : State) × (cancel (order_at s x).client_id (order_at s x).client_order_id t s
        ≡ ok (tt, s'))
      × IsQueue s' lp y ys
      × Cancelled s x t s'
cancel-first s lp x y ys t v r k =
    let (s', run, v', removed) = remove_order-first s lp x y ys v r in
    (
      told s x t s',
      cancel_runs s s' x t k run,
      told-IsQueue s s' x t v',
      told-Cancelled s s' x t removed,
    )

abbrev again : (c o t : ℕ) → Result (Unit {0} × State) → Result (Unit {0} × State)
again c o t r = bind_result r (λ x. cancel c o t x.1)

-- What two cancellations of the order at `q` leave.
pub record CancelledTwice (s : State) (q t : ℕ) (s' : State) : Type 0 where
  pub freed : (s'.order_pool.store q).is_free ≡ true
  pub payloads : SamePayloads s s'
  pub responses :
      s'.outgoing_ogw_responses
      ≡ write
          (write s.outgoing_ogw_responses (cancellation t (order_at s q)))
          (rejection (order_at s q).client_id (order_at s q).client_order_id t)
  pub updates : s'.outgoing_md_updates ≡ write s.outgoing_md_updates (withdrawal t (order_at s q))

-- For a well-linked queue of orders at one price and an order behind its first one, which is in use in
-- the pool, whose level is found by its price, and which its client knows: of two requests one after
-- the other to cancel it, the first is answered with a CANCELED response and a CANCEL update, and the
-- second with a CANCEL_REJECTED response and nothing else. The order is taken out once: its block is
-- free, the others of the queue stay in their order, and no order changes but for its pointers.
pub cancel-twice :
    (s : State) (lp x : ℕ) (ls : List ℕ) (q : ℕ) (rs : List ℕ) (t : ℕ)
    → IsQueue s lp x (ls ++ (q ∷ rs))
    → IsResting s lp q
    → IsKnown s q
    → (s' : State) × (bind_result
          (cancel (order_at s q).client_id (order_at s q).client_order_id t s)
          (λ r. cancel (order_at s q).client_id (order_at s q).client_order_id t r.1)
        ≡ ok (tt, s'))
      × IsQueue s' lp x (ls ++ rs)
      × CancelledTwice s q t s'
cancel-twice s lp x ls q rs t v r k =
    let c = (order_at s q).client_id in
    let o = (order_at s q).client_order_id in
    let (s1, run, v1, done) = cancel-behind s lp x ls q rs t v r k in
    (
      rejected s1 c o t,
      ap (again c o t) run ∙ cancel_rejects s1 c o t (inr (k.0, done.unmapped)),
      record { first = v1.first; ring = v1.ring },
      record {
        freed = done.freed;
        payloads = done.payloads;
        responses = ap (λ w. write w (rejection c o t)) done.responses;
        updates = done.updates;
      },
    )
