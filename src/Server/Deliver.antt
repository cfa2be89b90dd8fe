-- ===== src/Server/Deliver.antt =====
-- What the loop over the responses sends, in `run` of exchange/order_server/order_server.h.
use low_latency_trading_engi.Base.{
  ℕ, zero, suc, ◌<◌, ◌≡◌, ap, subst, sym, ◌∙◌, inl, inr, some, List, [], ◌∷◌, ◌++◌, append-nil,
  append_assoc, refl, All, length, ok, arith, lt→ltb, update,
}
use low_latency_trading_engi.Types.{ClientId, me_max_num_clients, next64}
use low_latency_trading_engi.LfQueue.{LfQueue, update_read_index}
use low_latency_trading_engi.LfQueue.Fifo.{IsValid, contents, read_cases}
use low_latency_trading_engi.Messages.{MeClientResponse, OmClientResponse}
use low_latency_trading_engi.Server.{OrderServer, send_response, send_responses}

-- A response goes to the socket of its client with the client's next number.
abbrev pub deliveries :
    (socket_for : ClientId → ℕ)
    → (number : ClientId → ℕ) → List MeClientResponse
    → List (ℕ × OmClientResponse)
deliveries socket_for number [] = []
deliveries socket_for number (r ∷ rs) =
    (socket_for r.client_id, record { seq_num = number r.client_id; me_client_response = r })
    ∷ deliveries socket_for (update number r.client_id (next64 (number r.client_id))) rs

-- The client of a response is known, and has a socket.
abbrev pub IsReachable : OrderServer → (ClientId → ℕ) → MeClientResponse → Type 0
IsReachable s socket_for r =
    (r.client_id < me_max_num_clients)
    × (s.cid_tcp_socket r.client_id ≡ some (socket_for r.client_id))

sent_one : OrderServer → (ClientId → ℕ) → MeClientResponse → LfQueue MeClientResponse → OrderServer
sent_one s socket_for r q = record s {
  outgoing_responses = q;
  cid_next_outgoing_seq_num =
      update s.cid_next_outgoing_seq_num r.client_id
        (next64 (s.cid_next_outgoing_seq_num r.client_id));
  sent =
      s.sent
      ++ ((
        socket_for r.client_id,
        record { seq_num = s.cid_next_outgoing_seq_num r.client_id; me_client_response = r },
      )
          ∷ []);
}

send_response_runs :
    (s : OrderServer) (socket_for : ClientId → ℕ) (i : ℕ) (q : LfQueue MeClientResponse)
    → IsReachable s socket_for (s.outgoing_responses.store i)
    → update_read_index s.outgoing_responses ≡ ok q
    → send_response i s ≡ ok (tt, sent_one s socket_for (s.outgoing_responses.store i) q)
unfolding send_response sent_one
send_response_runs s socket_for i q (h, e) u =
    simp (lt→ltb (s.outgoing_responses.store i).client_id me_max_num_clients h, e, u)

-- For a valid queue, clients in range that all have a socket, and more rounds than responses: the
-- loop sends every waiting response once, in order, to the socket of its client and with the next
-- number of that client, and leaves the queue empty and the sequencer as it was.
pub send_responses-deliveries :
    (fuel : ℕ) (s : OrderServer) (socket_for : ClientId → ℕ) (rs : List MeClientResponse)
    → IsValid s.outgoing_responses
    → contents s.outgoing_responses ≡ rs
    → length rs < fuel
    → All (IsReachable s socket_for) rs
    → (s' : OrderServer) × (send_responses fuel s ≡ ok (tt, s'))
      × (s'.sent ≡ s.sent ++ deliveries socket_for s.cid_next_outgoing_seq_num rs)
      × (contents s'.outgoing_responses ≡ [])
      × (s'.fifo_sequencer ≡ s.fifo_sequencer)
unfolding send_responses sent_one
send_responses-deliveries zero s socket_for rs v e f known = absurd (omega arith)
send_responses-deliveries (suc fuel) s socket_for [] v e f known =
    elim (read_cases s.outgoing_responses v) [
      | inl (empty, none_left, bad) ↦
          (s, rw (none_left, send_responses), sym (append-nil s.sent), empty, refl)
      | inr (i, q, found, read, split, v') ↦ absurd (cc)
    ]
send_responses-deliveries (suc fuel) s socket_for (r ∷ rs) v e f known =
    elim (read_cases s.outgoing_responses v) [
      | inl (empty, none_left, bad) ↦ absurd (cc)
      | inr (i, q, found, read, split, v') ↦
          let same : s.outgoing_responses.store i ≡ r = cc in
          let rest : contents q ≡ rs = cc in
          let reach = subst (λ x. IsReachable s socket_for x) (sym same) known.0 in
          let s1 : OrderServer = sent_one s socket_for (s.outgoing_responses.store i) q in
          let (s', run, out, empty, same_sequencer) =
            send_responses-deliveries fuel s1 socket_for rs v' rest (omega arith) known.1 in
          (
            s',
            rw (found, send_responses, send_response_runs s socket_for i q reach read) run,
            out
                ∙ append_assoc s.sent _ _
                ∙ ap (λ x. s.sent ++ deliveries socket_for s.cid_next_outgoing_seq_num (x ∷ rs))
                    same,
            empty,
            same_sequencer,
          )
    ]
