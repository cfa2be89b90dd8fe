-- ===== src/Server/Receive.antt =====
-- Which client requests `recvCallback` of exchange/order_server/order_server.h lets through.
use low_latency_trading_engi.Base.{
  ℕ, ◌<◌, ◌≡◌, refl, ap, ◌≢◌, ◌⊎◌, inl, inr, true, false, some, none, [], ◌∷◌, ◌++◌, ok, arith, ltb,
  lt→ltb, sym, Bool-cases, ◌==◌, ==-self, ==-ne, update, same_ptr,
}
use low_latency_trading_engi.Types.{ClientId, me_max_num_clients, next64}
use low_latency_trading_engi.Messages.{OmClientRequest}
use low_latency_trading_engi.Sequencer.{Nanos, pending, me_max_pending_requests}
use low_latency_trading_engi.Sequencer.Sorting.{add_client_request_lem}
use low_latency_trading_engi.Server.{OrderServer, socket_of, bind_socket, forward, handle_request}

abbrev pub client_of : OmClientRequest → ClientId
client_of r = r.me_client_request.client_id

-- Nothing that the server keeps of another client than `c` changes, nor do its two queues.
pub record SameOthers (s : OrderServer) (c : ClientId) (s' : OrderServer) : Type 0 where
  pub expected : (i : ClientId) → i ≢ c → s'.cid_next_exp_seq_num i ≡ s.cid_next_exp_seq_num i
  pub sockets : (i : ClientId) → i ≢ c → s'.cid_tcp_socket i ≡ s.cid_tcp_socket i
  pub numbers : s'.cid_next_outgoing_seq_num ≡ s.cid_next_outgoing_seq_num
  pub sent : s'.sent ≡ s.sent
  pub responses : s'.outgoing_responses ≡ s.outgoing_responses
  pub requests : s'.fifo_sequencer.incoming_requests ≡ s.fifo_sequencer.incoming_requests

kept_socket :
    (s : OrderServer) (c : ClientId) (socket t : ℕ)
    → s.cid_tcp_socket c ≡ some t
    → socket_of s c socket ≡ some t
kept_socket s c socket t e = rw (e, socket_of)

own_socket :
    (s : OrderServer) (c : ClientId) (socket : ℕ)
    → (s.cid_tcp_socket c ≡ none) ⊎ (s.cid_tcp_socket c ≡ some socket)
    → socket_of s c socket ≡ some socket
own_socket s c socket (inl e) = rw (e, socket_of)
own_socket s c socket (inr e) = kept_socket s c socket socket e

-- A request of a client number in range, with the expected number of its client, from the socket
-- that the client has or from the first one it uses, while the sequencer has room: it is added
-- behind the pending requests with its time, the expected number moves on, and the socket is the
-- client's from then on. Nothing changes for other clients.
pub handle_request-accepts :
    (s : OrderServer) (socket : ℕ) (rx_time : Nanos) (r : OmClientRequest)
    → client_of r < me_max_num_clients
    → (s.cid_tcp_socket (client_of r) ≡ none) ⊎ (s.cid_tcp_socket (client_of r) ≡ some socket)
    → r.seq_num ≡ s.cid_next_exp_seq_num (client_of r)
    → s.fifo_sequencer.pending_size < me_max_pending_requests
    → (s' : OrderServer) × (handle_request socket rx_time r s ≡ ok (tt, s'))
      × (pending s'.fifo_sequencer
          ≡ pending s.fifo_sequencer
            ++ (record { recv_time = rx_time; request = r.me_client_request } ∷ []))
      × (s'.cid_next_exp_seq_num (client_of r) ≡ next64 r.seq_num)
      × (s'.cid_tcp_socket (client_of r) ≡ some socket)
      × SameOthers s (client_of r) s'
unfolding handle_request forward
handle_request-accepts s socket rx_time r h own seq room =
    let expected : (r.seq_num == s.cid_next_exp_seq_num (client_of r)) ≡ true =
      ground (arith, seq) in
    let (q, run, grown, same) =
      (add_client_request_lem rx_time r.me_client_request s.fifo_sequencer).0 room in
    (
      record (bind_socket s (client_of r) socket) {
        cid_next_exp_seq_num =
            update s.cid_next_exp_seq_num (client_of r)
              (next64 (s.cid_next_exp_seq_num (client_of r)));
        fifo_sequencer = q;
      },
      simp (
        lt→ltb (client_of r) me_max_num_clients h,
        ==-self (client_of r),
        own_socket s (client_of r) socket own,
        ==-self socket,
        expected,
        run,
      ),
      grown,
      rw (==-self (client_of r)) (ap next64 (sym seq)),
      rw (==-self (client_of r)) (own_socket s (client_of r) socket own),
      record {
        expected = λ i ne. ground (arith, ne);
        sockets = λ i ne. ground (arith, ne);
        numbers = refl;
        sent = refl;
        responses = refl;
        requests = same;
      },
    )

-- A request of a client number in range from another socket than its client's, or with another
-- number than the expected one, is skipped: neither the sequencer nor an expected number changes,
-- and nothing changes for other clients.
handle_request-skips :
    (s : OrderServer) (socket : ℕ) (rx_time : Nanos) (r : OmClientRequest)
    → client_of r < me_max_num_clients
    → ((t : ℕ) × (s.cid_tcp_socket (client_of r) ≡ some t) × (t ≢ socket))
      ⊎ (r.seq_num ≢ s.cid_next_exp_seq_num (client_of r))
    → (s' : OrderServer) × (handle_request socket rx_time r s ≡ ok (tt, s'))
      × (s'.fifo_sequencer ≡ s.fifo_sequencer)
      × (s'.cid_next_exp_seq_num ≡ s.cid_next_exp_seq_num)
      × SameOthers s (client_of r) s'
unfolding handle_request
handle_request-skips s socket rx_time r h other = (
  bind_socket s (client_of r) socket,
  skipped other,
  refl,
  refl,
  record {
    expected = λ i ne. refl;
    sockets = λ i ne. ground (arith, ne);
    numbers = refl;
    sent = refl;
    responses = refl;
    requests = refl;
  },
)
  where
    in_range : ltb (client_of r) me_max_num_clients ≡ true
    in_range = lt→ltb (client_of r) me_max_num_clients h

    skipped :
        ((t : ℕ) × (s.cid_tcp_socket (client_of r) ≡ some t) × (t ≢ socket))
          ⊎ (r.seq_num ≢ s.cid_next_exp_seq_num (client_of r))
        → handle_request socket rx_time r s ≡ ok (tt, bind_socket s (client_of r) socket)
    skipped (inl (t, e, ne)) =
        let other_socket : (t == socket) ≡ false = ==-ne t socket ne in
        simp (in_range, ==-self (client_of r), kept_socket s (client_of r) socket t e, other_socket)
    skipped (inr ne) =
        let unexpected : (r.seq_num == s.cid_next_exp_seq_num (client_of r)) ≡ false =
          ==-ne _ _ ne in
        elim (Bool-cases (same_ptr (socket_of s (client_of r) socket) (some socket))) [
          | inl e ↦ simp (in_range, ==-self (client_of r), e, unexpected)
          | inr e ↦ simp (in_range, ==-self (client_of r), e)
        ]
