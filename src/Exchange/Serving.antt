-- ===== src/Exchange/Serving.antt =====
-- A request on its way through the parts of exchange/exchange_main.cpp and back.
use low_latency_trading_engi.Base.{
  ℕ, ◌+◌, ◌<◌, ◌≤◌, ◌≡◌, ◌≢◌, refl, sym, ap, subst, ◌∙◌, ◌⊎◌, inl, inr, none, some, List, [], ◌∷◌,
  ◌++◌, append-nil, All, length, ok, arith, bind_result, Result, M, ◌>>=◌, ◌>>◌, Option, Fault, err,
  ltb, true, false, Bool-cases, ◌==◌, ==_iff, ==-self, if◌then◌else◌,
}
use low_latency_trading_engi.Types.{ClientId, me_max_num_clients, me_max_tickers}
use low_latency_trading_engi.LfQueue.{LfQueue, size, update_read_index, write, write_all}
use low_latency_trading_engi.LfQueue.Fifo.{
  IsValid, contents, read_cases, count_cases, contents-write, write-IsValid, contents-write_all,
  length-contents,
}
use low_latency_trading_engi.Messages.{
  MeClientRequest, MeClientResponse, MeMarketUpdate, OmClientRequest,
}
use low_latency_trading_engi.Sequencer.{
  Nanos, RecvTimeClientRequest, pending, cells, FifoSequencer, sequence_and_publish,
}
use low_latency_trading_engi.Sequencer.Sorting.{sequence_and_publish-first}
use low_latency_trading_engi.Engine
use low_latency_trading_engi.Book.{State, MeOrderBook}
use low_latency_trading_engi.Engine.{
  MatchingEngine, view, put_back, on_book, book_call, process_client_request,
}
use low_latency_trading_engi.Server.{
  OrderServer, request_bytes, recv_callback, recv_finished_callback,
}
use low_latency_trading_engi.Server.Receive.{client_of, SameOthers, handle_request-accepts}
use low_latency_trading_engi.Server.Bytes.{recv_callback-requests}
use low_latency_trading_engi.Server.Deliver.{deliveries, IsReachable, send_responses-deliveries}
use low_latency_trading_engi.Exchange.{
  Exchange, engine_of, server_of, put_engine, put_server, engine_round, receive_round,
  response_round,
}

-- The body of a round of the engine, from its parts on.
abbrev finished :
    MatchingEngine → Result (LfQueue MeClientRequest) → Result (Unit {0} × MatchingEngine)
finished e r = bind_result r (λ q. ok (tt, record e { incoming_requests = q }))

abbrev finishes : Unit {0} × MatchingEngine → Result (Unit {0} × MatchingEngine)
finishes r = finished r.1 (update_read_index r.1.incoming_requests)

abbrev reads : Exchange → Option ℕ → Result (Unit {0} × MatchingEngine)
reads x o = elim o [
  | none ↦ ok (tt, engine_of x)
  | some i ↦ bind_result (process_client_request (x.client_requests.store i) (engine_of x)) finishes
]

-- The engine's round takes the first waiting request.
engine_round-processes :
    (x : Exchange) (r : MeClientRequest) (rs : List MeClientRequest) (e' : MatchingEngine)
    → IsValid x.client_requests
    → contents x.client_requests ≡ r ∷ rs
    → process_client_request r (engine_of x) ≡ ok (tt, e')
    → e'.incoming_requests ≡ x.client_requests
    → (q : LfQueue MeClientRequest) × (engine_round x
        ≡ ok (tt, put_engine x (record e' { incoming_requests = q })))
      × (contents q ≡ rs)
      × IsValid q
unfolding engine_round Engine.run_round
engine_round-processes x r rs e' v e run same = elim (read_cases x.client_requests v) [
  | inl (empty, none_left, bad) ↦ absurd (cc)
  | inr (i, q, found, read, split, v') ↦
      let first : x.client_requests.store i ≡ r = cc in
      let rest : contents q ≡ rs = cc in
      (
        q,
        ap (λ o. bind_result (reads x o) (λ r. ok (r.0, put_engine x r.1))) found
            ∙ ap
                (λ y.
                  bind_result (bind_result (process_client_request y (engine_of x)) finishes)
                    (λ r. ok (r.0, put_engine x r.1)))
                first
            ∙ ap (λ y. bind_result (bind_result y finishes) (λ r. ok (r.0, put_engine x r.1))) run
            ∙ ap (λ y. bind_result (finished e' y) (λ r. ok (r.0, put_engine x r.1)))
                (ap update_read_index same ∙ read),
        rest,
        v',
      )
]

-- The rounds of the two threads, one after the other, in which a request is answered.
abbrev pub served :
    (decode : List ℕ → OmClientRequest)
    (sort : List RecvTimeClientRequest → List RecvTimeClientRequest)
    → (socket : ℕ) → Nanos
    → List ℕ
    → M Exchange (Unit {0})
served decode sort socket time p = do
  rest ← receive_round decode sort socket time p
  engine_round
  response_round

-- A request that the server accepts, from a client with this socket or with none.
pub record IsAccepted (s : OrderServer) (socket : ℕ) (r : OmClientRequest) : Type 0 where
  pub client : client_of r < me_max_num_clients
  pub own : (s.cid_tcp_socket (client_of r) ≡ none) ⊎ (s.cid_tcp_socket (client_of r) ≡ some socket)
  pub expected : r.seq_num ≡ s.cid_next_exp_seq_num (client_of r)
  pub none_pending : s.fifo_sequencer.pending_size ≡ 0

-- The request is in the engine's queue, and in the server only its client's entries have changed.
record Forwarded (x : Exchange) (socket : ℕ) (r : OmClientRequest) (x' : Exchange) : Type 0 where
  pub requests : x'.client_requests ≡ write x.client_requests r.me_client_request
  pub responses : x'.client_responses ≡ x.client_responses
  pub updates : x'.market_updates ≡ x.market_updates
  pub engine : x'.matching_engine ≡ x.matching_engine
  pub own : x'.order_server.cid_tcp_socket (client_of r) ≡ some socket
  pub sockets :
      (i : ClientId)
      → i ≢ client_of r
      → x'.order_server.cid_tcp_socket i ≡ x.order_server.cid_tcp_socket i
  pub numbers : x'.order_server.cid_next_outgoing_seq_num ≡ x.order_server.cid_next_outgoing_seq_num
  pub sent : x'.order_server.sent ≡ x.order_server.sent

module _ (decode : List ℕ → OmClientRequest)
    (sort : List RecvTimeClientRequest → List RecvTimeClientRequest)
    (sort_one : (y : RecvTimeClientRequest) → sort (y ∷ []) ≡ y ∷ []) where
  abbrev finish : List ℕ → M OrderServer (List ℕ)
  finish rest s = ok (rest, recv_finished_callback sort s)

  abbrev then_finish : List ℕ × OrderServer → Result (List ℕ × OrderServer)
  then_finish r = finish r.0 r.1

  abbrev put_back_server : Exchange → List ℕ × OrderServer → Result (List ℕ × Exchange)
  put_back_server x r = ok (r.0, put_server x r.1)

  abbrev no_more : Unit {0} × OrderServer → Result (Unit {0} × OrderServer)
  no_more r = ok (tt, r.1)

  abbrev nothing_left : Unit {0} × OrderServer → Result (List ℕ × OrderServer)
  nothing_left r = ok ([], r.1)

  recv_callback-accepts :
      (s : OrderServer) (socket : ℕ) (time : Nanos) (p : List ℕ)
      → length p ≡ request_bytes
      → IsAccepted s socket (decode p)
      → (s' : OrderServer) × (recv_callback decode socket time p s ≡ ok ([], s'))
        × (pending s'.fifo_sequencer
            ≡ record { recv_time = time; request = (decode p).me_client_request } ∷ [])
        × (s'.cid_tcp_socket (client_of (decode p)) ≡ some socket)
        × SameOthers s (client_of (decode p)) s'
  recv_callback-accepts s socket time p whole a =
      let (s', run, grown, next, own, others) =
        handle_request-accepts s socket time (decode p) a.client a.own a.expected
          (omega (arith, a.none_pending)) in
      (
        s',
        ap (λ b. recv_callback decode socket time b s)
              (sym (append-nil p) ∙ sym (append-nil (p ++ [])))
            ∙ recv_callback-requests decode socket time (p ∷ []) [] s (whole, tt) (omega arith)
            ∙ ap (λ r. bind_result (bind_result r no_more) nothing_left) run,
        grown
            ∙ ap
                (λ n.
                  cells s.fifo_sequencer.pending_client_requests 0 n
                  ++ (record { recv_time = time; request = (decode p).me_client_request } ∷ []))
                a.none_pending,
        own,
        others,
      )

  sequence-only :
      (q : FifoSequencer) (y : RecvTimeClientRequest)
      → pending q ≡ y ∷ []
      → ((sequence_and_publish sort q).incoming_requests ≡ write q.incoming_requests y.request)
        × ((sequence_and_publish sort q).pending_size ≡ 0)
  sequence-only q y e =
      let some_pending : 0 < q.pending_size = elim (count_cases q.pending_size) [
        | inl z ↦
            let nothing : pending q ≡ [] = ap (cells q.pending_client_requests 0) z in absurd (cc)
        | inr (n, z) ↦ omega (arith, z)
      ] in
      sequence_and_publish-first sort q y [] some_pending (ap sort e ∙ sort_one y)

  receive_round-forwards :
      (x : Exchange) (socket : ℕ) (time : Nanos) (p : List ℕ)
      → length p ≡ request_bytes
      → IsAccepted x.order_server socket (decode p)
      → (x' : Exchange) × (receive_round decode sort socket time p x ≡ ok ([], x'))
        × Forwarded x socket (decode p) x'
  unfolding receive_round recv_finished_callback
  receive_round-forwards x socket time p whole a =
      let a' : IsAccepted (server_of x) socket (decode p) = record {
        client = a.client;
        own = a.own;
        expected = a.expected;
        none_pending = a.none_pending;
      } in
      let (s', run, waiting, own, others) =
        recv_callback-accepts (server_of x) socket time p whole a' in
      let (queued, emptied) =
        sequence-only s'.fifo_sequencer
          (record { recv_time = time; request = (decode p).me_client_request }) waiting in
      (
        put_server x (recv_finished_callback sort s'),
        ap (λ z. bind_result (bind_result z then_finish) (put_back_server x)) run,
        record {
          requests = queued ∙ ap (λ q. write q (decode p).me_client_request) others.requests;
          responses = others.responses;
          updates = refl;
          engine = refl;
          own = own;
          sockets = others.sockets;
          numbers = others.numbers;
          sent = others.sent;
        },
      )

-- The client of a response is in range, and is the sender of the request or has a socket.
abbrev pub IsAnswerable : OrderServer → ClientId → (ClientId → ℕ) → MeClientResponse → Type 0
IsAnswerable s c socket_for q =
    (q.client_id < me_max_num_clients)
    × ((q.client_id ≡ c) ⊎ (s.cid_tcp_socket q.client_id ≡ some (socket_for q.client_id)))

reachable :
    (s s' : OrderServer) (c : ClientId) (socket_for : ClientId → ℕ)
    → s'.cid_tcp_socket c ≡ some (socket_for c)
    → ((i : ClientId) → i ≢ c → s'.cid_tcp_socket i ≡ s.cid_tcp_socket i)
    → (rs : List MeClientResponse) → All (IsAnswerable s c socket_for) rs
    → All (IsReachable s' socket_for) rs
reachable s s' c socket_for own others [] h = tt
reachable s s' c socket_for own others (q ∷ qs) (h, hs) =
    ((h.0, known (Bool-cases (q.client_id == c)) h.1), reachable s s' c socket_for own others qs hs)
  where
    own_socket : q.client_id ≡ c → s'.cid_tcp_socket q.client_id ≡ some (socket_for q.client_id)
    own_socket e = subst (λ i. s'.cid_tcp_socket i ≡ some (socket_for i)) (sym e) own

    known :
        ((q.client_id == c) ≡ true) ⊎ ((q.client_id == c) ≡ false)
        → (q.client_id ≡ c) ⊎ (s.cid_tcp_socket q.client_id ≡ some (socket_for q.client_id))
        → s'.cid_tcp_socket q.client_id ≡ some (socket_for q.client_id)
    known _ (inl e) = own_socket e
    known (inl b) (inr e) = own_socket ((==_iff q.client_id c).0 b)
    known (inr b) (inr e) = others q.client_id (λ same. ground (arith, same)) ∙ e

module _ (decode : List ℕ → OmClientRequest)
    (sort : List RecvTimeClientRequest → List RecvTimeClientRequest)
    (sort_one : (y : RecvTimeClientRequest) → sort (y ∷ []) ≡ y ∷ []) (x : Exchange) (socket : ℕ)
    (time : Nanos) (p : List ℕ) where
  abbrev request : MeClientRequest
  request = (decode p).me_client_request

  abbrev seen : MeOrderBook → LfQueue MeClientResponse → LfQueue MeMarketUpdate → State
  seen b q u = record { book = b; outgoing_ogw_responses = q; outgoing_md_updates = u }

  -- The engine's answer to the forwarded request.
  engine_answers :
      (x1 : Exchange) (s : State)
      → Forwarded x socket (decode p) x1
      → ltb request.ticker_id me_max_tickers ≡ true
      → book_call request.kind request (view (engine_of x) request.ticker_id) ≡ ok (tt, s)
      → process_client_request request (engine_of x1)
        ≡ ok (tt, put_back (engine_of x1) request.ticker_id s)
  unfolding process_client_request on_book
  engine_answers x1 s f inside run =
      let t = request.ticker_id in
      let book : State → Result (Unit {0} × State) = book_call request.kind request in
      let put : Result (Unit {0} × State) → Result (Unit {0} × MatchingEngine) =
        λ r. bind_result r (λ y. ok (tt, put_back (engine_of x1) t y.1)) in
      let same : view (engine_of x1) t ≡ view (engine_of x) t =
        ap
          (λ (m : MatchingEngine).
            seen (m.ticker_order_book t) x1.client_responses x1.market_updates)
          f.engine
        ∙ ap (λ q. seen (x.matching_engine.ticker_order_book t) q x1.market_updates) f.responses
        ∙ ap (λ u. seen (x.matching_engine.ticker_order_book t) x.client_responses u) f.updates in
      ap (λ b. if b then put (book (view (engine_of x1) t)) else err Fault.bad_index) inside
      ∙ ap (λ v. put (book v)) same
      ∙ ap put run

  abbrev then_engine : List ℕ × Exchange → Result (Unit {0} × Exchange)
  then_engine r = (engine_round >> response_round) r.1

  abbrev then_responses : Unit {0} × Exchange → Result (Unit {0} × Exchange)
  then_responses r = response_round r.1

  abbrev put_unit : Exchange → Unit {0} × OrderServer → Result (Unit {0} × Exchange)
  put_unit x2 r = ok (r.0, put_server x2 r.1)

  -- The bytes of one request come in at a socket, while no request and no response waits. The server
  -- accepts the request, its ticker is one of the exchange, and the book answers it with the responses
  -- `rs`, which the queue has room for and whose clients can all be reached. Then a round of the
  -- server, one of the engine and one more of the server send exactly these responses, in order, each
  -- to the socket of its client with that client's next number; the book and the market updates are
  -- those that the book's answer left, and nothing waits. A sort of one request leaves it as it is.
  pub served-answers :
      (s : State) (rs : List MeClientResponse) (socket_for : ClientId → ℕ)
      → length p ≡ request_bytes
      → IsAccepted x.order_server socket (decode p)
      → IsValid x.client_requests
      → contents x.client_requests ≡ []
      → IsValid x.client_responses
      → contents x.client_responses ≡ []
      → ltb request.ticker_id me_max_tickers ≡ true
      → book_call request.kind request (view (engine_of x) request.ticker_id) ≡ ok (tt, s)
      → s.outgoing_ogw_responses ≡ write_all x.client_responses rs
      → length rs ≤ x.client_responses.store_size
      → socket_for (client_of (decode p)) ≡ socket
      → All (IsAnswerable x.order_server (client_of (decode p)) socket_for) rs
      → (x' : Exchange) × (served decode sort socket time p x ≡ ok (tt, x'))
        × (x'.order_server.sent
            ≡ x.order_server.sent
              ++ deliveries socket_for x.order_server.cid_next_outgoing_seq_num rs)
        × (x'.matching_engine.ticker_order_book request.ticker_id ≡ s.book)
        × (x'.market_updates ≡ s.outgoing_md_updates)
        × (contents x'.client_requests ≡ [])
        × (contents x'.client_responses ≡ [])
  unfolding response_round size
  served-answers s rs socket_for whole a v1 e1 v2 e2 inside run answers room mine known =
      let (x1, received, f) = receive_round-forwards decode sort sort_one x socket time p whole a in
      let free : x.client_requests.num_elements ≡ 0 =
        sym (length-contents x.client_requests) ∙ ap length e1 in
      let space : x.client_requests.num_elements < x.client_requests.store_size =
        omega (arith, free, v1.nonempty_store) in
      let valid : IsValid x1.client_requests =
        subst IsValid (sym f.requests) (write-IsValid x.client_requests request v1 space) in
      let one : contents x1.client_requests ≡ request ∷ [] =
        ap contents f.requests
        ∙ contents-write x.client_requests request v1 space
        ∙ ap (λ l. l ++ (request ∷ [])) e1 in
      let e' : MatchingEngine = put_back (engine_of x1) request.ticker_id s in
      let (q, processed, empty, v') =
        engine_round-processes x1 request [] e' valid one (engine_answers x1 s f inside run) refl in
      let x2 : Exchange = put_engine x1 (record e' { incoming_requests = q }) in
      let none_waiting : x.client_responses.num_elements ≡ 0 =
        sym (length-contents x.client_responses) ∙ ap length e2 in
      let (filled, v'') =
        contents-write_all x.client_responses rs v2 (omega (arith, none_waiting, room)) in
      let valid2 : IsValid x2.client_responses = subst IsValid (sym answers) v'' in
      let waiting : contents x2.client_responses ≡ rs =
        ap contents answers ∙ filled ∙ ap (λ l. l ++ rs) e2 in
      let count : length rs ≡ x2.client_responses.num_elements =
        ap length (sym waiting) ∙ length-contents x2.client_responses in
      let (s3, sent, out, gone, same_sequencer) =
        send_responses-deliveries (x2.client_responses.num_elements + 1) (server_of x2) socket_for
          rs valid2 waiting (omega (arith, count))
          (reachable x.order_server (server_of x2) (client_of (decode p)) socket_for
            (f.own ∙ ap some (sym mine)) f.sockets rs known) in
      (
        put_server x2 s3,
        ap (λ r. bind_result r then_engine) received
            ∙ ap (λ r. bind_result r then_responses) processed
            ∙ ap (λ r. bind_result r (put_unit x2)) sent,
        out
            ∙ ap (λ l. l ++ deliveries socket_for x1.order_server.cid_next_outgoing_seq_num rs)
                f.sent
            ∙ ap (λ n. x.order_server.sent ++ deliveries socket_for n rs) f.numbers,
        ap (λ b. if b then s.book else x1.matching_engine.ticker_order_book request.ticker_id)
            (==-self request.ticker_id),
        refl,
        ap (λ z. contents z.incoming_requests) same_sequencer ∙ empty,
        gone,
      )
