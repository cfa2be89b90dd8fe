-- ===== src/Tcp/Accepting.antt =====
-- Which connections `poll` of common/tcp_server.cpp accepts.
use low_latency_trading_engi.Base.{
  ℕ, ◌≡◌, refl, sym, ap, ◌∙◌, Bool, true, false, ◌&&◌, List, [], ◌∷◌, ◌++◌, append_assoc,
  append-nil, All, M, ok, bind_result, ◌==◌, if◌then◌else◌, arith, some, update,
}
use low_latency_trading_engi.Ring.{has}
use low_latency_trading_engi.Sequencer.{Nanos}
use low_latency_trading_engi.Tcp.{
  Round, make, listen, poll_round, poll_rounds, no_socket, TcpServer, EpollEvent, note_event,
  accept_all, poll_loop, poll, remove_dead, send_and_recv_each, send_and_recv,
}

-- What `epoll_wait` may report for sockets that are monitored for input only.
abbrev pub IsReported : List ℕ → EpollEvent → Type 0
IsReported monitored e = (e.readable ≡ true) × (has e.socket monitored ≡ true)

module _ {X : Type 0} (settable : ℕ → Bool) where
  poll_loop-listener :
      (have_new : Bool) (es : List EpollEvent) (t : TcpServer X)
      → All (IsReported (t.listener_socket ∷ [])) es
      → poll_loop settable have_new es t ≡ ok (tt, t)
  unfolding poll_loop
  poll_loop-listener have_new [] t h = refl
  poll_loop-listener have_new (e ∷ es) t ((readable, at), h) =
      let skips : (e.readable && (e.socket == t.listener_socket)) ≡ true =
        ground (arith, readable, at) in
      ap
        (λ (b : Bool).
          if b
          then poll_loop settable true es t
          else bind_result
              (if have_new
                then accept_all settable t.backlog (note_event e t)
                else ok (tt, note_event e t))
              (λ r. poll_loop settable have_new es r.1))
        skips
      ∙ poll_loop-listener true es t h

-- A listening server that has accepted nothing.
abbrev pub waiting : {X : Type 0} → (listener fd : ℕ) → X → List ℕ → TcpServer X
waiting listener fd user backlog = record (make listener user) {
  sockets = update (λ _. no_socket) listener (record no_socket { socket_fd = some fd });
  monitored = listener ∷ [];
  backlog = backlog;
}

abbrev pub arrived : List Round → List ℕ
arrived [] = []
arrived (r ∷ rs) = r.arrivals ++ arrived rs

module _ {X : Type 0} (settable : ℕ → Bool) (recv_callback : ℕ → Nanos → List ℕ → M X (List ℕ))
    (finished : X → X) (l fd : ℕ) (user : X) where
  poll_round-waiting :
      (r : Round) (b : List ℕ)
      → All (IsReported (l ∷ [])) r.events
      → poll_round settable recv_callback finished r (waiting l fd user b)
        ≡ ok (tt, waiting l fd user (b ++ r.arrivals))
  unfolding poll_round poll send_and_recv send_and_recv_each remove_dead make
  poll_round-waiting r b h =
      ap (λ x. bind_result x (λ q. send_and_recv recv_callback finished r.first r.second q.1))
        (poll_loop-listener settable false r.events (waiting l fd user (b ++ r.arrivals)) h)

  poll_rounds-waiting :
      (rs : List Round) (b : List ℕ)
      → All (λ r. All (IsReported (l ∷ [])) r.events) rs
      → poll_rounds settable recv_callback finished rs (waiting l fd user b)
        ≡ ok (tt, waiting l fd user (b ++ arrived rs))
  unfolding poll_rounds
  poll_rounds-waiting [] b h = ap (λ xs. ok (tt, waiting l fd user xs)) (sym (append-nil b))
  poll_rounds-waiting (r ∷ rs) b (h, hs) =
      ap (λ x. bind_result x (λ q. poll_rounds settable recv_callback finished rs q.1))
        (poll_round-waiting r b h)
      ∙ poll_rounds-waiting rs (b ++ r.arrivals) hs
      ∙ ap (λ xs. ok (tt, waiting l fd user xs)) (append_assoc b r.arrivals (arrived rs))

-- A server that has been constructed, and whose call of `listen` has succeeded, never accepts a
-- connection: however many rounds its loop makes, and whatever arrives, as long as every event is one
-- of input at the one socket that is monitored, all connections wait at the listener and nothing else
-- has changed.
pub poll_rounds-never_accepts :
    {X : Type 0} (settable : ℕ → Bool) (recv_callback : ℕ → Nanos → List ℕ → M X (List ℕ))
    (finished : X → X) (l fd : ℕ) (user : X) (rs : List Round)
    → All (λ r. All (IsReported (l ∷ [])) r.events) rs
    → bind_result
        (listen true true true fd (make l user))
        (λ q. poll_rounds settable recv_callback finished rs q.1)
      ≡ ok (tt, waiting l fd user (arrived rs))
unfolding listen make
poll_rounds-never_accepts settable recv_callback finished l fd user rs h =
    poll_rounds-waiting settable recv_callback finished l fd user rs [] h
