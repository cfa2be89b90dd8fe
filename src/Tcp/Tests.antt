-- ===== src/Tcp/Tests.antt =====
-- A server that listens and a socket with bytes to send, for the theorems on common/tcp_server.cpp and
-- common/tcp_socket.cpp.
use low_latency_trading_engi.Base.{
  ℕ, suc, ◌≡◌, refl, true, false, some, List, [], ◌∷◌, ◌++◌, M, ok, bind_result, arith, update,
}
use low_latency_trading_engi.Sequencer.{Nanos}
use low_latency_trading_engi.Tcp.{
  TcpSocket, TcpServer, Recv, Round, make, listen, poll_rounds, set_socket, socket_send_and_recv,
  no_socket,
}
use low_latency_trading_engi.Tcp.Accepting.{waiting, poll_rounds-never_accepts}
use low_latency_trading_engi.Tcp.Sending.{send_all, socket_send_and_recv-sends}

-- A callback that counts its calls and uses all bytes.
abbrev count_calls : ℕ → Nanos → List ℕ → M ℕ (List ℕ)
count_calls i time bytes n = ok ([], suc n)

-- Two clients connect, and the listener is reported.
abbrev connects : Round
connects = record {
  arrivals = 11 ∷ 12 ∷ [];
  events = record { socket = 0; readable = true; writable = false; failed = false } ∷ [];
  first = λ _. Recv.would_block;
  second = λ _. Recv.would_block;
}

never_accepts_example :
    bind_result
      (listen true true true 5 (make 0 3))
      (λ q. poll_rounds (λ _. true) count_calls suc (connects ∷ connects ∷ []) q.1)
    ≡ ok (tt, waiting 0 5 3 (11 ∷ 12 ∷ 11 ∷ 12 ∷ []))
never_accepts_example =
    poll_rounds-never_accepts (λ _. true) count_calls suc 0 5 3 (connects ∷ connects ∷ [])
      (((refl, refl), tt), (((refl, refl), tt), tt))

-- A connection with one byte left to send.
abbrev connected : TcpServer ℕ
connected = record (make 0 3) {
  sockets =
      update (λ _. no_socket) 1 (record { socket_fd = some 11; outbound = 7 ∷ []; inbound = [] });
}

sends_example :
    (s : TcpSocket) × (t' : TcpServer ℕ) × (send_all
        ((8 ∷ []) ∷ (9 ∷ 10 ∷ []) ∷ [])
        (connected.sockets 1)
      ≡ ok s)
    × (socket_send_and_recv count_calls 1 Recv.would_block (set_socket 1 s connected)
        ≡ ok (false, t'))
    × (t'.handed ≡ connected.handed ++ ((11, 7 ∷ 8 ∷ 9 ∷ 10 ∷ []) ∷ []))
    × ((t'.sockets 1).outbound ≡ [])
sends_example =
    socket_send_and_recv-sends count_calls connected 1 11 ((8 ∷ []) ∷ (9 ∷ 10 ∷ []) ∷ []) 7
      (8 ∷ 9 ∷ 10 ∷ []) refl (omega arith) refl
