-- ===== src/Tcp.antt =====
-- `TCPSocket` of common/tcp_socket.h and `TCPServer` of common/tcp_server.h. A socket is named by a
-- number, as a pointer to it would. What the operating system answers is an argument of each call:
-- the outcome of `recvmsg` for a socket, the events of `epoll_wait`, and the connections that `accept`
-- has to give.
pub mod Sending
pub mod Accepting
mod Tests
use low_latency_trading_engi.Base.{
  ℕ, ◌+◌, ◌*◌, Bool, true, false, ◌&&◌, ◌||◌, Option, none, some, List, [], ◌∷◌, ◌++◌, Fault,
  Result, ok, err, bind_result, M, ◌>>=◌, ◌>>◌, pure, modify, assert, leb, ◌==◌, if◌then◌else◌,
  update, is_some, length,
}
use low_latency_trading_engi.Ring.{has}
use low_latency_trading_engi.Sequencer.{Nanos}

abbrev pub tcp_buffer_size : ℕ
tcp_buffer_size = 64 * 1024 * 1024

-- No descriptor is -1. The two lists are the bytes of the buffers up to `next_send_valid_index_` and
-- `next_rcv_valid_index_`.
pub record TcpSocket : Type 0 where
  pub socket_fd : Option ℕ
  pub outbound : List ℕ
  pub inbound : List ℕ

-- A constructed socket.
abbrev pub no_socket : TcpSocket
no_socket = record { socket_fd = none; outbound = []; inbound = [] }

-- `TCPSocket::send`: `memcpy` does not look at the end of the buffer.
unfoldable pub send_bytes : List ℕ → TcpSocket → Result TcpSocket
send_bytes bytes s =
    if leb (length (s.outbound ++ bytes)) tcp_buffer_size
    then ok (record s { outbound = s.outbound ++ bytes })
    else err Fault.bad_index

-- What `recvmsg` answers: bytes with their time, 0, EAGAIN or EWOULDBLOCK, or another error.
pub data Recv : Type 0 where
  data_read : List ℕ → Nanos → Recv
  closed would_block errored : Recv

abbrev pub is_dead : Recv → Bool
is_dead closed = true
is_dead errored = true
is_dead _ = false

abbrev pub is_data : Recv → Bool
is_data (data_read bytes t) = true
is_data _ = false

pub record EpollEvent : Type 0 where
  pub socket : ℕ
  -- EPOLLIN, EPOLLOUT, and EPOLLERR or EPOLLHUP
  pub readable : Bool
  pub writable : Bool
  pub failed : Bool

-- The server, with the state `X` that its callbacks work on.
pub record TcpServer (X : Type 0) : Type 0 where
  pub sockets : ℕ → TcpSocket
  -- where `new` puts the next socket
  pub next_socket : ℕ
  pub listener_socket : ℕ
  -- the sockets on the epoll list
  pub monitored : List ℕ
  pub receive_sockets : List ℕ
  pub send_sockets : List ℕ
  -- the connections that wait at the listener for `accept`
  pub backlog : List ℕ
  -- what was given to `::send`, with the descriptor, oldest first
  pub handed : List (ℕ × List ℕ)
  pub user : X

-- `push_back` unless `find` finds it.
abbrev pub add_once : ℕ → List ℕ → List ℕ
add_once i xs = if has i xs then xs else xs ++ (i ∷ [])

-- `erase` of what `remove_if` finds dead.
unfoldable pub remove_dead : (ℕ → TcpSocket) → List ℕ → List ℕ
remove_dead sockets [] = []
remove_dead sockets (i ∷ is) =
    let rest = remove_dead sockets is in if is_some (sockets i).socket_fd then i ∷ rest else rest

module _ {X : Type 0} where
  abbrev pub set_socket : ℕ → TcpSocket → TcpServer X → TcpServer X
  set_socket i s t = record t { sockets = update t.sockets i s }

  -- The end of `TCPSocket::sendAndRecv`: what `::send` says of how much it took is only logged.
  unfoldable pub flush : ℕ → Option ℕ → List ℕ → TcpServer X → TcpServer X
  flush i none bytes t = set_socket i (record (t.sockets i) { outbound = [] }) t
  flush i (some fd) [] t = set_socket i (record (t.sockets i) { outbound = [] }) t
  flush i (some fd) (b ∷ bytes) t =
      record (set_socket i (record (t.sockets i) { outbound = [] }) t) {
        handed = t.handed ++ ((fd, b ∷ bytes) ∷ []);
      }

  abbrev pub close : ℕ → TcpServer X → TcpServer X
  close i t = set_socket i (record (t.sockets i) { socket_fd = none }) t

  module _ (recv_callback : ℕ → Nanos → List ℕ → M X (List ℕ)) where
    -- The bytes are appended and the callback takes what it can use.
    unfoldable pub receive : ℕ → Recv → M (TcpServer X) (Unit {0})
    receive i (data_read bytes time) t =
        bind_result (recv_callback i time ((t.sockets i).inbound ++ bytes) t.user) (λ r.
          ok (tt, record (set_socket i (record (t.sockets i) { inbound = r.0 }) t) { user = r.1 }))
    receive i closed t = ok (tt, t)
    receive i would_block t = ok (tt, t)
    receive i errored t = ok (tt, t)

    -- `TCPSocket::sendAndRecv`.
    unfoldable pub socket_send_and_recv : ℕ → Recv → M (TcpServer X) Bool
    socket_send_and_recv i answer t = bind_result (receive i answer t) (λ r.
        if is_dead answer
        then ok (false, close i r.1)
        else ok (is_data answer, flush i (r.1.sockets i).socket_fd (r.1.sockets i).outbound r.1))

    -- The loop over the sockets: whether one of them has read something.
    unfoldable pub send_and_recv_each : List ℕ → (ℕ → Recv) → M (TcpServer X) Bool
    send_and_recv_each [] answers t = ok (false, t)
    send_and_recv_each (i ∷ is) answers t =
        bind_result (socket_send_and_recv i (answers i) t)
          (λ r. bind_result (send_and_recv_each is answers r.1) (λ q. ok (r.0 || q.0, q.1)))

    -- `TCPServer::sendAndRecv`; `first` and `second` are what `recvmsg` answers in the two loops.
    unfoldable pub send_and_recv :
        (recv_finished_callback : X → X) → (first second : ℕ → Recv) → M (TcpServer X) (Unit {0})
    send_and_recv finished first second t =
        let alive = remove_dead t.sockets t.receive_sockets in
        bind_result (send_and_recv_each alive first (record t { receive_sockets = alive })) (λ r.
          let done = if r.0 then record r.1 { user = finished r.1.user } else r.1 in
          let writers = remove_dead done.sockets done.send_sockets in
          bind_result (send_and_recv_each writers second (record done { send_sockets = writers }))
            (λ q. ok (tt, q.1)))

  -- One connection that `accept` gives. `settable` is whether the options can be set on it, and
  -- whether it can be monitored.
  unfoldable pub accept_one : (settable : ℕ → Bool) → ℕ → M (TcpServer X) (Unit {0})
  accept_one settable fd t =
      if settable fd
      then ok (
        tt,
        record (set_socket t.next_socket (record no_socket { socket_fd = some fd }) t) {
          next_socket = t.next_socket + 1;
          monitored = t.monitored ++ (t.next_socket ∷ []);
          receive_sockets = add_once t.next_socket t.receive_sockets;
        },
      )
      else err Fault.assert_failed

  -- The loop around `accept`, until it returns -1.
  unfoldable pub accept_all : (settable : ℕ → Bool) → List ℕ → M (TcpServer X) (Unit {0})
  accept_all settable [] t = ok (tt, record t { backlog = [] })
  accept_all settable (fd ∷ fds) t =
      bind_result (accept_one settable fd t) (λ r. accept_all settable fds r.1)

  abbrev pub note_event : EpollEvent → TcpServer X → TcpServer X
  note_event e t =
      let readers = if e.readable then add_once e.socket t.receive_sockets else t.receive_sockets in
      record t {
        receive_sockets = if e.failed then add_once e.socket readers else readers;
        send_sockets = if e.writable then add_once e.socket t.send_sockets else t.send_sockets;
      }

  -- The loop of `poll` over the events. A readable listener only sets the mark and goes on with the
  -- next event, so `accept` is called at the events behind it.
  unfoldable pub poll_loop :
      (settable : ℕ → Bool)
      → (have_new_connection : Bool) → List EpollEvent
      → M (TcpServer X) (Unit {0})
  poll_loop settable have_new [] t = ok (tt, t)
  poll_loop settable have_new (e ∷ es) t =
      let noted = note_event e t in
      let next = poll_loop settable true es t in
      let after = if have_new then accept_all settable t.backlog noted else ok (tt, noted) in
      if e.readable && (e.socket == t.listener_socket)
      then next
      else bind_result after (λ r. poll_loop settable have_new es r.1)

  unfoldable pub poll : (settable : ℕ → Bool) → List EpollEvent → M (TcpServer X) (Unit {0})
  poll settable events = poll_loop settable false events

  -- `listen`: what `connect`, `epoll_create` and `epoll_ctl` return is given.
  unfoldable pub listen : (epoll_made connected added : Bool) → ℕ → M (TcpServer X) (Unit {0})
  listen epoll_made connected added fd t =
      if epoll_made && connected && added
      then ok (
        tt,
        record (set_socket t.listener_socket (record no_socket { socket_fd = some fd }) t) {
          monitored = t.listener_socket ∷ [];
        },
      )
      else err Fault.assert_failed

-- The constructor, with what its callbacks work on.
unfoldable pub make : {X : Type 0} → (listener : ℕ) → X → TcpServer X
make listener user = record {
  sockets = λ _. no_socket;
  next_socket = listener + 1;
  listener_socket = listener;
  monitored = [];
  receive_sockets = [];
  send_sockets = [];
  backlog = [];
  handed = [];
  user = user;
}

-- What the operating system does around one round of the order server's loop: the connections that
-- have arrived, the events, and the answers of `recvmsg`.
pub record Round : Type 0 where
  pub arrivals : List ℕ
  pub events : List EpollEvent
  pub first : ℕ → Recv
  pub second : ℕ → Recv

module _ {X : Type 0} (settable : ℕ → Bool) (recv_callback : ℕ → Nanos → List ℕ → M X (List ℕ))
    (finished : X → X) where
  -- `poll` and `sendAndRecv`, as the order server's thread calls them.
  unfoldable pub poll_round : Round → M (TcpServer X) (Unit {0})
  poll_round r t =
      bind_result (poll settable r.events (record t { backlog = t.backlog ++ r.arrivals }))
        (λ q. send_and_recv recv_callback finished r.first r.second q.1)

  unfoldable pub poll_rounds : List Round → M (TcpServer X) (Unit {0})
  poll_rounds [] t = ok (tt, t)
  poll_rounds (r ∷ rs) t = bind_result (poll_round r t) (λ q. poll_rounds rs q.1)
