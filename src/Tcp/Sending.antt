-- ===== src/Tcp/Sending.antt =====
-- What the outbound buffer of common/tcp_socket.cpp hands to the operating system.
use low_latency_trading_engi.Base.{
  ℕ, ◌+◌, ◌≤◌, ◌≡◌, refl, sym, ap, ◌∙◌, Bool, true, false, some, List, [], ◌∷◌, ◌++◌, append_assoc,
  append-nil, Fault, Result, ok, err, bind_result, M, leb, if◌then◌else◌, length, length-append,
  arith, update, ==-self,
}
use low_latency_trading_engi.Sequencer.{Nanos}
use low_latency_trading_engi.Tcp.{
  TcpSocket, TcpServer, Recv, tcp_buffer_size, send_bytes, set_socket, flush, receive,
  socket_send_and_recv,
}

-- Several messages put into the buffer one after another.
abbrev pub send_all : List (List ℕ) → TcpSocket → Result TcpSocket
send_all [] s = ok s
send_all (m ∷ ms) s = bind_result (send_bytes m s) (λ s'. send_all ms s')

abbrev pub joined : List (List ℕ) → List ℕ
joined [] = []
joined (m ∷ ms) = m ++ joined ms

le→leb : (a b : ℕ) → a ≤ b → leb a b ≡ true
le→leb a b h = ground arith

update_self : {A : Type 0} (f : ℕ → A) (i : ℕ) (v : A) → update f i v i ≡ v
update_self f i v = rw (==-self i)

send_all-joined :
    (ms : List (List ℕ)) (s : TcpSocket)
    → length s.outbound + length (joined ms) ≤ tcp_buffer_size
    → send_all ms s ≡ ok (record s { outbound = s.outbound ++ joined ms })
unfolding send_bytes
send_all-joined [] s h = ap (λ xs. ok (record s { outbound = xs })) (sym (append-nil s.outbound))
send_all-joined (m ∷ ms) s h =
    let one = length-append s.outbound m in
    let rest = length-append m (joined ms) in
    let s' : TcpSocket = record s { outbound = s.outbound ++ m } in
    ap (λ (b : Bool). bind_result (if b then ok s' else err Fault.bad_index) (λ t. send_all ms t))
      (le→leb _ _ (omega (arith, one, rest)))
    ∙ send_all-joined ms s' (omega (arith, one, rest))
    ∙ ap (λ xs. ok (record s { outbound = xs })) (append_assoc s.outbound m (joined ms))

-- Messages put into the outbound buffer of an open socket, as many as fit, and then a `sendAndRecv`
-- that finds nothing to read: the operating system is handed all the bytes of the buffer at once, the
-- earlier ones and those of the messages, in order, and the buffer is empty.
pub socket_send_and_recv-sends :
    {X : Type 0} (recv_callback : ℕ → Nanos → List ℕ → M X (List ℕ)) (t : TcpServer X) (i fd : ℕ)
    (ms : List (List ℕ)) (b : ℕ) (bytes : List ℕ)
    → (t.sockets i).socket_fd ≡ some fd
    → length (t.sockets i).outbound + length (joined ms) ≤ tcp_buffer_size
    → (t.sockets i).outbound ++ joined ms ≡ b ∷ bytes
    → (s : TcpSocket) × (t' : TcpServer X) × (send_all ms (t.sockets i) ≡ ok s)
      × (socket_send_and_recv recv_callback i Recv.would_block (set_socket i s t) ≡ ok (false, t'))
      × (t'.handed ≡ t.handed ++ ((fd, b ∷ bytes) ∷ []))
      × ((t'.sockets i).outbound ≡ [])
unfolding socket_send_and_recv receive flush
socket_send_and_recv-sends recv_callback t i fd ms b bytes open_fd room all =
    let s : TcpSocket = record (t.sockets i) { socket_fd = some fd; outbound = b ∷ bytes } in
    (
      s,
      flush i (some fd) (b ∷ bytes) (set_socket i s t),
      send_all-joined ms (t.sockets i) room
          ∙ ap (λ xs. ok (record (t.sockets i) { outbound = xs })) all
          ∙ ap (λ f. ok (record (t.sockets i) { socket_fd = f; outbound = b ∷ bytes })) open_fd,
      ap (λ x. ok (false, flush i x.socket_fd x.outbound (set_socket i s t)))
          (update_self t.sockets i s),
      refl,
      ap (λ x. x.outbound) (update_self (update t.sockets i s) i _),
    )
