-- ===== src/Server.antt =====
-- `OrderServer` of exchange/order_server/order_server.h and exchange/order_server/order_server.cpp.
-- A socket is named by a number, as a pointer to it would; its inbound bytes are those up to
-- `next_rcv_valid_index_`. The layout of a packed struct is the compiler's: `decode` is a parameter.
pub mod Receive
pub mod Bytes
pub mod Deliver
pub mod Tests
use low_latency_trading_engi.Base.{
  ℕ, zero, suc, ◌+◌, Bool, true, false, Option, none, some, List, [], ◌∷◌, ◌++◌, Fault, ok, err,
  bind_result, M, ◌>>◌, pure, fail, modify, assert, ltb, leb, ◌==◌, if◌then◌else◌, update, same_ptr,
  length, take, drop,
}
use low_latency_trading_engi.Types.{ClientId, me_max_num_clients, next64}
use low_latency_trading_engi.LfQueue
use low_latency_trading_engi.LfQueue.{LfQueue}
use low_latency_trading_engi.Messages.{OmClientRequest, MeClientResponse, OmClientResponse}
use low_latency_trading_engi.Sequencer
use low_latency_trading_engi.Sequencer.{Nanos, FifoSequencer, RecvTimeClientRequest}

pub record OrderServer : Type 0 where
  pub outgoing_responses : LfQueue MeClientResponse
  pub running : Bool
  pub cid_next_outgoing_seq_num : ClientId → ℕ
  pub cid_next_exp_seq_num : ClientId → ℕ
  pub cid_tcp_socket : ClientId → Option ℕ
  pub fifo_sequencer : FifoSequencer
  -- what has been handed to `TCPSocket::send`, with the socket, oldest first
  pub sent : List (ℕ × OmClientResponse)

unfoldable pub make : FifoSequencer → LfQueue MeClientResponse → OrderServer
make sequencer responses = record {
  outgoing_responses = responses;
  running = false;
  cid_next_outgoing_seq_num = λ _. 1;
  cid_next_exp_seq_num = λ _. 1;
  cid_tcp_socket = λ _. none;
  fifo_sequencer = sequencer;
  sent = [];
}

-- `start` listens and has a thread made as well, and asserts that this worked.
unfoldable pub start : (thread_made : Bool) → M OrderServer (Unit {0})
start thread_made = do modify (λ (s : OrderServer). record s { running = true }); assert thread_made

unfoldable pub stop : OrderServer → OrderServer
stop s = record s { running = false }

abbrev pub socket_of : OrderServer → ClientId → ℕ → Option ℕ
socket_of s c socket = elim (s.cid_tcp_socket c) [ none ↦ some socket | some t ↦ some t ]

-- A client without a socket gets the one that its first request came by.
abbrev pub bind_socket : OrderServer → ClientId → ℕ → OrderServer
bind_socket s c socket = record s {
  cid_tcp_socket = update s.cid_tcp_socket c (socket_of s c socket);
}

unfoldable pub forward : Nanos → OmClientRequest → M OrderServer (Unit {0})
forward rx_time r s =
    let c = r.me_client_request.client_id in
    bind_result (Sequencer.add_client_request rx_time r.me_client_request s.fifo_sequencer) (λ q.
      ok (
        tt,
        record s {
          cid_next_exp_seq_num =
              update s.cid_next_exp_seq_num c (next64 (s.cid_next_exp_seq_num c));
          fifo_sequencer = q.1;
        },
      ))

-- The body of the loop of `recvCallback`, for one request. The three arrays have a cell for each
-- client and their subscripts are not checked.
unfoldable pub handle_request : (socket : ℕ) → Nanos → OmClientRequest → M OrderServer (Unit {0})
handle_request socket rx_time r s =
    let c = r.me_client_request.client_id in
    let bound = bind_socket s c socket in
    if ltb c me_max_num_clients
    then if same_ptr (bound.cid_tcp_socket c) (some socket)
      then if r.seq_num == bound.cid_next_exp_seq_num c
        then forward rx_time r bound
        else ok (tt, bound)
      else ok (tt, bound)
    else err Fault.bad_index

-- sizeof(OMClientRequest), packed: 8 + 1 + 4 + 4 + 8 + 1 + 8 + 4.
abbrev pub request_bytes : ℕ
request_bytes = 38

module _ (decode : List ℕ → OmClientRequest) where
  -- The loop over the inbound bytes; the result is what is left of them.
  unfoldable pub recv_loop : ℕ → ℕ → Nanos → List ℕ → M OrderServer (List ℕ)
  recv_loop zero socket rx_time bytes = fail Fault.no_fuel
  recv_loop (suc fuel) socket rx_time bytes =
      if leb request_bytes (length bytes)
      then (do
        handle_request socket rx_time (decode (take request_bytes bytes))
        recv_loop fuel socket rx_time (drop request_bytes bytes))
      else pure bytes

  -- Each round takes 38 bytes, so there are fewer rounds than bytes.
  unfoldable pub recv_callback : ℕ → Nanos → List ℕ → M OrderServer (List ℕ)
  recv_callback socket rx_time bytes = recv_loop (length bytes + 1) socket rx_time bytes

module _ (sort : List RecvTimeClientRequest → List RecvTimeClientRequest) where
  unfoldable pub recv_finished_callback : OrderServer → OrderServer
  recv_finished_callback s = record s {
    fifo_sequencer = Sequencer.sequence_and_publish sort s.fifo_sequencer;
  }

-- One round of the loop over the outgoing responses: the sequence number goes out first, then the
-- response, to the client's socket.
unfoldable pub send_response : ℕ → M OrderServer (Unit {0})
send_response i s =
    let r = s.outgoing_responses.store i in
    let c = r.client_id in
    if ltb c me_max_num_clients
    then elim (s.cid_tcp_socket c) [
      | none ↦ err Fault.assert_failed
      | some socket ↦ bind_result (LfQueue.update_read_index s.outgoing_responses) (λ q. ok (
        tt,
        record s {
          outgoing_responses = q;
          cid_next_outgoing_seq_num =
              update s.cid_next_outgoing_seq_num c (next64 (s.cid_next_outgoing_seq_num c));
          sent =
              s.sent
              ++ ((
                socket,
                record { seq_num = s.cid_next_outgoing_seq_num c; me_client_response = r },
              )
                  ∷ []);
        },
      ))
    ]
    else err Fault.bad_index

-- The loop: it ends when the queue is empty. It is given one round for each element, and one more.
unfoldable pub send_responses : ℕ → M OrderServer (Unit {0})
send_responses zero s = err Fault.no_fuel
send_responses (suc fuel) s = elim (LfQueue.get_next_to_read s.outgoing_responses) [
  | none ↦ ok (tt, s)
  | some i ↦ bind_result (send_response i s) (λ r. send_responses fuel r.1)
]
