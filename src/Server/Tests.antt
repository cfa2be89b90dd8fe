-- ===== src/Server/Tests.antt =====
-- A server that client 2 has reached by socket 7, for the theorems on
-- exchange/order_server/order_server.h.
use low_latency_trading_engi.Base.{
  ℕ, zero, suc, List, ◌++◌, bind_result, ◌≡◌, refl, false, some, none, [], ◌∷◌, ok, inl, pos, arith,
  update,
}
use low_latency_trading_engi.Messages.{OmClientRequest, default_request, default_response}
use low_latency_trading_engi.Sequencer.{FifoSequencer, pending}
use low_latency_trading_engi.Server.{OrderServer, handle_request, recv_callback}
use low_latency_trading_engi.Messages.{MeClientResponse}
use low_latency_trading_engi.LfQueue.Fifo.{IsValid, contents}
use low_latency_trading_engi.Server.{send_responses}
use low_latency_trading_engi.Server.Deliver.{send_responses-deliveries}
use low_latency_trading_engi.Server.Bytes.{
  handle_requests, recv_callback-cut, recv_callback-requests,
}
use low_latency_trading_engi.Server.Receive.{SameOthers, handle_request-accepts}

abbrev sequencer : FifoSequencer
sequencer = record {
  incoming_requests = record {
    store = λ _. default_request;
    store_size = 8;
    next_write_index = 0;
    next_read_index = 0;
    num_elements = 0;
  };
  pending_client_requests = λ _. record { recv_time = pos 0; request = default_request };
  pending_size = 0;
}

abbrev pub server : OrderServer
server = record {
  outgoing_responses = record {
    store = λ _. default_response;
    store_size = 8;
    next_write_index = 0;
    next_read_index = 0;
    num_elements = 0;
  };
  running = false;
  cid_next_outgoing_seq_num = λ _. 1;
  cid_next_exp_seq_num = λ _. 1;
  cid_tcp_socket = update (λ _. none) 2 (some 7);
  fifo_sequencer = sequencer;
  sent = [];
}

abbrev from_client : (client seq_num : ℕ) → OmClientRequest
from_client client seq_num = record {
  seq_num = seq_num;
  me_client_request = record default_request { client_id = client };
}

first_request_example :
    (s' : OrderServer) × (handle_request 9 (pos 5) (from_client 3 1) server ≡ ok (tt, s'))
    × (pending s'.fifo_sequencer
        ≡ record { recv_time = pos 5; request = (from_client 3 1).me_client_request } ∷ [])
    × (s'.cid_next_exp_seq_num 3 ≡ 2)
    × (s'.cid_tcp_socket 3 ≡ some 9)
    × SameOthers server 3 s'
first_request_example =
    handle_request-accepts server 9 (pos 5) (from_client 3 1) (omega arith) (inl refl) refl
      (omega arith)

abbrev to_client : ℕ → MeClientResponse
to_client order = record default_response { client_id = 2; client_order_id = order }

-- Two responses wait for client 2.
abbrev responding : OrderServer
responding = record server {
  outgoing_responses = record {
    store = update (λ _. to_client 5) 0 (to_client 4);
    store_size = 8;
    next_write_index = 2;
    next_read_index = 0;
    num_elements = 2;
  };
}

responding-IsValid : IsValid responding.outgoing_responses
responding-IsValid = record {
  nonempty_store = omega arith;
  store_bound = omega arith;
  read_in = omega arith;
  count_in = omega arith;
  write_at = refl;
}

deliver_example :
    (s' : OrderServer) × (send_responses 3 responding ≡ ok (tt, s'))
    × (s'.sent
        ≡ (7, record { seq_num = 1; me_client_response = to_client 4 })
          ∷ (7, record { seq_num = 2; me_client_response = to_client 5 })
          ∷ [])
    × (contents s'.outgoing_responses ≡ [])
    × (s'.fifo_sequencer ≡ responding.fifo_sequencer)
deliver_example =
    send_responses-deliveries 3 responding (λ _. 7) (to_client 4 ∷ to_client 5 ∷ [])
      responding-IsValid refl (omega arith) ((omega arith, refl), ((omega arith, refl), tt))

-- A request's bytes: the first one tells its number, and the client is 3.
abbrev decode : List ℕ → OmClientRequest
decode [] = from_client 3 0
decode (b ∷ bs) = from_client 3 b

abbrev bytes : (count b : ℕ) → List ℕ
bytes zero b = []
bytes (suc n) b = b ∷ bytes n b

cut_example :
    bind_result
      (recv_callback decode 9 (pos 5) ((bytes 38 1 ++ []) ++ bytes 20 2) server)
      (λ r. recv_callback decode 9 (pos 6) (r.0 ++ (bytes 18 2 ++ ([] ++ bytes 3 3))) r.1)
    ≡ bind_result
        (bind_result
          (handle_requests decode 9 (pos 5) (from_client 3 1 ∷ []) server)
          (λ r. handle_requests decode 9 (pos 6) (from_client 3 2 ∷ []) r.1))
        (λ r. ok (bytes 3 3, r.1))
cut_example =
    recv_callback-cut decode 9 (pos 5) (pos 6) (bytes 38 1 ∷ []) (bytes 20 2) (bytes 18 2) []
      (bytes 3 3) server (refl, tt) (omega arith) refl tt (omega arith)

requests_example :
    recv_callback decode 9 (pos 5) ((bytes 38 1 ++ (bytes 38 2 ++ [])) ++ bytes 3 3) server
    ≡ bind_result
        (handle_requests decode 9 (pos 5) (from_client 3 1 ∷ from_client 3 2 ∷ []) server)
        (λ r. ok (bytes 3 3, r.1))
requests_example =
    recv_callback-requests decode 9 (pos 5) (bytes 38 1 ∷ bytes 38 2 ∷ []) (bytes 3 3) server
      (refl, (refl, tt)) (omega arith)
