-- ===== src/Sequencer/Tests.antt =====
-- Two pending requests that came in out of order, for the theorems on
-- exchange/order_server/fifo_sequencer.h.
use low_latency_trading_engi.Base.{
  ◌≡◌, ◌<◌, ◌≤◌, refl, List, [], ◌∷◌, Fault, ok, err, pos, arith, update,
}
use low_latency_trading_engi.LfQueue.{write}
use low_latency_trading_engi.Messages.{default_request}
use low_latency_trading_engi.Sequencer.{
  RecvTimeClientRequest, FifoSequencer, add_client_request, pending, sequence_and_publish,
  me_max_pending_requests,
}
use low_latency_trading_engi.Sequencer.Sorting.{sequence_and_publish-first, add_client_request_lem}

abbrev early : RecvTimeClientRequest
early = record { recv_time = pos 10; request = record default_request { order_id = 1 } }

abbrev late : RecvTimeClientRequest
late = record { recv_time = pos 20; request = record default_request { order_id = 2 } }

-- Enough of a sort for two requests, of which the first is the later one.
abbrev swap : List RecvTimeClientRequest → List RecvTimeClientRequest
swap (x ∷ y ∷ zs) = y ∷ x ∷ zs
swap (x ∷ []) = x ∷ []
swap [] = []

abbrev sequencer : FifoSequencer
sequencer = record {
  incoming_requests = record {
    store = λ _. default_request;
    store_size = 8;
    next_write_index = 0;
    next_read_index = 0;
    num_elements = 0;
  };
  pending_client_requests = update (λ _. early) 0 late;
  pending_size = 2;
}

sequence_first_example :
    ((sequence_and_publish swap sequencer).incoming_requests
      ≡ write sequencer.incoming_requests early.request)
    × ((sequence_and_publish swap sequencer).pending_size ≡ 0)
sequence_first_example =
    sequence_and_publish-first swap sequencer early (late ∷ []) (omega arith) refl

add_request_example :
    (2 < me_max_pending_requests
      → (s' : FifoSequencer) × (add_client_request (pos 10) early.request sequencer ≡ ok (tt, s'))
        × (pending s' ≡ late ∷ early ∷ early ∷ [])
        × (s'.incoming_requests ≡ sequencer.incoming_requests))
    × (me_max_pending_requests ≤ 2
        → add_client_request (pos 10) early.request sequencer ≡ err Fault.fatal)
add_request_example = add_client_request_lem (pos 10) early.request sequencer
