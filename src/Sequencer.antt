-- ===== src/Sequencer.antt =====
-- `FIFOSequencer` of exchange/order_server/fifo_sequencer.h: requests are kept with the time at which
-- they came in, and sent on in the order of these times. `std::sort` is a parameter: of the library
-- function only its documented behaviour is used, and that does not fix the order of equal times.
pub mod Sorting
mod Tests
use low_latency_trading_engi.Base.{
  ℕ, zero, suc, ◌+◌, Bool, true, false, Option, none, some, List, [], ◌∷◌, Fault, ok, err, M, ℤ,
  ltb, ◌==◌, if◌then◌else◌, update,
}
use low_latency_trading_engi.LfQueue
use low_latency_trading_engi.LfQueue.{LfQueue}
use low_latency_trading_engi.Messages.{MeClientRequest}

abbrev pub me_max_pending_requests : ℕ
me_max_pending_requests = 1024

-- `Nanos` of common/time_utils.h.
abbrev pub Nanos : Type 0
Nanos = ℤ

pub record RecvTimeClientRequest : Type 0 where
  pub recv_time : Nanos
  pub request : MeClientRequest

pub record FifoSequencer : Type 0 where
  pub incoming_requests : LfQueue MeClientRequest
  pub pending_client_requests : ℕ → RecvTimeClientRequest
  pub pending_size : ℕ

unfoldable pub add_client_request : Nanos → MeClientRequest → M FifoSequencer (Unit {0})
add_client_request rx_time request s =
    if ltb s.pending_size me_max_pending_requests
    then ok (
      tt,
      record s {
        pending_client_requests =
            update s.pending_client_requests s.pending_size
              (record { recv_time = rx_time; request = request });
        pending_size = s.pending_size + 1;
      },
    )
    else err Fault.fatal

-- The first `n` cells of an array from index `i` on, and a list written back there.
abbrev pub cells : (ℕ → RecvTimeClientRequest) → ℕ → ℕ → List RecvTimeClientRequest
cells f i zero = []
cells f i (suc n) = f i ∷ cells f (suc i) n

abbrev pub put_cells :
    (ℕ → RecvTimeClientRequest) → ℕ → List RecvTimeClientRequest → ℕ → RecvTimeClientRequest
put_cells f i [] = f
put_cells f i (x ∷ xs) = put_cells (update f i x) (suc i) xs

abbrev pub pending : FifoSequencer → List RecvTimeClientRequest
pending s = cells s.pending_client_requests 0 s.pending_size

-- The loop over the sorted requests. It reads `pending_size_` in each round, and sets it to 0 inside.
unfoldable pub publish_loop : ℕ → ℕ → FifoSequencer → FifoSequencer
publish_loop zero i s = s
publish_loop (suc fuel) i s =
    let rest = publish_loop fuel (i + 1) (record s {
      incoming_requests = LfQueue.write s.incoming_requests (s.pending_client_requests i).request;
      pending_size = 0;
    }) in
    if ltb i s.pending_size then rest else s

module _ (sort : List RecvTimeClientRequest → List RecvTimeClientRequest) where
  -- The loop runs at most once for each pending request, and is given one round more.
  unfoldable pub sequence_and_publish : FifoSequencer → FifoSequencer
  sequence_and_publish s =
      if s.pending_size == 0
      then s
      else publish_loop (s.pending_size + 1) 0 (record s {
        pending_client_requests = put_cells s.pending_client_requests 0 (sort (pending s));
      })
