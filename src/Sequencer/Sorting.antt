-- ===== src/Sequencer/Sorting.antt =====
-- What `sequenceAndPublish` of exchange/order_server/fifo_sequencer.h passes on.
use low_latency_trading_engi.Base.{
  ℕ, zero, suc, ◌+◌, ◌<◌, ◌≡◌, refl, ap, ◌∙◌, true, false, List, [], ◌∷◌, arith, ltb, lt→ltb, ◌==◌,
  ==-ne, if◌then◌else◌, update, length, Fault, ok, err, ◌≤◌, ◌++◌,
}
use native.Mathlib.Numerals.{add-one}
use low_latency_trading_engi.LfQueue.{write}
use low_latency_trading_engi.Messages.{MeClientRequest}
use low_latency_trading_engi.Sequencer.{
  Nanos, RecvTimeClientRequest, FifoSequencer, add_client_request, cells, put_cells, pending,
  publish_loop, sequence_and_publish, me_max_pending_requests,
}

-- `std::sort` neither makes nor loses elements.
abbrev pub KeepsLength : (List RecvTimeClientRequest → List RecvTimeClientRequest) → Type 0
KeepsLength sort = (xs : List RecvTimeClientRequest) → length (sort xs) ≡ length xs

publish_loop-stops :
    (fuel i : ℕ) (s : FifoSequencer) → s.pending_size ≡ 0 → publish_loop fuel i s ≡ s
unfolding publish_loop
publish_loop-stops zero i s e = refl
publish_loop-stops (suc fuel) i s e =
    let rest : FifoSequencer = publish_loop fuel (i + 1) (record s {
      incoming_requests = write s.incoming_requests (s.pending_client_requests i).request;
      pending_size = 0;
    }) in
    let none_left : ltb i s.pending_size ≡ false = ground arith in
    ap (λ b. if b then rest else s) none_left

put_cells-below :
    (f : ℕ → RecvTimeClientRequest) (i k : ℕ) (xs : List RecvTimeClientRequest)
    → k < i
    → put_cells f i xs k ≡ f k
put_cells-below f i k [] h = refl
put_cells-below f i k (x ∷ xs) h =
    put_cells-below (update f i x) (suc i) k xs (omega arith)
    ∙ rw (==-ne i k (λ e. omega arith)) refl

length-cells : (f : ℕ → RecvTimeClientRequest) (i n : ℕ) → length (cells f i n) ≡ n
length-cells f i zero = refl
length-cells f i (suc n) = ap suc (length-cells f (suc i) n)

-- The first round, and with it the whole loop.
publish_loop-once :
    (fuel : ℕ) (s : FifoSequencer)
    → 0 < s.pending_size
    → publish_loop (suc fuel) 0 s ≡ record s {
      incoming_requests = write s.incoming_requests (s.pending_client_requests 0).request;
      pending_size = 0;
    }
unfolding publish_loop
publish_loop-once fuel s h = rw (lt→ltb 0 s.pending_size h) (publish_loop-stops fuel 1 _ refl)

-- However many requests are pending, `sequenceAndPublish` sends on only the first of the sorted ones
-- and drops the others: its loop sets the number of pending requests to 0 in its first round.
pub sequence_and_publish-first :
    (sort : List RecvTimeClientRequest → List RecvTimeClientRequest) (s : FifoSequencer)
    (x : RecvTimeClientRequest) (xs : List RecvTimeClientRequest)
    → 0 < s.pending_size
    → sort (pending s) ≡ x ∷ xs
    → ((sequence_and_publish sort s).incoming_requests ≡ write s.incoming_requests x.request)
      × ((sequence_and_publish sort s).pending_size ≡ 0)
unfolding sequence_and_publish
sequence_and_publish-first sort s x xs h e =
    let run = once in (ap (λ t. t.incoming_requests) run, ap (λ t. t.pending_size) run)
  where
    sorted : FifoSequencer
    sorted = record s { pending_client_requests = put_cells s.pending_client_requests 0 (x ∷ xs) }

    once : sequence_and_publish sort s ≡ record sorted {
      incoming_requests = write s.incoming_requests x.request;
      pending_size = 0;
    }
    once =
        let sort_step : List RecvTimeClientRequest → FifoSequencer =
          λ l. record s { pending_client_requests = put_cells s.pending_client_requests 0 l } in
        let waiting : (s.pending_size == 0) ≡ false = ground arith in
        ap
          (λ b. if b then s else publish_loop (s.pending_size + 1) 0 (sort_step (sort (pending s))))
          waiting
        ∙ ap (λ l. publish_loop (s.pending_size + 1) 0 (sort_step l)) e
        ∙ ap (λ n. publish_loop n 0 sorted) (add-one s.pending_size)
        ∙ publish_loop-once s.pending_size sorted h
        ∙ ap
            (λ r. record sorted {
              incoming_requests = write s.incoming_requests r.request;
              pending_size = 0;
            })
            (put_cells-below (update s.pending_client_requests 0 x) 1 0 xs (omega arith))

cells-append :
    (f : ℕ → RecvTimeClientRequest) (i n k : ℕ) (x : RecvTimeClientRequest)
    → k ≡ i + n
    → cells (update f k x) i (suc n) ≡ cells f i n ++ (x ∷ [])
cells-append f i zero k x e = ap (λ b. (if b then x else f i) ∷ []) same
  where
    same : (k == i) ≡ true
    same = ground arith
cells-append f i (suc n) k x e =
    rw (==-ne k i (λ q. omega arith))
      (ap (λ l. f i ∷ l) (cells-append f (suc i) n k x (omega arith)))

-- A request is added behind the pending ones, with its time; the 1025th one ends the process.
pub add_client_request_lem :
    (rx_time : Nanos) (r : MeClientRequest) (s : FifoSequencer)
    → (s.pending_size < me_max_pending_requests
        → (s' : FifoSequencer) × (add_client_request rx_time r s ≡ ok (tt, s'))
          × (pending s' ≡ pending s ++ (record { recv_time = rx_time; request = r } ∷ []))
          × (s'.incoming_requests ≡ s.incoming_requests))
      × (me_max_pending_requests ≤ s.pending_size
          → add_client_request rx_time r s ≡ err Fault.fatal)
unfolding add_client_request
add_client_request_lem rx_time r s = (
  λ h. (
    record s {
      pending_client_requests =
          update s.pending_client_requests s.pending_size
            (record { recv_time = rx_time; request = r });
      pending_size = s.pending_size + 1;
    },
    rw (lt→ltb s.pending_size me_max_pending_requests h),
    rw add-one (
        cells-append s.pending_client_requests 0 s.pending_size s.pending_size
          (record { recv_time = rx_time; request = r }) (omega arith)),
    refl,
  ),
  λ h. ground arith,
)
