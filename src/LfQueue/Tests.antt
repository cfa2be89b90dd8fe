-- ===== src/LfQueue/Tests.antt =====
-- A queue whose contents go round the end of its array, for the theorems on common/lf_queue.h.
use low_latency_trading_engi.Base.{
  ℕ, update, ◌+◌, ◌≡◌, ◌≢◌, ◌++◌, List, ◌⊎◌, refl, some, none, ok, err, Fault, [], ◌∷◌, arith,
}
use low_latency_trading_engi.LfQueue.{LfQueue, make, get_next_to_read, update_read_index, write_all}
use low_latency_trading_engi.LfQueue.Fifo.{IsValid, contents, contents-write_all, read_cases}
use low_latency_trading_engi.LfQueue.Threads.{
  Producer, Consumer, System, Sends, Receives, Reach, start, sends, receives, initial,
}
use low_latency_trading_engi.LfQueue.Interleaved.{interleaved-fifo, interleaved-Disjoint}

-- Three cells, the last one unread.
abbrev queue : LfQueue ℕ
queue = record {
  store = λ i. i + 10;
  store_size = 3;
  next_write_index = 0;
  next_read_index = 2;
  num_elements = 1;
}

queue-IsValid : IsValid queue
queue-IsValid = record {
  nonempty_store = omega arith;
  store_bound = omega arith;
  read_in = omega arith;
  count_in = omega arith;
  write_at = refl;
}

write_all_example :
    (contents (write_all queue (4 ∷ 5 ∷ [])) ≡ 12 ∷ 4 ∷ 5 ∷ [])
    × IsValid (write_all queue (4 ∷ 5 ∷ []))
write_all_example = contents-write_all queue (4 ∷ 5 ∷ []) queue-IsValid (omega arith)

read_example :
    ((contents queue ≡ [])
      × (get_next_to_read queue ≡ none)
      × (update_read_index queue ≡ err Fault.assert_failed))
    ⊎ ((i : ℕ) × (q' : LfQueue ℕ) × (get_next_to_read queue ≡ some i)
        × (update_read_index queue ≡ ok q')
        × (contents queue ≡ queue.store i ∷ contents q')
        × IsValid q')
read_example = read_cases queue queue-IsValid

-- A consumer finds the queue empty, a producer sends 7, and then both go on at once.
abbrev racing : System ℕ
racing = record {
  mem = record {
    store = update (λ _. 0) 0 7;
    store_size = 2;
    next_write_index = 1;
    next_read_index = 0;
    num_elements = 1;
  };
  producer = Producer.addressed 8 1;
  consumer = Consumer.sized 0;
  sent = 7 ∷ [];
  received = [];
}

racing-Reach : Reach 0 2 racing
unfolding make
racing-Reach =
    let r0 : Reach 0 2 (initial 0 2) = start in
    let r1 = receives r0 (Receives.sees_none refl refl) in
    let r2 = sends r1 (Sends.begins 7 refl (omega arith)) in
    let r3 = sends r2 (Sends.fills 7 0 refl) in
    let r4 = sends r3 (Sends.reads_index 7 refl) in
    let r5 = sends r4 (Sends.moves_index 7 0 refl) in
    let r6 = sends r5 (Sends.counts 7 refl) in
    let r7 = receives r6 (Receives.sees_some refl (omega arith)) in
    let r8 = receives r7 (Receives.addresses refl) in
    let r9 = sends r8 (Sends.begins 8 refl (omega arith)) in
    receives r9 (Receives.sizes 0 refl (omega arith))

interleaved_example :
    (racing.consumer ≢ Consumer.failed)
    × ((unread : List ℕ) × (racing.received ++ unread ≡ racing.sent))
interleaved_example = interleaved-fifo 0 2 (omega arith) (omega arith) racing racing-Reach

disjoint_example : ◌≢◌ {A = ℕ} 1 0
disjoint_example =
    interleaved-Disjoint 0 2 (omega arith) (omega arith) racing racing-Reach 8 1 0 refl refl

abbrev at_rest : System ℕ
at_rest = record {
  mem = queue;
  producer = Producer.idle;
  consumer = Consumer.idle;
  sent = 12 ∷ [];
  received = [];
}
