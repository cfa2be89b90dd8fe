-- ===== src/LfQueue/Threads.antt =====
-- The two threads at an `LFQueue` of common/lf_queue.h, interleaved at each access of the shared
-- memory: the producer's `*q.getNextToWriteTo() = x; q.updateWriteIndex();`, and the consumer's
-- `next = q.getNextToRead(); q.size() && next;`, its use of the element and `q.updateReadIndex();`.
-- `MarketDataPublisher::run` reads the element once more after `updateReadIndex()`; such a consumer is
-- not one of these. The indices and the count are atomic, with C++'s sequentially consistent order.
use low_latency_trading_engi.Base.{
  ℕ, ◌+◌, ◌-◌, ◌%◌, ◌^◌, ◌<◌, ◌≡◌, ◌≢◌, List, [], ◌∷◌, ◌++◌, update,
}
use low_latency_trading_engi.LfQueue.{LfQueue, make}

-- Where the producer is, and what it has read of the shared memory.
pub data Producer (T : Type 0) : Type 0 where
  idle : Producer T
  -- `getNextToWriteTo` has returned the address of this cell
  addressed : T → ℕ → Producer T
  -- the element is in its cell
  filled : T → Producer T
  -- `updateWriteIndex` has read the index
  indexed : T → ℕ → Producer T
  -- ... and has written it
  moved : T → Producer T

pub data Consumer (T : Type 0) : Type 0 where
  idle : Consumer T
  -- `getNextToRead` has seen a count other than 0
  nonempty : Consumer T
  -- ... and has returned the address of this cell
  addressed : ℕ → Consumer T
  -- `size` has been called again, and was not 0
  sized : ℕ → Consumer T
  -- the element has been used
  taken : Consumer T
  -- `updateReadIndex` has read the index
  indexed : ℕ → Consumer T
  -- ... has written it
  moved : Consumer T
  -- ... has passed the assertion
  checked : Consumer T
  -- ... or not
  failed : Consumer T

pub record System (T : Type 0) : Type 0 where
  pub mem : LfQueue T
  pub producer : Producer T
  pub consumer : Consumer T
  -- the elements whose sending has ended, and those used, oldest first
  pub sent : List T
  pub received : List T

-- One access by the producer. `begins` has the only condition that is not in the code, which does not
-- test for a full queue.
pub data Sends {T : Type 0} (s : System T) : System T → Type 0 where
  begins :
      (x : T)
      → s.producer ≡ Producer.idle
      → s.mem.num_elements < s.mem.store_size
      → Sends s (record s { producer = Producer.addressed x s.mem.next_write_index })
  fills :
      (x : T) (i : ℕ)
      → s.producer ≡ Producer.addressed x i
      → Sends s (record s {
        mem = record s.mem { store = update s.mem.store i x };
        producer = Producer.filled x;
      })
  reads_index :
      (x : T)
      → s.producer ≡ Producer.filled x
      → Sends s (record s { producer = Producer.indexed x s.mem.next_write_index })
  moves_index :
      (x : T) (k : ℕ)
      → s.producer ≡ Producer.indexed x k
      → Sends s (record s {
        mem = record s.mem { next_write_index = (k + 1) % 2 ^ 64 % s.mem.store_size };
        producer = Producer.moved x;
      })
  counts :
      (x : T)
      → s.producer ≡ Producer.moved x
      → Sends s (record s {
        mem = record s.mem { num_elements = (s.mem.num_elements + 1) % 2 ^ 64 };
        producer = Producer.idle;
        sent = s.sent ++ (x ∷ []);
      })

-- One access by the consumer.
pub data Receives {T : Type 0} (s : System T) : System T → Type 0 where
  sees_none : s.consumer ≡ Consumer.idle → s.mem.num_elements ≡ 0 → Receives s s
  sees_some :
      s.consumer ≡ Consumer.idle
      → s.mem.num_elements ≢ 0
      → Receives s (record s { consumer = Consumer.nonempty })
  addresses :
      s.consumer ≡ Consumer.nonempty
      → Receives s (record s { consumer = Consumer.addressed s.mem.next_read_index })
  stops :
      (i : ℕ)
      → s.consumer ≡ Consumer.addressed i
      → s.mem.num_elements ≡ 0
      → Receives s (record s { consumer = Consumer.idle })
  sizes :
      (i : ℕ)
      → s.consumer ≡ Consumer.addressed i
      → s.mem.num_elements ≢ 0
      → Receives s (record s { consumer = Consumer.sized i })
  takes :
      (i : ℕ)
      → s.consumer ≡ Consumer.sized i
      → Receives s
          (record s { consumer = Consumer.taken; received = s.received ++ (s.mem.store i ∷ []) })
  reads_index :
      s.consumer ≡ Consumer.taken
      → Receives s (record s { consumer = Consumer.indexed s.mem.next_read_index })
  moves_index :
      (k : ℕ)
      → s.consumer ≡ Consumer.indexed k
      → Receives s (record s {
        mem = record s.mem { next_read_index = (k + 1) % 2 ^ 64 % s.mem.store_size };
        consumer = Consumer.moved;
      })
  passes :
      s.consumer ≡ Consumer.moved
      → s.mem.num_elements ≢ 0
      → Receives s (record s { consumer = Consumer.checked })
  fails :
      s.consumer ≡ Consumer.moved
      → s.mem.num_elements ≡ 0
      → Receives s (record s { consumer = Consumer.failed })
  counts :
      s.consumer ≡ Consumer.checked
      → Receives s (record s {
        mem = record s.mem { num_elements = (s.mem.num_elements + 2 ^ 64 - 1) % 2 ^ 64 };
        consumer = Consumer.idle;
      })

abbrev pub initial : {T : Type 0} → T → ℕ → System T
initial x n = record {
  mem = make x n;
  producer = Producer.idle;
  consumer = Consumer.idle;
  sent = [];
  received = [];
}

-- The states that the two threads can reach from a constructed queue, in any interleaving.
pub data Reach {T : Type 0} (x : T) (n : ℕ) : System T → Type 0 where
  start : Reach x n (initial x n)
  sends : {s t : System T} → Reach x n s → Sends s t → Reach x n t
  receives : {s t : System T} → Reach x n s → Receives s t → Reach x n t
