-- ===== src/LfQueue/Knowledge.antt =====
-- What each of the two threads at an `LFQueue` of common/lf_queue.h knows of the shared memory, at
-- each place of its code, and that the steps of the other thread leave it true.
use low_latency_trading_engi.Base.{
  ℕ, ◌+◌, ◌%◌, ◌^◌, ◌<◌, ◌≡◌, ◌≢◌, refl, sym, ap, ◌∙◌, List, [], ◌∷◌, ◌++◌, update, arith,
}
use low_latency_trading_engi.LfQueue.{LfQueue, make}
use low_latency_trading_engi.LfQueue.Fifo.{IsValid, contents, make-IsValid}
use low_latency_trading_engi.LfQueue.Threads.{Producer, Consumer, System, initial}

module _ {T : Type 0} where
  -- The queue as it is between operations, with the indices of the last ones that ended.
  abbrev pub view : LfQueue T → (r w : ℕ) → LfQueue T
  view q r w = record q { next_read_index = r; next_write_index = w }

  abbrev pub after : LfQueue T → ℕ → ℕ
  after q i = (i + 1) % 2 ^ 64 % q.store_size

  abbrev pub HasRoom : LfQueue T → Type 0
  HasRoom q = q.num_elements < q.store_size

  -- What the producer knows.
  abbrev pub Writing : LfQueue T → ℕ → Producer T → Type 0
  Writing q w Producer.idle = q.next_write_index ≡ w
  Writing q w (Producer.addressed x i) = (q.next_write_index ≡ w) × (i ≡ w) × HasRoom q
  Writing q w (Producer.filled x) = (q.next_write_index ≡ w) × (q.store w ≡ x) × HasRoom q
  Writing q w (Producer.indexed x k) =
      (q.next_write_index ≡ w) × (k ≡ w) × (q.store w ≡ x) × HasRoom q
  Writing q w (Producer.moved x) = (q.next_write_index ≡ after q w) × (q.store w ≡ x) × HasRoom q

  -- The oldest unread element has been used.
  abbrev pub IsTaken : List T → List T → List T → Type 0
  IsTaken unread ended received =
      (x : T) × (rest : List T) × (unread ≡ x ∷ rest) × (received ≡ ended ++ (x ∷ []))

  -- What the consumer knows.
  abbrev pub Reading : LfQueue T → ℕ → List T → List T → List T → Consumer T → Type 0
  Reading q r unread ended received Consumer.idle = (q.next_read_index ≡ r) × (received ≡ ended)
  Reading q r unread ended received Consumer.nonempty =
      (q.next_read_index ≡ r) × (received ≡ ended) × (q.num_elements ≢ 0)
  Reading q r unread ended received (Consumer.addressed i) =
      (q.next_read_index ≡ r) × (received ≡ ended) × (q.num_elements ≢ 0) × (i ≡ r)
  Reading q r unread ended received (Consumer.sized i) =
      (q.next_read_index ≡ r) × (received ≡ ended) × (q.num_elements ≢ 0) × (i ≡ r)
  Reading q r unread ended received Consumer.taken =
      (q.next_read_index ≡ r) × IsTaken unread ended received
  Reading q r unread ended received (Consumer.indexed k) =
      (q.next_read_index ≡ r) × (k ≡ r) × IsTaken unread ended received
  Reading q r unread ended received Consumer.moved =
      (q.next_read_index ≡ after q r) × IsTaken unread ended received
  Reading q r unread ended received Consumer.checked =
      (q.next_read_index ≡ after q r) × IsTaken unread ended received
  Reading q r unread ended received Consumer.failed = ⊥

  pub record IsConsistent (s : System T) : Type 0 where
    pub r : ℕ
    pub w : ℕ
    -- what was received by the operations that have ended
    pub ended : List T
    pub valid : IsValid (view s.mem r w)
    pub fifo : ended ++ contents (view s.mem r w) ≡ s.sent
    pub writing : Writing s.mem w s.producer
    pub reading : Reading s.mem r (contents (view s.mem r w)) ended s.received s.consumer

  pub initial-IsConsistent : (x : T) (n : ℕ) → 0 < n → n < 2 ^ 63 → IsConsistent (initial x n)
  unfolding make
  initial-IsConsistent x n pos small = record {
    r = 0;
    w = 0;
    ended = [];
    valid = unfold make in (make-IsValid x n pos small).0;
    fifo = refl;
    writing = refl;
    reading = (refl, refl);
  }

  -- What one thread knows survives the steps of the other one.
  pub Reading-carries :
      (q q' : LfQueue T) (r : ℕ) (unread unread' ended received : List T) (p : Consumer T)
      → q'.next_read_index ≡ q.next_read_index
      → q'.store_size ≡ q.store_size
      → (q.num_elements ≢ 0 → q'.num_elements ≢ 0)
      → ((x : T) (rest : List T) → unread ≡ x ∷ rest → (rest' : List T) × (unread' ≡ x ∷ rest'))
      → Reading q r unread ended received p
      → Reading q' r unread' ended received p
  Reading-carries q q' r u u' e k Consumer.idle index size some first (a, b) = (index ∙ a, b)
  Reading-carries q q' r u u' e k Consumer.nonempty index size some first (a, b, c) =
      (index ∙ a, b, some c)
  Reading-carries q q' r u u' e k (Consumer.addressed i) index size some first (a, b, c, d) =
      (index ∙ a, b, some c, d)
  Reading-carries q q' r u u' e k (Consumer.sized i) index size some first (a, b, c, d) =
      (index ∙ a, b, some c, d)
  Reading-carries q q' r u u' e k Consumer.taken index size some first (a, (x, rest, b, c)) =
      let (rest', f) = first x rest b in (index ∙ a, (x, rest', f, c))
  Reading-carries q q' r u u' e k (Consumer.indexed i) index size some first
        (a, d, (x, rest, b, c)) =
      let (rest', f) = first x rest b in (index ∙ a, d, (x, rest', f, c))
  Reading-carries q q' r u u' e k Consumer.moved index size some first (a, (x, rest, b, c)) =
      let (rest', f) = first x rest b in
      (index ∙ a ∙ ap (λ n. (r + 1) % 2 ^ 64 % n) (sym size), (x, rest', f, c))
  Reading-carries q q' r u u' e k Consumer.checked index size some first (a, (x, rest, b, c)) =
      let (rest', f) = first x rest b in
      (index ∙ a ∙ ap (λ n. (r + 1) % 2 ^ 64 % n) (sym size), (x, rest', f, c))
  Reading-carries q q' r u u' e k Consumer.failed index size some first never = elim never [ ]

  pub Writing-carries :
      (q q' : LfQueue T) (w : ℕ) (p : Producer T)
      → q'.next_write_index ≡ q.next_write_index
      → q'.store_size ≡ q.store_size
      → q'.store w ≡ q.store w
      → (HasRoom q → HasRoom q')
      → Writing q w p
      → Writing q' w p
  Writing-carries q q' w Producer.idle index size cell room a = index ∙ a
  Writing-carries q q' w (Producer.addressed x i) index size cell room (a, b, c) =
      (index ∙ a, b, room c)
  Writing-carries q q' w (Producer.filled x) index size cell room (a, b, c) =
      (index ∙ a, cell ∙ b, room c)
  Writing-carries q q' w (Producer.indexed x k) index size cell room (a, b, c, d) =
      (index ∙ a, b, cell ∙ c, room d)
  Writing-carries q q' w (Producer.moved x) index size cell room (a, b, c) =
      (index ∙ a ∙ ap (λ n. (w + 1) % 2 ^ 64 % n) (sym size), cell ∙ b, room c)

  pub same_indices :
      (q q' : LfQueue T)
      → q'.store_size ≡ q.store_size
      → q'.next_read_index ≡ q.next_read_index
      → q'.next_write_index ≡ q.next_write_index
      → q'.num_elements ≡ q.num_elements
      → IsValid q
      → IsValid q'
  same_indices q q' size read written num v = record {
    nonempty_store = omega (arith, v, size);
    store_bound = omega (arith, v, size);
    read_in = omega (arith, v, size, read);
    count_in = omega (arith, v, size, num);
    write_at =
        written
        ∙ v.write_at
        ∙ ap (λ k. (k + q.num_elements) % q.store_size) (sym read)
        ∙ ap (λ k. (q'.next_read_index + k) % q.store_size) (sym num)
        ∙ ap (λ n. (q'.next_read_index + q'.num_elements) % n) (sym size);
  }

  pub cell_filled : (f : ℕ → T) (i w : ℕ) (x : T) → i ≡ w → update f i x w ≡ x
  cell_filled f i w x e = ground (arith, e)
