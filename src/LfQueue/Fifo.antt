-- ===== src/LfQueue/Fifo.antt =====
-- The circular array of common/lf_queue.h holds a first-in first-out queue, as long as the producer
-- never runs ahead of the consumer by more than the array's size.
use native.Mathlib.Nat.{mod-eq_of_lt, mod-eq-sub-mod}
use native.Mathlib.Decide.{dec_lt}
use native.Mathlib.Numerals.{add-one}
use low_latency_trading_engi.Base.{
  ℕ, zero, suc, ◌+◌, ◌-◌, ◌%◌, ◌^◌, ◌≤◌, ◌<◌, ◌≡◌, refl, ◌∙◌, ap, sym, false, ◌≢◌, ◌⊎◌, inl, inr,
  none, some, List, [], ◌∷◌, ◌++◌, append-nil, append_assoc, ok, arith, ◌==◌, update, length,
  length-append, ==-ne, ==-self, Fault, err,
}
use low_latency_trading_engi.LfQueue.{
  LfQueue, make, get_next_to_read, update_read_index, write, write_all,
}

-- One turn round an array of `cap` cells.
pub wrap_cases : (x cap : ℕ) → x < cap + cap → (x % cap ≡ x) ⊎ (x % cap + cap ≡ x)
wrap_cases x cap h = elim (dec_lt x cap) [
  | yes p ↦ inl (mod-eq_of_lt p)
  | no p ↦ inr (
      omega (
        arith,
        mod-eq-sub-mod {n = x} {m = cap} (omega arith),
        mod-eq_of_lt {n = x - cap} {m = cap} (omega arith),
      ))
]

pub slots_differ : (h k n cap : ℕ) → h < cap → k < n → n < cap → (h + n) % cap ≢ (h + k) % cap
slots_differ h k n cap hh hk hn =
    omega (arith, wrap_cases (h + n) cap (omega arith), wrap_cases (h + k) cap (omega arith))

next_slot : (h n cap : ℕ) → h < cap → n < cap → ((h + 1) % cap + n) % cap ≡ (h + suc n) % cap
next_slot h n cap hh hn = elim (wrap_cases (h + 1) cap (omega arith)) [
  | inl e ↦ rw e (ap (λ k. k % cap) (omega arith))
  | inr e ↦
      let z : (h + 1) % cap ≡ 0 = omega arith in
      rw z (
        omega
          (arith, wrap_cases (0 + n) cap (omega arith), wrap_cases (h + suc n) cap (omega arith)))
]

-- Neither the count nor an index wraps at 64 bits.
pub no_wrap : (n cap : ℕ) → n ≤ cap → cap < 2 ^ 63 → (n + 1) % 2 ^ 64 ≡ n + 1
no_wrap n cap h b = omega arith

pub slot_after : (r n cap : ℕ) → r < cap → n < cap → ((r + n) % cap + 1) % cap ≡ (r + (n + 1)) % cap
slot_after r n cap hr hn = elim (wrap_cases (r + n) cap (omega arith)) [
  | inl e ↦ rw e (ap (λ k. k % cap) (omega arith))
  | inr e ↦ omega (
    arith,
    wrap_cases ((r + n) % cap + 1) cap (omega arith),
    wrap_cases (r + (n + 1)) cap (omega arith),
  )
]

pub count_cases : (n : ℕ) → (n ≡ 0) ⊎ ((m : ℕ) × (n ≡ suc m))
count_cases zero = inl refl
count_cases (suc n) = inr (n, refl)

module _ {T : Type 0} where
  -- The `n` cells from index `h` on, in the order in which they were written.
  abbrev pub window : (ℕ → T) → ℕ → ℕ → ℕ → List T
  window f cap h zero = []
  window f cap h (suc n) = window f cap h n ++ (f ((h + n) % cap) ∷ [])

  -- What a consumer has still to read, oldest first.
  abbrev pub contents : LfQueue T → List T
  contents q = window q.store q.store_size q.next_read_index q.num_elements

  -- The indices are in range and agree with the count.
  pub record IsValid (q : LfQueue T) : Type 0 where
    pub nonempty_store : 0 < q.store_size
    pub store_bound : q.store_size < 2 ^ 63
    pub read_in : q.next_read_index < q.store_size
    pub count_in : q.num_elements ≤ q.store_size
    pub write_at : q.next_write_index ≡ (q.next_read_index + q.num_elements) % q.store_size

  pub window-update :
      (f : ℕ → T) (cap h n m : ℕ) (x : T)
      → h < cap
      → n < cap
      → m ≤ n
      → window (update f ((h + n) % cap) x) cap h m ≡ window f cap h m
  window-update f cap h n zero x hh hn hm = refl
  window-update f cap h n (suc m) x hh hn hm = rw (
    window-update f cap h n m x hh hn (omega arith),
    ==-ne _ _ (slots_differ h m n cap hh (omega arith) hn),
  )

  window-cons :
      (f : ℕ → T) (cap h n : ℕ)
      → h < cap
      → n < cap
      → window f cap h (suc n) ≡ f h ∷ window f cap ((h + 1) % cap) n
  window-cons f cap h zero hh hn =
      ap (λ k. f k ∷ []) (omega (arith, wrap_cases (h + 0) cap (omega arith)))
  window-cons f cap h (suc n) hh hn =
      rw (window-cons f cap h n hh (omega arith), next_slot h n cap hh (omega arith))

  pub length-window : (f : ℕ → T) (cap h n : ℕ) → length (window f cap h n) ≡ n
  length-window f cap h zero = refl
  length-window f cap h (suc n) =
      omega
        (arith, length-append (window f cap h n) (f ((h + n) % cap) ∷ []), length-window f cap h n)

  pub length-contents : (q : LfQueue T) → length (contents q) ≡ q.num_elements
  length-contents q = length-window q.store q.store_size q.next_read_index q.num_elements

  -- A constructed queue is valid and empty.
  pub make-IsValid :
      (x : T) (n : ℕ) → 0 < n → n < 2 ^ 63 → IsValid (make x n) × (contents (make x n) ≡ [])
  unfolding make
  make-IsValid x n h b = (
    record {
      nonempty_store = h;
      store_bound = b;
      read_in = h;
      count_in = omega arith;
      write_at = omega (arith, wrap_cases 0 n (omega arith));
    },
    refl,
  )

  -- Sending one element to a queue that has a free slot appends it to what is unread.
  pub contents-write :
      (q : LfQueue T) (x : T)
      → IsValid q
      → q.num_elements < q.store_size
      → contents (write q x) ≡ contents q ++ (x ∷ [])
  unfolding write
  contents-write q x v room = rw (
    no_wrap q.num_elements q.store_size (omega arith) v.store_bound,
    v.write_at,
    add-one,
    window-update q.store q.store_size q.next_read_index q.num_elements q.num_elements x v.read_in
        room (omega arith),
    ==-self,
  )

  -- ... and keeps the queue valid.
  pub write-IsValid :
      (q : LfQueue T) (x : T) → IsValid q → q.num_elements < q.store_size → IsValid (write q x)
  unfolding write
  write-IsValid q x v room = record {
    nonempty_store = v.nonempty_store;
    store_bound = v.store_bound;
    read_in = v.read_in;
    count_in = omega (arith, v, room);
    write_at = rw (
      no_wrap q.num_elements q.store_size (omega arith) v.store_bound,
      v.write_at,
      no_wrap ((q.next_read_index + q.num_elements) % q.store_size) q.store_size (omega arith)
          v.store_bound,
      slot_after q.next_read_index q.num_elements q.store_size v.read_in room,
    );
  }

  num-write :
      (q : LfQueue T) (x : T)
      → IsValid q
      → (xs : List T) → q.num_elements + suc (length xs) ≤ q.store_size
      → (write q x).num_elements + length xs ≤ (write q x).store_size
  unfolding write
  num-write q x v xs room = omega (arith, v, no_wrap q.num_elements q.store_size)

  -- Sending a batch to a valid queue that has room for all of it appends it in order, and the
  -- queue stays valid.
  pub contents-write_all :
      (q : LfQueue T) (xs : List T)
      → IsValid q
      → q.num_elements + length xs ≤ q.store_size
      → (contents (write_all q xs) ≡ contents q ++ xs) × IsValid (write_all q xs)
  unfolding write_all
  contents-write_all q [] v room = (rw append-nil, v)
  contents-write_all q (x ∷ xs) v room =
      let step = contents-write q x v (omega arith) in
      let v' = write-IsValid q x v (omega arith) in
      let (rest, v'') = contents-write_all (write q x) xs v' (num-write q x v xs room) in
      (rest ∙ rw (step, append_assoc), v'')

  -- The queue once its oldest element is read.
  unfoldable pub after_read : LfQueue T → LfQueue T
  after_read q = record q {
    next_read_index = (q.next_read_index + 1) % 2 ^ 64 % q.store_size;
    num_elements = (q.num_elements + 2 ^ 64 - 1) % 2 ^ 64;
  }

  pub contents-after_read :
      (q : LfQueue T)
      → IsValid q
      → (n : ℕ) → q.num_elements ≡ suc n
      → contents q ≡ q.store q.next_read_index ∷ contents (after_read q)
  unfolding after_read
  contents-after_read q v n e =
      let count : (q.num_elements + 2 ^ 64 - 1) % 2 ^ 64 ≡ n = omega arith in
      rw (
        count,
        no_wrap q.next_read_index q.store_size (omega arith) v.store_bound,
        e,
        window-cons q.store q.store_size q.next_read_index n v.read_in (omega arith),
      )

  pub after_read-IsValid :
      (q : LfQueue T) → IsValid q → (n : ℕ) → q.num_elements ≡ suc n → IsValid (after_read q)
  unfolding after_read
  after_read-IsValid q v n e =
      let count : (q.num_elements + 2 ^ 64 - 1) % 2 ^ 64 ≡ n = omega arith in
      let index = no_wrap q.next_read_index q.store_size (omega arith) v.store_bound in
      record {
        nonempty_store = v.nonempty_store;
        store_bound = v.store_bound;
        read_in = omega arith;
        count_in = omega arith;
        write_at =
            rw (count, index, v.write_at, e)
              (sym (next_slot q.next_read_index n q.store_size v.read_in (omega arith)));
      }

  -- Reading a valid queue: an empty one yields a null pointer, and `updateReadIndex` ends the
  -- process; otherwise the oldest element is read, `updateReadIndex` takes exactly that one off,
  -- and the queue stays valid.
  pub read_cases :
      (q : LfQueue T)
      → IsValid q
      → ((contents q ≡ [])
          × (get_next_to_read q ≡ none)
          × (update_read_index q ≡ err Fault.assert_failed))
        ⊎ ((i : ℕ) × (q' : LfQueue T) × (get_next_to_read q ≡ some i)
            × (update_read_index q ≡ ok q')
            × (contents q ≡ q.store i ∷ contents q')
            × IsValid q')
  unfolding get_next_to_read update_read_index after_read
  read_cases q v = elim (count_cases q.num_elements) [
    | inl e ↦ inl (rw e, rw e, rw e)
    | inr (n, e) ↦
        let is_some : (q.num_elements == 0) ≡ false = ground arith in
        inr (
          q.next_read_index,
          after_read q,
          rw is_some,
          rw (is_some, after_read),
          contents-after_read q v n e,
          after_read-IsValid q v n e,
        )
  ]
