-- ===== src/MemPool/Alloc.antt =====
-- Allocation and deallocation of common/mem_pool.h, on every branch.
use low_latency_trading_engi.Base.{
  ℕ, ◌+◌, ◌<◌, ◌≡◌, refl, sym, ap, subst, ok-injective, ◌≢◌, ◌⊎◌, inl, inr, true, false, Fault,
  Result, Result-cases, ok, err, arith, lt→ltb, ltb, ◌==◌, Bool-cases, update, ==-ne, bind_result,
}
use low_latency_trading_engi.MemPool.{ObjectBlock, MemPool, make, find_free, allocate, deallocate}
use low_latency_trading_engi.MemPool.Scan.{find_free_sound, find_free_complete, find_free_exhausted}

module _ {T : Type 0} where
  -- The next index always names a free block: what the assertion of `allocate` tests.
  pub record IsValid (p : MemPool T) : Type 0 where
    pub next_in : p.next_free_index < p.store_size
    pub next_free : (p.store p.next_free_index).is_free ≡ true

  -- The pool with an object put into its next block.
  abbrev pub fill : MemPool T → T → ℕ → ObjectBlock T
  fill p x = update p.store p.next_free_index (record { object = x; is_free = false })

  -- What a successful allocation did.
  pub record Allocated (p : MemPool T) (x : T) (q : MemPool T) : Type 0 where
    pub valid : IsValid q
    pub store : q.store ≡ fill p x
    pub store_size : q.store_size ≡ p.store_size

  pub make-IsValid : (x : T) (n : ℕ) → 0 < n → IsValid (make x n)
  unfolding make
  make-IsValid x n h = record { next_in = h; next_free = refl }

  abbrev search : MemPool T → T → Result ℕ
  search p x =
      find_free (p.store_size + 1) (fill p x) p.store_size p.next_free_index p.next_free_index

  allocate-find :
      (p : MemPool T) (x : T)
      → IsValid p
      → allocate x p
        ≡ bind_result
            (search p x)
            (λ i. ok (p.next_free_index, record p { store = fill p x; next_free_index = i }))
  unfolding allocate
  allocate-find p x v = elim (Result-cases (search p x)) [
    | inl (i, e) ↦ rw (v.next_free, e)
    | inr (f, e) ↦ rw (v.next_free, e)
  ]

  -- In a valid pool with another free block than the next one, allocation returns the next block,
  -- which was free, and puts the object there; no other block changes, and the pool stays valid.
  pub allocate_lem :
      (p : MemPool T) (x : T) (j : ℕ)
      → IsValid p
      → j < p.store_size
      → j ≢ p.next_free_index
      → (p.store j).is_free ≡ true
      → (q : MemPool T) × (allocate x p ≡ ok (p.next_free_index, q)) × Allocated p x q
  allocate_lem p x j v hj ne free =
      let (i, e) =
        find_free_complete (fill p x) p.store_size p.next_free_index (p.store_size + 1)
          p.next_free_index j v.next_in hj (rw (==-ne _ _ (λ e. ne (sym e))) free) (ground arith)
          (inl refl) in
      let (lt, fr) =
        find_free_sound (fill p x) p.store_size p.next_free_index (p.store_size + 1)
          p.next_free_index i v.next_in e in
      (
        record p { store = fill p x; next_free_index = i },
        rw (allocate-find p x v, e),
        record { valid = record { next_in = lt; next_free = fr }; store = refl; store_size = refl },
      )

  -- In a valid pool without another free block than the next one, allocation reports that the
  -- pool is out of space: the last block of a pool is never handed out.
  pub allocate_exhausted :
      (p : MemPool T) (x : T)
      → IsValid p
      → ((j : ℕ) → j < p.store_size → j ≢ p.next_free_index → (p.store j).is_free ≡ false)
      → allocate x p ≡ err Fault.assert_failed
  allocate_exhausted p x v used = rw (
    allocate-find p x v,
    find_free_exhausted (fill p x) p.store_size p.next_free_index (p.store_size + 1)
        p.next_free_index v.next_in v.next_in none_free (ground arith),
  )
    where
      none_free : (j : ℕ) → j < p.store_size → (fill p x j).is_free ≡ false
      none_free j h = elim (Bool-cases (p.next_free_index == j)) [
        | inl e ↦ rw e
        | inr e ↦ rw e (used j h (ground arith))
      ]

  -- Whenever an allocation returns, it returned the next block and did what `Allocated` says.
  pub allocate-eq-ok :
      (p : MemPool T) (x : T) (r : ℕ) (q : MemPool T)
      → IsValid p
      → allocate x p ≡ ok (r, q)
      → (r ≡ p.next_free_index) × Allocated p x q
  allocate-eq-ok p x r q v e = elim (Result-cases (search p x)) [
    | inl (i, found) ↦
        let (lt, fr) =
          find_free_sound (fill p x) p.store_size p.next_free_index (p.store_size + 1)
            p.next_free_index i v.next_in found in
        let same = rw (allocate-find p x v, found) at e in
        let out : Allocated p x (record p { store = fill p x; next_free_index = i }) = record {
          valid = record { next_in = lt; next_free = fr };
          store = refl;
          store_size = refl;
        } in
        let pair = ok-injective same in
        (sym (ap (λ t. t.0) pair), subst (λ t. Allocated p x t) (ap (λ t. t.1) pair) out)
    | inr (f, failed) ↦ absurd (cc (allocate-find p x v))
  ]

  pub deallocate_lem :
      (p : MemPool T) (i : ℕ)
      → IsValid p
      → i < p.store_size
      → (p.store i).is_free ≡ false
      → (q : MemPool T) × (deallocate i p ≡ ok (tt, q))
        × IsValid q
        × (q.store ≡ update p.store i (record { object = (p.store i).object; is_free = true }))
        × (q.store_size ≡ p.store_size)
        × (q.next_free_index ≡ p.next_free_index)
  unfolding deallocate
  deallocate_lem p i v h used = (
    record p { store = update p.store i (record { object = (p.store i).object; is_free = true }) },
    rw (lt→ltb i p.store_size h, used),
    record { next_in = v.next_in; next_free = ground (arith, v.next_free) },
    refl,
    refl,
    refl,
  )

  -- A pointer from outside the pool, and one to a block that is free already, end the process.
  pub deallocate_rejects :
      (p : MemPool T) (i : ℕ)
      → (ltb i p.store_size ≡ false) ⊎ ((p.store i).is_free ≡ true)
      → deallocate i p ≡ err Fault.assert_failed
  unfolding deallocate
  deallocate_rejects p i bad = ground arith
