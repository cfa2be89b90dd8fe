-- ===== src/MemPool/Tests.antt =====
-- A pool of three blocks, for the theorems on common/mem_pool.h.
use low_latency_trading_engi.Base.{ℕ, ◌≡◌, refl, ok, err, Fault, true, false, arith, update}
use low_latency_trading_engi.MemPool.{MemPool, allocate}
use low_latency_trading_engi.MemPool.Alloc.{IsValid, Allocated, allocate_lem, allocate_exhausted}

-- Block 0 is in use, blocks 1 and 2 are free.
abbrev partly_used : MemPool ℕ
partly_used = record {
  store =
      update (λ _. record { object = 0; is_free = true }) 0
        (record { object = 7; is_free = false });
  store_size = 3;
  next_free_index = 1;
}

-- Only block 1 is free.
abbrev nearly_full : MemPool ℕ
nearly_full = record {
  store =
      update (λ _. record { object = 7; is_free = false }) 1
        (record { object = 0; is_free = true });
  store_size = 3;
  next_free_index = 1;
}

partly_used-IsValid : IsValid partly_used
partly_used-IsValid = record { next_in = omega arith; next_free = refl }

allocate_example :
    (q : MemPool ℕ) × (allocate 9 partly_used ≡ ok (1, q)) × Allocated partly_used 9 q
allocate_example =
    allocate_lem partly_used 9 2 partly_used-IsValid (omega arith) (λ e. omega arith) refl

allocate_exhausted_example : allocate 9 nearly_full ≡ err Fault.assert_failed
allocate_exhausted_example =
    allocate_exhausted nearly_full 9 (record { next_in = omega arith; next_free = refl })
      (λ j h ne. ground arith)
