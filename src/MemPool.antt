-- ===== src/MemPool.antt =====
-- `MemPool` of common/mem_pool.h: blocks allocated in advance. The vector is a function of its index
-- and a size, and a pointer to an object is the index of the block that it is the first member of.
pub mod Alloc
pub mod Scan
mod Tests
use low_latency_trading_engi.Base.{
  ℕ, zero, suc, ◌+◌, Bool, true, false, not, Fault, Result, ok, err, M, pure, ◌>>=◌, ◌>>◌, assert,
  modify, gets, bind_result, ltb, ◌==◌, if◌then◌else◌, update,
}

pub record ObjectBlock (T : Type 0) : Type 0 where
  pub object : T
  pub is_free : Bool

pub record MemPool (T : Type 0) : Type 0 where
  pub store : ℕ → ObjectBlock T
  pub store_size : ℕ
  pub next_free_index : ℕ

-- `++next_free_index_`, and back to 0 at the end of the vector.
abbrev pub next_index : ℕ → ℕ → ℕ
next_index n i = if i + 1 == n then 0 else i + 1

module _ {T : Type 0} where
  unfoldable pub make : T → ℕ → MemPool T
  make default num_elems = record {
    store = λ _. record { object = default; is_free = true };
    store_size = num_elems;
    next_free_index = 0;
  }

  -- The loop of `updateNextFreeIndex`: it stops at a free block, and asserts that it has not come
  -- round to where it began.
  unfoldable pub find_free : ℕ → (ℕ → ObjectBlock T) → ℕ → (initial : ℕ) → ℕ → Result ℕ
  find_free zero blocks n initial i = err Fault.no_fuel
  find_free (suc fuel) blocks n initial i =
      let rest = find_free fuel blocks n initial (next_index n i) in
      if (blocks i).is_free
      then ok i
      else if initial == next_index n i
      then err Fault.assert_failed
      else rest

  -- One round for each block, and one more to look at the block it starts from.
  unfoldable pub update_next_free_index : M (MemPool T) (Unit {0})
  update_next_free_index p =
      bind_result
        (find_free (p.store_size + 1) p.store p.store_size p.next_free_index p.next_free_index)
        (λ i. ok (tt, record p { next_free_index = i }))

  unfoldable pub allocate : T → M (MemPool T) ℕ
  unfolding update_next_free_index
  allocate x = do
    ret ← gets (λ (p : MemPool T). p.next_free_index)
    free ← gets (λ (p : MemPool T). (p.store ret).is_free)
    assert free
    modify (λ (p : MemPool T). record p {
      store = update p.store ret (record { object = x; is_free = false });
    })
    update_next_free_index
    pure ret

  -- The object stays in its block; only the mark changes.
  unfoldable pub deallocate : ℕ → M (MemPool T) (Unit {0})
  deallocate elem_index = do
    inside ← gets (λ (p : MemPool T). ltb elem_index p.store_size)
    assert inside
    free ← gets (λ (p : MemPool T). (p.store elem_index).is_free)
    assert (not free)
    modify (λ (p : MemPool T). record p {
      store =
          update p.store elem_index
            (record { object = (p.store elem_index).object; is_free = true });
    })

  -- The object behind a pointer into the pool.
  abbrev pub object_at : MemPool T → ℕ → T
  object_at p i = (p.store i).object

  -- A write through such a pointer.
  abbrev pub set_object : MemPool T → ℕ → T → MemPool T
  set_object p i x = record p {
    store = update p.store i (record { object = x; is_free = (p.store i).is_free });
  }
