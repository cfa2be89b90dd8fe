-- ===== src/MemPool/Scan.antt =====
-- The search for the next free block, of common/mem_pool.h.
use low_latency_trading_engi.Base.{
  ℕ, zero, suc, ◌+◌, ◌-◌, ◌≤◌, ◌<◌, ◌≡◌, refl, ◌≢◌, ◌⊎◌, inl, inr, true, false, Fault, ok, err,
  arith, leb, ◌==◌, if◌then◌else◌, Bool-cases,
}
use low_latency_trading_engi.MemPool.{ObjectBlock, next_index, find_free}

-- How many steps the search takes from `a` to `b` in a vector of `n` blocks.
abbrev pub steps : ℕ → ℕ → ℕ → ℕ
steps n a b = if leb a b then b - a else b + n - a

steps_next : (n i j : ℕ) → i < n → j < n → i ≢ j → steps n (next_index n i) j + 1 ≡ steps n i j
steps_next n i j h hj ne = ground arith

module _ (n initial i j : ℕ) (h : i < n) (hj : j < n) (ne : i ≢ j)
    (ahead : (i ≡ initial) ⊎ (steps n i j < steps n i initial)) where
  -- A block that lies ahead of `i` is still ahead of the next index, unless that is the block's own.
  next_apart : (initial == next_index n i) ≡ false
  next_apart = ground arith

  next_ahead :
      (next_index n i ≡ initial) ⊎ (steps n (next_index n i) j < steps n (next_index n i) initial)
  next_ahead = ground arith

module _ {T : Type 0} (blocks : ℕ → ObjectBlock T) (n initial : ℕ) where
  -- Where the search ends, there is a free block of the vector.
  pub find_free_sound :
      (fuel i r : ℕ)
      → i < n
      → find_free fuel blocks n initial i ≡ ok r
      → (r < n) × ((blocks r).is_free ≡ true)
  unfolding find_free
  find_free_sound zero i r h e = absurd (cc)
  find_free_sound (suc fuel) i r h e = ground (arith, find_free_sound fuel (next_index n i) r)

  -- A free block other than the first is found.
  pub find_free_complete :
      (fuel i j : ℕ)
      → i < n
      → j < n
      → (blocks j).is_free ≡ true
      → steps n i j < fuel
      → ((i ≡ initial) ⊎ (steps n i j < steps n i initial))
      → (r : ℕ) × (find_free fuel blocks n initial i ≡ ok r)
  unfolding find_free
  find_free_complete zero i j h hj free f ahead = absurd (omega arith)
  find_free_complete (suc fuel) i j h hj free f ahead = elim (Bool-cases (blocks i).is_free) [
    | inl here ↦ (i, rw here refl)
    | inr used ↦
        let ne : i ≢ j = λ e. ground arith in
        let apart : (initial == next_index n i) ≡ false = next_apart n initial i j h hj ne ahead in
        rw (used, apart)
          (find_free_complete fuel (next_index n i) j (ground arith) hj free
            (ground (arith, steps_next n i j h hj ne)) (next_ahead n initial i j h hj ne ahead))
  ]

  -- With no free block the assertion at the end of the round fails.
  pub find_free_exhausted :
      (fuel i : ℕ)
      → i < n
      → initial < n
      → ((j : ℕ) → j < n → (blocks j).is_free ≡ false)
      → (if i == initial then n else steps n i initial) ≤ fuel
      → find_free fuel blocks n initial i ≡ err Fault.assert_failed
  unfolding find_free
  find_free_exhausted zero i h hi used f = absurd (ground arith)
  find_free_exhausted (suc fuel) i h hi used f =
      ground (arith, used i h, find_free_exhausted fuel (next_index n i))
