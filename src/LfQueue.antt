-- ===== src/LfQueue.antt =====
-- `LFQueue` of common/lf_queue.h: a circular array that one thread writes and another reads. The
-- vector is a function of its index and a size; a pointer into it is the index.
pub mod Fifo
pub mod Accesses
pub mod Threads
pub mod Knowledge
pub mod Producing
pub mod Consuming
pub mod Interleaved
mod Tests
use low_latency_trading_engi.Base.{
  ℕ, zero, ◌+◌, ◌-◌, ◌%◌, ◌^◌, Option, none, some, List, [], ◌∷◌, Fault, Result, ok, err, ◌==◌,
  if◌then◌else◌, update,
}

pub record LfQueue (T : Type 0) : Type 0 where
  pub store : ℕ → T
  pub store_size : ℕ
  pub next_write_index : ℕ
  pub next_read_index : ℕ
  pub num_elements : ℕ

module _ {T : Type 0} where
  -- The constructor fills the vector with `T()`.
  unfoldable pub make : T → ℕ → LfQueue T
  make default num_elems = record {
    store = λ _. default;
    store_size = num_elems;
    next_write_index = 0;
    next_read_index = 0;
    num_elements = 0;
  }

  -- The slot whose address `getNextToWriteTo` returns; there is no test for a full queue.
  unfoldable pub get_next_to_write_to : LfQueue T → ℕ
  get_next_to_write_to q = q.next_write_index

  -- The assignment through that address.
  unfoldable pub store_at : LfQueue T → ℕ → T → LfQueue T
  store_at q i x = record q { store = update q.store i x }

  unfoldable pub update_write_index : LfQueue T → LfQueue T
  update_write_index q = record q {
    next_write_index = (q.next_write_index + 1) % 2 ^ 64 % q.store_size;
    num_elements = (q.num_elements + 1) % 2 ^ 64;
  }

  unfoldable pub size : LfQueue T → ℕ
  size q = q.num_elements

  -- The slot to read, or a null pointer.
  unfoldable pub get_next_to_read : LfQueue T → Option ℕ
  unfolding size
  get_next_to_read q = if size q == 0 then none else some q.next_read_index

  unfoldable pub update_read_index : LfQueue T → Result (LfQueue T)
  update_read_index q =
      if q.num_elements == 0
      then err Fault.assert_failed
      else ok (record q {
        next_read_index = (q.next_read_index + 1) % 2 ^ 64 % q.store_size;
        num_elements = (q.num_elements + 2 ^ 64 - 1) % 2 ^ 64;
      })

  -- The three statements by which every producer of the program sends one element.
  unfoldable pub write : LfQueue T → T → LfQueue T
  unfolding get_next_to_write_to store_at update_write_index
  write q x = update_write_index (store_at q (get_next_to_write_to q) x)

  -- Elements sent one after another.
  unfoldable pub write_all : LfQueue T → List T → LfQueue T
  write_all q [] = q
  write_all q (x ∷ xs) = write_all (write q x) xs
