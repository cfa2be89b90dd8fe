-- ===== src/LfQueue/Accesses.antt =====
-- What the single accesses of an `LFQueue` of common/lf_queue.h do to its contents.
use native.Mathlib.Numerals.{add-one}
use low_latency_trading_engi.Base.{
  ◌+◌, ◌<◌, ◌≡◌, ◌≢◌, sym, ap, ◌∙◌, List, [], ◌∷◌, ◌++◌, update, arith, inl, inr, length,
}
use low_latency_trading_engi.LfQueue.{LfQueue, store_at, update_write_index, write}
use low_latency_trading_engi.LfQueue.Fifo.{
  IsValid, contents, window, no_wrap, count_cases, window-update, write-IsValid, after_read,
  contents-after_read, length-contents, after_read-IsValid, slots_differ, wrap_cases,
}

module _ {T : Type 0} where
  -- The cell to write next is not one that is unread.
  pub contents-store_at :
      (q : LfQueue T) (x : T)
      → IsValid q
      → q.num_elements < q.store_size
      → contents (store_at q q.next_write_index x) ≡ contents q
  unfolding store_at
  contents-store_at q x v room =
      ap (λ i. window (update q.store i x) q.store_size q.next_read_index q.num_elements) v.write_at
      ∙ window-update q.store q.store_size q.next_read_index q.num_elements q.num_elements x
          v.read_in room (omega arith)

  pub contents-update_write_index :
      (q : LfQueue T)
      → IsValid q
      → q.num_elements < q.store_size
      → contents (update_write_index q) ≡ contents q ++ (q.store q.next_write_index ∷ [])
  unfolding update_write_index
  contents-update_write_index q v room =
      ap (λ n. window q.store q.store_size q.next_read_index n)
        (no_wrap q.num_elements q.store_size (omega arith) v.store_bound ∙ add-one q.num_elements)
      ∙ ap (λ i. contents q ++ (q.store i ∷ [])) (sym v.write_at)

  pub update_write_index-IsValid :
      (q : LfQueue T) → IsValid q → q.num_elements < q.store_size → IsValid (update_write_index q)
  unfolding update_write_index write store_at
  update_write_index-IsValid q v room =
      let v' = write-IsValid q (q.store 0) v room in
      record {
        nonempty_store = v'.nonempty_store;
        store_bound = v'.store_bound;
        read_in = v'.read_in;
        count_in = v'.count_in;
        write_at = v'.write_at;
      }

  pub some_more :
      (q : LfQueue T)
      → IsValid q
      → q.num_elements < q.store_size
      → (update_write_index q).num_elements ≢ 0
  unfolding update_write_index
  some_more q v room = omega (arith, v, no_wrap q.num_elements q.store_size)

  -- A queue with elements begins with the one in the cell to read next.
  pub contents-first :
      (q : LfQueue T)
      → IsValid q
      → q.num_elements ≢ 0
      → contents q ≡ q.store q.next_read_index ∷ contents (after_read q)
  contents-first q v some = elim (count_cases q.num_elements) [
    | inl e ↦ absurd (some e)
    | inr (n, e) ↦ contents-after_read q v n e
  ]

  pub first-some :
      (q : LfQueue T) (x : T) (rest : List T) → contents q ≡ x ∷ rest → q.num_elements ≢ 0
  first-some q x rest e = omega (arith, sym (length-contents q) ∙ ap length e)

  pub tail_eq : {x y : T} {xs ys : List T} → x ∷ xs ≡ y ∷ ys → xs ≡ ys
  tail_eq e = cc

  pub read_some-IsValid : (q : LfQueue T) → IsValid q → q.num_elements ≢ 0 → IsValid (after_read q)
  read_some-IsValid q v some = elim (count_cases q.num_elements) [
    | inl e ↦ absurd (some e)
    | inr (n, e) ↦ after_read-IsValid q v n e
  ]

  -- The cell to write next is not the cell to read next.
  pub cells_differ :
      (q : LfQueue T)
      → IsValid q
      → q.num_elements < q.store_size
      → q.num_elements ≢ 0
      → q.next_write_index ≢ q.next_read_index
  cells_differ q v room some e =
      slots_differ q.next_read_index 0 q.num_elements q.store_size v.read_in (omega (arith, some))
        room
        (sym v.write_at ∙ e ∙ omega (arith, v, wrap_cases (q.next_read_index + 0) q.store_size))
