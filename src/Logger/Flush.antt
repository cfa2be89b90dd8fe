-- ===== src/Logger/Flush.antt =====
-- What `flushQueue` of common/logging.h writes to the file.
use low_latency_trading_engi.Base.{
  ℕ, zero, suc, ◌+◌, ◌≤◌, ◌<◌, ◌≡◌, Bool, refl, ap, ◌∙◌, inl, inr, false, some, none, List, [], ◌∷◌,
  ◌++◌, append-nil, append_assoc, ok, ◌==◌, if◌then◌else◌, bind_result, length, arith,
}
use low_latency_trading_engi.LfQueue.{write_all, get_next_to_read, update_read_index, size}
use low_latency_trading_engi.LfQueue.Fifo.{
  IsValid, contents, read_cases, contents-write_all, length-contents,
}
use low_latency_trading_engi.Logger.{
  LogElement, Argument, Queue, log, written, flush_next, flush_loop, flush_queue,
}
use low_latency_trading_engi.LfQueue.Accesses.{first-some}
use low_latency_trading_engi.Logger.Format.{pieces, line, log-line}

-- The text of a list of elements.
abbrev pub text_of : (number : LogElement → List ℕ) → List LogElement → List ℕ
text_of number [] = []
text_of number (x ∷ xs) = written number x ++ text_of number xs

module _ (number : LogElement → List ℕ) where
  -- A turn that finds nothing, and one that finds an element.
  flush_loop-none :
      (fuel : ℕ) (q : Queue) (file : List ℕ)
      → get_next_to_read q ≡ none
      → flush_loop number (suc fuel) q file ≡ ok (q, file)
  unfolding flush_loop flush_next
  flush_loop-none fuel q file e =
      ap (flush_next number (λ q' file'. flush_loop number fuel q' file') q file) e

  flush_loop-some :
      (fuel : ℕ) (q q1 : Queue) (file : List ℕ) (i : ℕ)
      → get_next_to_read q ≡ some i
      → (q.num_elements == 0) ≡ false
      → update_read_index q ≡ ok q1
      → flush_loop number (suc fuel) q file
        ≡ flush_loop number fuel q1 (file ++ written number (q.store i))
  unfolding flush_loop flush_next size
  flush_loop-some fuel q q1 file i next more read =
      let rest =
        bind_result (update_read_index q)
          (λ q'. flush_loop number fuel q' (file ++ written number (q.store i))) in
      ap (flush_next number (λ q' file'. flush_loop number fuel q' file') q file) next
      ∙ ap (λ (b : Bool). if b then ok (q, file) else rest) more
      ∙ ap
          (λ r.
            bind_result r (λ q'. flush_loop number fuel q' (file ++ written number (q.store i))))
          read

  flush_loop-contents :
      (fuel : ℕ) (q : Queue) (xs : List LogElement) (file : List ℕ)
      → IsValid q
      → contents q ≡ xs
      → length xs < fuel
      → (q' : Queue) × (flush_loop number fuel q file ≡ ok (q', file ++ text_of number xs))
        × IsValid q'
        × (contents q' ≡ [])
  flush_loop-contents zero q xs file v e f = absurd (omega arith)
  flush_loop-contents (suc fuel) q [] file v e f = elim (read_cases q v) [
    | inl (_, next, _) ↦ (q, flush_loop-none fuel q file next ∙ rw append-nil, v, e)
    | inr (i, q1, next, read, first, v1) ↦ absurd (cc)
  ]
  flush_loop-contents (suc fuel) q (x ∷ xs) file v e f = elim (read_cases q v) [
    | inl (nothing, _, _) ↦ absurd (cc)
    | inr (i, q1, next, read, first, v1) ↦
        let some_left = first-some q x xs e in
        let same : q.store i ≡ x = cc in
        let (q', run, v', done) =
          flush_loop-contents fuel q1 xs (file ++ written number (q.store i)) v1 (cc)
            (omega arith) in
        (
          q',
          flush_loop-some fuel q q1 file i next (ground (arith, some_left)) read
              ∙ run
              ∙ ap ok (
                  ap (λ t. (q', t))
                    (append_assoc file (written number (q.store i)) (text_of number xs)
                      ∙ ap (λ y. file ++ (written number y ++ text_of number xs)) same)),
          v',
          done,
        )
  ]

  -- Flushing a valid queue writes all of its elements to the file, in order, and leaves it empty.
  pub flush_queue-contents :
      (q : Queue) (file : List ℕ)
      → IsValid q
      → (q' : Queue) × (flush_queue number q file ≡ ok (q', file ++ text_of number (contents q)))
        × IsValid q'
        × (contents q' ≡ [])
  unfolding flush_queue size
  flush_queue-contents q file v =
      flush_loop-contents (q.num_elements + 1) q (contents q) file v refl
        (omega (arith, length-contents q))

  -- A line that is logged to an empty queue with room for it, and is then flushed, is in the file as
  -- the texts of the elements of its line, one after another, and the queue is empty again.
  pub flush-log :
      (s : List ℕ) (args : List Argument) (xs : List LogElement) (q : Queue) (file : List ℕ)
      → IsValid q
      → contents q ≡ []
      → line (pieces s) args ≡ ok xs
      → length xs ≤ q.store_size
      → (q' : Queue) × (bind_result (log s args q) (λ q1. flush_queue number q1 file)
          ≡ ok (q', file ++ text_of number xs))
        × IsValid q'
        × (contents q' ≡ [])
  flush-log s args xs q file v empty l room =
      let (all, v1) =
        contents-write_all q xs v (omega (arith, room, length-contents q, ap length empty)) in
      let (q', run, v', done) = flush_queue-contents (write_all q xs) file v1 in
      (
        q',
        ap (λ r. bind_result r (λ q1. flush_queue number q1 file))
              (log-line s args q ∙ ap (λ r. bind_result r (λ es. ok (write_all q es))) l)
            ∙ run
            ∙ ap (λ ys. ok (q', file ++ text_of number ys)) (all ∙ ap (λ ys. ys ++ xs) empty),
        v',
        done,
      )
