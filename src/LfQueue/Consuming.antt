-- ===== src/LfQueue/Consuming.antt =====
-- The consumer's steps at an `LFQueue` of common/lf_queue.h.
use low_latency_trading_engi.Base.{
  ℕ, ◌+◌, ◌-◌, ◌%◌, ◌^◌, ◌<◌, ◌≡◌, ◌≢◌, refl, sym, ap, subst, ◌∙◌, List, [], ◌∷◌, ◌++◌,
  append_assoc, arith,
}
use low_latency_trading_engi.LfQueue.{LfQueue}
use low_latency_trading_engi.LfQueue.Accesses.{
  contents-first, first-some, tail_eq, read_some-IsValid,
}
use low_latency_trading_engi.LfQueue.Fifo.{contents, after_read}
use low_latency_trading_engi.LfQueue.Threads.{Consumer, System, Receives}
use low_latency_trading_engi.LfQueue.Knowledge.{view, after, Reading, IsConsistent, Writing-carries}

one_less : (n size : ℕ) → n < size → size < 2 ^ 63 → n ≢ 0 → (n + 2 ^ 64 - 1) % 2 ^ 64 < size
one_less n size h b some = omega arith

module _ {T : Type 0} where
  -- The consumer.
  seen :
      (s : System T) (c : IsConsistent s) (p : Consumer T)
      → s.consumer ≡ p
      → Reading s.mem c.r (contents (view s.mem c.r c.w)) c.ended s.received p
  seen s c p at =
      subst (λ x. Reading s.mem c.r (contents (view s.mem c.r c.w)) c.ended s.received x) at
        c.reading

  -- A step of the consumer that writes nothing to the shared memory.
  goes_on :
      (s : System T) (c : IsConsistent s) (p : Consumer T) (xs : List T)
      → Reading s.mem c.r (contents (view s.mem c.r c.w)) c.ended xs p
      → IsConsistent (record s { consumer = p; received = xs })
  goes_on s c p xs reading = record {
    r = c.r;
    w = c.w;
    ended = c.ended;
    valid = c.valid;
    fifo = c.fifo;
    writing = c.writing;
    reading = reading;
  }

  pub Receives-IsConsistent : (s t : System T) → Receives s t → IsConsistent s → IsConsistent t
  unfolding after_read
  Receives-IsConsistent s t (Receives.sees_none at none) c = c
  Receives-IsConsistent s t (Receives.sees_some at some) c =
      let (i, all) = seen s c _ at in goes_on s c _ _ (i, all, some)
  Receives-IsConsistent s t (Receives.addresses at) c =
      let (i, all, some) = seen s c _ at in goes_on s c _ _ (i, all, some, i)
  Receives-IsConsistent s t (Receives.stops k at none) c =
      let (i, all, some, here) = seen s c _ at in goes_on s c _ _ (i, all)
  Receives-IsConsistent s t (Receives.sizes k at some) c =
      let (i, all, _, here) = seen s c _ at in goes_on s c _ _ (i, all, some, here)
  Receives-IsConsistent s t (Receives.takes k at) c =
      let (i, all, some, here) = seen s c _ at in
      let first = contents-first (view s.mem c.r c.w) c.valid some in
      goes_on s c _ _ (
        i,
        (
          s.mem.store k,
          contents (after_read (view s.mem c.r c.w)),
          first ∙ ap (λ j. s.mem.store j ∷ contents (after_read (view s.mem c.r c.w))) (sym here),
          ap (λ xs. xs ++ (s.mem.store k ∷ [])) all,
        ),
      )
  Receives-IsConsistent s t (Receives.reads_index at) c =
      let (i, used) = seen s c _ at in goes_on s c _ _ (i, i, used)
  Receives-IsConsistent s t (Receives.moves_index k at) c =
      let (i, here, used) = seen s c _ at in
      let q' : LfQueue T = record s.mem { next_read_index = after s.mem k } in
      record {
        r = c.r;
        w = c.w;
        ended = c.ended;
        valid = c.valid;
        fifo = c.fifo;
        writing = Writing-carries s.mem q' c.w s.producer refl refl refl (λ e. e) c.writing;
        reading = (ap (after s.mem) here, used);
      }
  Receives-IsConsistent s t (Receives.passes at some) c =
      let (i, used) = seen s c _ at in goes_on s c _ _ (i, used)
  Receives-IsConsistent s t (Receives.fails at none) c =
      let (i, (x, rest, first, all)) = seen s c _ at in
      absurd (first-some (view s.mem c.r c.w) x rest first none)
  Receives-IsConsistent s t (Receives.counts at) c =
      let (i, (x, rest, first, all)) = seen s c _ at in
      let q' : LfQueue T = record s.mem {
        num_elements = (s.mem.num_elements + 2 ^ 64 - 1) % 2 ^ 64;
      } in
      let some : s.mem.num_elements ≢ 0 = first-some (view s.mem c.r c.w) x rest first in
      let two = sym first ∙ contents-first (view s.mem c.r c.w) c.valid some in
      record {
        r = after s.mem c.r;
        w = c.w;
        ended = s.received;
        valid = read_some-IsValid (view s.mem c.r c.w) c.valid some;
        fifo =
            ap (λ xs. xs ++ contents (after_read (view s.mem c.r c.w))) all
            ∙ append_assoc c.ended (x ∷ []) (contents (after_read (view s.mem c.r c.w)))
            ∙ ap (λ xs. c.ended ++ (x ∷ xs)) (sym (tail_eq two))
            ∙ ap (λ xs. c.ended ++ xs) (sym first)
            ∙ c.fifo;
        writing =
            Writing-carries s.mem q' c.w s.producer refl refl refl
              (λ room. one_less s.mem.num_elements s.mem.store_size room c.valid.store_bound some)
              c.writing;
        reading = (i, refl);
      }
