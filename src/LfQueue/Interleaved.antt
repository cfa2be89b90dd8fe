-- ===== src/LfQueue/Interleaved.antt =====
-- What holds of the two threads at an `LFQueue` of common/lf_queue.h, however they interleave.
use low_latency_trading_engi.Base.{
  ℕ, ◌^◌, ◌<◌, ◌≡◌, ◌≢◌, sym, ap, subst, ◌∙◌, List, [], ◌∷◌, ◌++◌, append_assoc,
}
use low_latency_trading_engi.LfQueue.{LfQueue}
use low_latency_trading_engi.LfQueue.Accesses.{cells_differ}
use low_latency_trading_engi.LfQueue.Fifo.{contents}
use low_latency_trading_engi.LfQueue.Threads.{
  Producer, Consumer, System, Reach, start, sends, receives,
}
use low_latency_trading_engi.LfQueue.Knowledge.{
  view, HasRoom, Writing, IsTaken, Reading, IsConsistent, initial-IsConsistent,
}
use low_latency_trading_engi.LfQueue.Producing.{Sends-IsConsistent}
use low_latency_trading_engi.LfQueue.Consuming.{Receives-IsConsistent}

module _ {T : Type 0} where
  Reach-IsConsistent :
      (x : T) (n : ℕ) → 0 < n → n < 2 ^ 63 → (s : System T) → Reach x n s → IsConsistent s
  Reach-IsConsistent x n pos small s start = initial-IsConsistent x n pos small
  Reach-IsConsistent x n pos small s (sends {s = t} r step) =
      Sends-IsConsistent t s step (Reach-IsConsistent x n pos small t r)
  Reach-IsConsistent x n pos small s (receives {s = t} r step) =
      Receives-IsConsistent t s step (Reach-IsConsistent x n pos small t r)

  sized_cell :
      (s : System T) (c : IsConsistent s) (j : ℕ)
      → s.consumer ≡ Consumer.sized j
      → (s.mem.num_elements ≢ 0) × (j ≡ c.r)
  sized_cell s c j at =
      let (_, _, some, here) =
        subst (λ p. Reading s.mem c.r (contents (view s.mem c.r c.w)) c.ended s.received p) at
          c.reading in
      (some, here)

  addressed_cell :
      (s : System T) (c : IsConsistent s) (x : T) (i : ℕ)
      → s.producer ≡ Producer.addressed x i
      → (i ≡ c.w) × HasRoom s.mem
  addressed_cell s c x i at =
      let (_, here, room) = subst (λ p. Writing s.mem c.w p) at c.writing in (here, room)

  -- In every state that a producer and a consumer can reach from a queue constructed with a
  -- size from 1 to 2 ^ 63 - 1, in any
  -- interleaving of their accesses in which the producer begins to send only when there is a free
  -- cell: the producer does not write the cell that the consumer reads.
  pub interleaved-Disjoint :
      (x : T) (n : ℕ)
      → 0 < n
      → n < 2 ^ 63
      → (s : System T) → Reach x n s
      → (y : T) (i j : ℕ) → s.producer ≡ Producer.addressed y i
      → s.consumer ≡ Consumer.sized j
      → i ≢ j
  interleaved-Disjoint x n pos small s r y i j at_write at_read =
      let c = Reach-IsConsistent x n pos small s r in
      let (here, room) = addressed_cell s c y i at_write in
      let (some, there) = sized_cell s c j at_read in
      λ e. cells_differ (view s.mem c.r c.w) c.valid room some (sym here ∙ e ∙ there)

  taken_rest :
      (unread ended received : List T)
      → IsTaken unread ended received
      → (rest : List T) × (received ++ rest ≡ ended ++ unread)
  taken_rest unread ended received (x, rest, first, all) = (
    rest,
    ap (λ xs. xs ++ rest) all
        ∙ append_assoc ended (x ∷ []) rest
        ∙ ap (λ xs. ended ++ xs) (sym first),
  )

  received_cases :
      (q : LfQueue T) (r : ℕ) (unread ended received : List T) (p : Consumer T)
      → Reading q r unread ended received p
      → (p ≢ Consumer.failed) × ((rest : List T) × (received ++ rest ≡ ended ++ unread))
  received_cases q r u ended received Consumer.idle (_, all) =
      (λ e. cc, (u, ap (λ xs. xs ++ u) all))
  received_cases q r u ended received Consumer.nonempty (_, all, _) =
      (λ e. cc, (u, ap (λ xs. xs ++ u) all))
  received_cases q r u ended received (Consumer.addressed i) (_, all, _, _) =
      (λ e. cc, (u, ap (λ xs. xs ++ u) all))
  received_cases q r u ended received (Consumer.sized i) (_, all, _, _) =
      (λ e. cc, (u, ap (λ xs. xs ++ u) all))
  received_cases q r u ended received Consumer.taken (_, used) =
      (λ e. cc, taken_rest u ended received used)
  received_cases q r u ended received (Consumer.indexed k) (_, _, used) =
      (λ e. cc, taken_rest u ended received used)
  received_cases q r u ended received Consumer.moved (_, used) =
      (λ e. cc, taken_rest u ended received used)
  received_cases q r u ended received Consumer.checked (_, used) =
      (λ e. cc, taken_rest u ended received used)
  received_cases q r u ended received Consumer.failed never = elim never [ ]

  -- In every state that a producer and a consumer can reach from a queue constructed with a
  -- size from 1 to 2 ^ 63 - 1, in any
  -- interleaving of their accesses in which the producer begins to send only when there is a free
  -- cell: the consumer's assertion has not failed, and the elements that it has used are the first of
  -- those that were sent, in order, each once.
  pub interleaved-fifo :
      (x : T) (n : ℕ)
      → 0 < n
      → n < 2 ^ 63
      → (s : System T) → Reach x n s
      → (s.consumer ≢ Consumer.failed) × ((unread : List T) × (s.received ++ unread ≡ s.sent))
  interleaved-fifo x n pos small s r =
      let c = Reach-IsConsistent x n pos small s r in
      let (alive, (rest, all)) =
        received_cases s.mem c.r (contents (view s.mem c.r c.w)) c.ended s.received s.consumer
          c.reading in
      (alive, (rest, all ∙ c.fifo))
