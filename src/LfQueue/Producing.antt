-- ===== src/LfQueue/Producing.antt =====
-- The producer's steps at an `LFQueue` of common/lf_queue.h.
use low_latency_trading_engi.Base.{
  ◌+◌, ◌%◌, ◌^◌, ◌≡◌, refl, sym, ap, subst, ◌∙◌, [], ◌∷◌, ◌++◌, append_assoc, update,
}
use low_latency_trading_engi.LfQueue.{LfQueue, store_at, update_write_index}
use low_latency_trading_engi.LfQueue.Accesses.{
  contents-store_at, contents-update_write_index, update_write_index-IsValid, some_more,
}
use low_latency_trading_engi.LfQueue.Fifo.{contents}
use low_latency_trading_engi.LfQueue.Threads.{Producer, System, Sends}
use low_latency_trading_engi.LfQueue.Knowledge.{
  view, after, Writing, IsConsistent, Reading-carries, same_indices, cell_filled,
}

module _ {T : Type 0} where
  -- The producer.
  known :
      (s : System T) (c : IsConsistent s) (p : Producer T) → s.producer ≡ p → Writing s.mem c.w p
  known s c p at = subst (λ x. Writing s.mem c.w x) at c.writing

  pub Sends-IsConsistent : (s t : System T) → Sends s t → IsConsistent s → IsConsistent t
  unfolding store_at update_write_index
  Sends-IsConsistent s t (Sends.begins x at room) c =
      let k = known s c _ at in
      record {
        r = c.r;
        w = c.w;
        ended = c.ended;
        valid = c.valid;
        fifo = c.fifo;
        writing = (k, k, room);
        reading = c.reading;
      }
  Sends-IsConsistent s t (Sends.fills x i at) c =
      let (k, here, room) = known s c _ at in
      let q' : LfQueue T = record s.mem { store = update s.mem.store i x } in
      let same : contents (view q' c.r c.w) ≡ contents (view s.mem c.r c.w) =
        ap (λ j. contents (view (store_at s.mem j x) c.r c.w)) here
        ∙ contents-store_at (view s.mem c.r c.w) x c.valid room in
      record {
        r = c.r;
        w = c.w;
        ended = c.ended;
        valid = same_indices (view s.mem c.r c.w) (view q' c.r c.w) refl refl refl refl c.valid;
        fifo = ap (λ u. c.ended ++ u) same ∙ c.fifo;
        writing = (k, cell_filled s.mem.store i c.w x here, room);
        reading =
            Reading-carries s.mem q' c.r _ _ c.ended s.received s.consumer refl refl (λ e. e)
              (λ y rest e. (rest, same ∙ e)) c.reading;
      }
  Sends-IsConsistent s t (Sends.reads_index x at) c =
      let (k, cell, room) = known s c _ at in
      record {
        r = c.r;
        w = c.w;
        ended = c.ended;
        valid = c.valid;
        fifo = c.fifo;
        writing = (k, k, cell, room);
        reading = c.reading;
      }
  Sends-IsConsistent s t (Sends.moves_index x k at) c =
      let (i, here, cell, room) = known s c _ at in
      let q' : LfQueue T = record s.mem { next_write_index = after s.mem k } in
      record {
        r = c.r;
        w = c.w;
        ended = c.ended;
        valid = c.valid;
        fifo = c.fifo;
        writing = (ap (after s.mem) here, cell, room);
        reading =
            Reading-carries s.mem q' c.r _ _ c.ended s.received s.consumer refl refl (λ e. e)
              (λ y rest e. (rest, e)) c.reading;
      }
  Sends-IsConsistent s t (Sends.counts x at) c =
      let (i, cell, room) = known s c _ at in
      let q' : LfQueue T = record s.mem { num_elements = (s.mem.num_elements + 1) % 2 ^ 64 } in
      let more : contents (view q' c.r (after s.mem c.w))
          ≡ contents (view s.mem c.r c.w) ++ (x ∷ []) =
        contents-update_write_index (view s.mem c.r c.w) c.valid room
        ∙ ap (λ y. contents (view s.mem c.r c.w) ++ (y ∷ [])) cell in
      record {
        r = c.r;
        w = after s.mem c.w;
        ended = c.ended;
        valid = update_write_index-IsValid (view s.mem c.r c.w) c.valid room;
        fifo =
            ap (λ u. c.ended ++ u) more
            ∙ sym (append_assoc c.ended _ _)
            ∙ ap (λ u. u ++ (x ∷ [])) c.fifo;
        writing = i;
        reading =
            Reading-carries s.mem q' c.r _ _ c.ended s.received s.consumer refl refl
              (λ e. some_more (view s.mem c.r c.w) c.valid room)
              (λ y rest e. (rest ++ (x ∷ []), more ∙ ap (λ u. u ++ (x ∷ [])) e)) c.reading;
      }
