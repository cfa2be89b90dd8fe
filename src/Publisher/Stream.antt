-- ===== src/Publisher/Stream.antt =====
-- What the loop of exchange/market_data/market_data_publisher.cpp sends on both of its ways out.
use low_latency_trading_engi.Base.{
  ℕ, zero, suc, ◌+◌, ◌<◌, ◌≡◌, refl, ap, subst, sym, ◌∙◌, inl, inr, List, [], ◌∷◌, ◌++◌, append-nil,
  append_assoc, length, length-append, take, ok, arith, lt→ltb,
}
use low_latency_trading_engi.Types.{next64}
use low_latency_trading_engi.LfQueue.{LfQueue, update_read_index, write, write_all}
use low_latency_trading_engi.LfQueue.Fifo.{IsValid, contents, read_cases}
use low_latency_trading_engi.Messages.{MeMarketUpdate, MdpMarketUpdate}
use low_latency_trading_engi.Publisher.{
  MarketDataPublisher, mcast_buffer_size, pointer_bytes, send, publish, publish_all,
}

-- The updates with the numbers that they are given, from `n` on.
abbrev pub numbered_from : ℕ → List MeMarketUpdate → List MdpMarketUpdate
numbered_from n [] = []
numbered_from n (u ∷ us) =
    record { seq_num = n; me_market_update = u } ∷ numbered_from (next64 n) us

module _ (encode : MeMarketUpdate → List ℕ) (encode_size : ℕ → List ℕ) where
  -- A number, and as many bytes of its update as a pointer has.
  abbrev pub packet : ℕ → MeMarketUpdate → List ℕ
  packet n u = encode_size n ++ take pointer_bytes (encode u)

  abbrev pub packets : ℕ → List MeMarketUpdate → List ℕ
  packets n [] = []
  packets n (u ∷ us) = packet n u ++ packets (next64 n) us

  published : MarketDataPublisher → MeMarketUpdate → LfQueue MeMarketUpdate → MarketDataPublisher
  published p u q = record p {
    outgoing_md_updates = q;
    outbound = (p.outbound ++ encode_size p.next_inc_seq_num) ++ take pointer_bytes (encode u);
    snapshot_md_updates =
        write p.snapshot_md_updates (record { seq_num = p.next_inc_seq_num; me_market_update = u });
    next_inc_seq_num = next64 p.next_inc_seq_num;
  }

  publish_runs :
      (p : MarketDataPublisher) (i : ℕ) (q : LfQueue MeMarketUpdate)
      → length (p.outbound ++ encode_size p.next_inc_seq_num) < mcast_buffer_size
      → length (
          (p.outbound ++ encode_size p.next_inc_seq_num)
          ++ take pointer_bytes (encode (p.outgoing_md_updates.store i)))
        < mcast_buffer_size
      → update_read_index p.outgoing_md_updates ≡ ok q
      → publish encode encode_size i p ≡ ok (tt, published p (p.outgoing_md_updates.store i) q)
  unfolding publish send published
  publish_runs p i q h k u = simp (lt→ltb _ _ h, lt→ltb _ _ k, u)

  -- For a valid queue, more rounds than updates, and an outbound buffer that everything fits
  -- into: the loop sends every waiting update once, in order and numbered one after another, to
  -- the synthesizer as a whole, and to the incremental stream its number and the first 8 of its
  -- bytes. It ends with an empty queue.
  pub publish_all-packets :
      (fuel : ℕ) (p : MarketDataPublisher) (us : List MeMarketUpdate)
      → IsValid p.outgoing_md_updates
      → contents p.outgoing_md_updates ≡ us
      → length us < fuel
      → length p.outbound + length (packets p.next_inc_seq_num us) < mcast_buffer_size
      → (p' : MarketDataPublisher) × (publish_all encode encode_size fuel p ≡ ok (tt, p'))
        × (p'.outbound ≡ p.outbound ++ packets p.next_inc_seq_num us)
        × (p'.snapshot_md_updates
            ≡ write_all p.snapshot_md_updates (numbered_from p.next_inc_seq_num us))
        × (contents p'.outgoing_md_updates ≡ [])
  unfolding publish_all published write_all
  publish_all-packets zero p us v e f room = absurd (omega arith)
  publish_all-packets (suc fuel) p [] v e f room = elim (read_cases p.outgoing_md_updates v) [
    | inl (empty, none_left, bad) ↦
        (p, rw (none_left, publish_all), sym (append-nil p.outbound), refl, empty)
    | inr (i, q, found, read, split, v') ↦ absurd (cc)
  ]
  publish_all-packets (suc fuel) p (u ∷ us) v e f room = elim (read_cases p.outgoing_md_updates v) [
    | inl (empty, none_left, bad) ↦ absurd (cc)
    | inr (i, q, found, read, split, v') ↦
        let same : p.outgoing_md_updates.store i ≡ u = cc in
        let rest : contents q ≡ us = cc in
        let p1 : MarketDataPublisher = published p u q in
        let size = encode_size p.next_inc_seq_num in
        let body = take pointer_bytes (encode u) in
        let l1 = length-append p.outbound size in
        let l2 = length-append (p.outbound ++ size) body in
        let l3 = length-append size body in
        let l4 = length-append (size ++ body) (packets (next64 p.next_inc_seq_num) us) in
        let first_room : length (p.outbound ++ size) < mcast_buffer_size = omega arith in
        let both_room : length ((p.outbound ++ size) ++ body) < mcast_buffer_size = omega arith in
        let step : publish encode encode_size i p ≡ ok (tt, published p u q) =
          subst
            (λ x.
              length ((p.outbound ++ size) ++ take pointer_bytes (encode x)) < mcast_buffer_size
              → publish encode encode_size i p ≡ ok (tt, published p x q))
            same (λ k. publish_runs p i q first_room k read) both_room in
        let more = packets (next64 p.next_inc_seq_num) us in
        let regroup : ((p.outbound ++ size) ++ body) ++ more
            ≡ p.outbound ++ ((size ++ body) ++ more) =
          append_assoc (p.outbound ++ size) body more
          ∙ append_assoc p.outbound size (body ++ more)
          ∙ ap (λ l. p.outbound ++ l) (sym (append_assoc size body more)) in
        let (p', run, out, snap, empty) =
          publish_all-packets fuel p1 us v' rest (omega arith) (omega arith) in
        (p', rw (found, publish_all, step) run, out ∙ regroup, snap, empty)
  ]
