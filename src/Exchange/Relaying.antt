-- ===== src/Exchange/Relaying.antt =====
-- The market updates of exchange/exchange_main.cpp on their way through the publisher to the snapshot
-- synthesizer.
use low_latency_trading_engi.Base.{
  ℕ, suc, ◌+◌, ◌<◌, ◌≤◌, ◌≡◌, refl, sym, ap, subst, ◌∙◌, List, [], ◌∷◌, ◌++◌, length, ok, arith,
  bind_result, Result,
}
use low_latency_trading_engi.Types.{next64}
use low_latency_trading_engi.LfQueue.{size}
use low_latency_trading_engi.LfQueue.Fifo.{IsValid, contents, contents-write_all, length-contents}
use low_latency_trading_engi.Messages.{MeMarketUpdate}
use low_latency_trading_engi.Sequencer.{Nanos}
use low_latency_trading_engi.Publisher
use low_latency_trading_engi.Publisher.{MarketDataPublisher, mcast_buffer_size, publish_all}
use low_latency_trading_engi.Publisher.Stream.{numbered_from, packets, publish_all-packets}
use low_latency_trading_engi.Synthesizer.{SnapshotSynthesizer}
use low_latency_trading_engi.Synthesizer.Thread
use low_latency_trading_engi.Synthesizer.Thread.{
  SnapshotThread, add_all, take_over_all, take_over_all-add_all, snapshot_if_due,
  snapshot_if_due_lem, snapshot_sent, is_due,
}
use low_latency_trading_engi.Exchange.{
  Exchange, publisher_of, put_publisher, synthesizer_of, put_synthesizer, publisher_round,
  synthesizer_round,
}

length-numbered_from : (n : ℕ) (us : List MeMarketUpdate) → length (numbered_from n us) ≡ length us
length-numbered_from n [] = refl
length-numbered_from n (u ∷ us) = ap suc (length-numbered_from (next64 n) us)

module _ (encode : MeMarketUpdate → List ℕ) (encode_size : ℕ → List ℕ) (x : Exchange)
    (now later : Nanos) where
  abbrev number : ℕ
  number = x.market_data_publisher.next_inc_seq_num

  abbrev clear_out : Unit {0} × MarketDataPublisher → Result (List ℕ × MarketDataPublisher)
  clear_out r = ok (r.1.outbound, record r.1 { outbound = [] })

  abbrev put_sent : Exchange → List ℕ × MarketDataPublisher → Result (List ℕ × Exchange)
  put_sent y r = ok (r.0, put_publisher y r.1)

  abbrev then_snapshot : Unit {0} × SnapshotThread → Result (Unit {0} × SnapshotThread)
  then_snapshot r = ok (tt, snapshot_if_due now later r.1)

  abbrev put_unit : Exchange → Unit {0} × SnapshotThread → Result (Unit {0} × Exchange)
  put_unit y r = ok (r.0, put_synthesizer y r.1)

  -- With an empty outbound buffer that everything fits into, and room in an empty queue to the
  -- synthesizer, which can take over the waiting updates when they are numbered from the publisher's
  -- next number on: a round of the publisher sends a packet for each update, and a round of the
  -- synthesizer behind it takes over exactly these updates with these numbers, and hands out a snapshot
  -- of what it then holds if a minute has gone by. Both queues are then empty.
  pub relayed :
      (us : List MeMarketUpdate) (s' : SnapshotSynthesizer)
      → IsValid x.market_updates
      → contents x.market_updates ≡ us
      → x.market_data_publisher.outbound ≡ []
      → length (packets encode encode_size number us) < mcast_buffer_size
      → IsValid x.market_data_publisher.snapshot_md_updates
      → contents x.market_data_publisher.snapshot_md_updates ≡ []
      → length us ≤ x.market_data_publisher.snapshot_md_updates.store_size
      → add_all (numbered_from number us) x.snapshot_thread.synthesizer ≡ ok (tt, s')
      → (x1 x' : Exchange) × (publisher_round encode encode_size x
          ≡ ok (packets encode encode_size number us, x1))
        × (synthesizer_round now later x1 ≡ ok (tt, x'))
        × (x'.snapshot_thread.synthesizer ≡ s')
        × (x'.snapshot_thread.multicast
            ≡ x.snapshot_thread.multicast
              ++ snapshot_sent (is_due now x.snapshot_thread.last_snapshot_time) s')
        × (contents x'.market_updates ≡ [])
        × (contents x'.market_data_publisher.snapshot_md_updates ≡ [])
  unfolding publisher_round Publisher.run_round synthesizer_round Thread.run_round size
  relayed us s' v1 e1 clean room v2 e2 fits run =
      let q = x.market_data_publisher.snapshot_md_updates in
      let ms = numbered_from number us in
      let count : x.market_updates.num_elements ≡ length us =
        sym (length-contents x.market_updates) ∙ ap length e1 in
      let none_queued : q.num_elements ≡ 0 = sym (length-contents q) ∙ ap length e2 in
      let as_many = length-numbered_from number us in
      let (p, sent, out, snap, empty) =
        publish_all-packets encode encode_size (x.market_updates.num_elements + 1) (publisher_of x)
          us v1 e1 (omega (arith, count))
          (subst (λ o. length o + length (packets encode encode_size number us) < mcast_buffer_size)
            (sym clean) (omega (arith, room))) in
      let p' : MarketDataPublisher = record p { outbound = [] } in
      let x1 : Exchange = put_publisher x p' in
      let (filled, valid) =
        contents-write_all q ms v2 (omega (arith, none_queued, as_many, fits)) in
      let queued : contents p.snapshot_md_updates ≡ ms =
        ap contents snap ∙ filled ∙ ap (λ l. l ++ ms) e2 in
      let valid' : IsValid p.snapshot_md_updates = subst IsValid (sym snap) valid in
      let waiting : p.snapshot_md_updates.num_elements ≡ length ms =
        sym (length-contents p.snapshot_md_updates) ∙ ap length queued in
      let (q', taken, drained, valid'') =
        take_over_all-add_all (p.snapshot_md_updates.num_elements + 1) (synthesizer_of x1) ms s'
          valid' queued (omega (arith, waiting)) run in
      let t : SnapshotThread = record (synthesizer_of x1) { synthesizer = s'; queued = q' } in
      let (same, kept, multi) = snapshot_if_due_lem now later t in
      (
        x1,
        put_synthesizer x1 (snapshot_if_due now later t),
        ap (λ r. bind_result (bind_result r clear_out) (put_sent x)) sent
            ∙ ap (λ o. ok (o, x1))
                (out ∙ ap (λ o. o ++ packets encode encode_size number us) clean),
        ap (λ r. bind_result (bind_result r then_snapshot) (put_unit x1)) taken,
        same,
        multi,
        empty,
        ap contents kept ∙ drained,
      )
