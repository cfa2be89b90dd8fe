-- ===== src/Synthesizer/Thread.antt =====
-- The thread of exchange/market_data/snapshot_synthesizer.cpp: it takes over what the publisher has
-- put into their queue, and sends a snapshot when a minute has gone by. The clock is given.
use low_latency_trading_engi.Base.{
  ℕ, zero, suc, ◌+◌, ◌*◌, ◌^◌, ◌≡◌, ◌<◌, refl, sym, Result-cases, ok-injective, ap, ◌∙◌, inl, inr,
  Bool, true, false, Option, none, some, List, [], ◌∷◌, ◌++◌, append-nil, Fault, Result, ok, err,
  bind_result, M, ◌>>◌, modify, assert, ltb, pos, pos_part, neg_part, length, arith, if◌then◌else◌,
}
use low_latency_trading_engi.LfQueue.{LfQueue, size, get_next_to_read, update_read_index}
use low_latency_trading_engi.LfQueue.Fifo.{IsValid, contents, read_cases}
use low_latency_trading_engi.Messages.{MdpMarketUpdate}
use low_latency_trading_engi.Sequencer.{Nanos}
use low_latency_trading_engi.Synthesizer.{
  SnapshotSynthesizer, make, add_to_snapshot, publish_snapshot,
}

-- The rest of the members: `queued` is the queue shared with the publisher, and `multicast` all that was
-- handed to the snapshot socket.
pub record SnapshotThread : Type 0 where
  pub synthesizer : SnapshotSynthesizer
  pub queued : LfQueue MdpMarketUpdate
  pub running : Bool
  pub last_snapshot_time : Nanos
  pub multicast : List MdpMarketUpdate

-- With a queue from the publisher.
unfoldable pub make_thread : LfQueue MdpMarketUpdate → SnapshotThread
make_thread updates = record {
  synthesizer = make;
  queued = updates;
  running = false;
  last_snapshot_time = pos 0;
  multicast = [];
}

unfoldable pub start : (thread_made : Bool) → M SnapshotThread (Unit {0})
start thread_made = do
  modify (λ (t : SnapshotThread). record t { running = true })
  assert thread_made

unfoldable pub stop : SnapshotThread → SnapshotThread
stop t = record t { running = false }

-- The body of the loop over the queue, for the update in slot `i`.
unfoldable pub take_over : ℕ → M SnapshotThread (Unit {0})
take_over i t = bind_result (add_to_snapshot (t.queued.store i) t.synthesizer) (λ r.
    bind_result (update_read_index t.queued)
      (λ q. ok (tt, record t { synthesizer = r.1; queued = q })))

unfoldable pub take_over_all : ℕ → M SnapshotThread (Unit {0})
take_over_all zero t = err Fault.no_fuel
take_over_all (suc fuel) t = elim (get_next_to_read t.queued) [
  | none ↦ ok (tt, t)
  | some i ↦ bind_result (take_over i t) (λ r. take_over_all fuel r.1)
]

abbrev pub snapshot_interval : ℕ
snapshot_interval = 60 * 10 ^ 9

-- `now - last > 60 * NANOS_TO_SECS`.
unfoldable pub is_due : (now last : Nanos) → Bool
is_due now last =
    ltb (snapshot_interval + pos_part last + neg_part now) (pos_part now + neg_part last)

-- The clock is read again for the time of the snapshot.
unfoldable pub snapshot_if_due : (now later : Nanos) → SnapshotThread → SnapshotThread
snapshot_if_due now later t =
    if is_due now t.last_snapshot_time
    then record t {
      last_snapshot_time = later;
      multicast = t.multicast ++ publish_snapshot t.synthesizer;
    }
    else t

-- One round of `run`.
unfoldable pub run_round : (now later : Nanos) → M SnapshotThread (Unit {0})
run_round now later t =
    bind_result (take_over_all (size t.queued + 1) t) (λ r. ok (tt, snapshot_if_due now later r.1))

-- Updates taken over one after another.
abbrev pub add_all : List MdpMarketUpdate → M SnapshotSynthesizer (Unit {0})
add_all [] s = ok (tt, s)
add_all (m ∷ ms) s = bind_result (add_to_snapshot m s) (λ r. add_all ms r.1)

-- A round from what there is to read on.
abbrev continues : ℕ → SnapshotThread → Option ℕ → Result (Unit {0} × SnapshotThread)
continues fuel t o = elim o [
  | none ↦ ok (tt, t)
  | some i ↦ bind_result (take_over i t) (λ r. take_over_all fuel r.1)
]

abbrev finish :
    SnapshotThread
    → SnapshotSynthesizer
    → Result (LfQueue MdpMarketUpdate)
    → Result (Unit {0} × SnapshotThread)
finish t s r = bind_result r (λ q. ok (tt, record t { synthesizer = s; queued = q }))

err-ne-ok : {A : Type 0} {x : Fault} {a : A} → ◌≡◌ {A = Result A} (err x) (ok a) → ⊥
err-ne-ok e = cc

pub take_over_all-add_all :
    (fuel : ℕ) (t : SnapshotThread) (ms : List MdpMarketUpdate) (s' : SnapshotSynthesizer)
    → IsValid t.queued
    → contents t.queued ≡ ms
    → length ms < fuel
    → add_all ms t.synthesizer ≡ ok (tt, s')
    → (q : LfQueue MdpMarketUpdate) × (take_over_all fuel t
        ≡ ok (tt, record t { synthesizer = s'; queued = q }))
      × (contents q ≡ [])
      × IsValid q
unfolding take_over_all take_over
take_over_all-add_all zero t ms s' v e f run = absurd (omega (arith, f))
take_over_all-add_all (suc fuel) t [] s' v e f run = elim (read_cases t.queued v) [
  | inl (empty, none_left, bad) ↦ (
    t.queued,
    ap (λ o. continues fuel t o) none_left
        ∙ ap (λ z. ok (tt, record t { synthesizer = z })) (ap (λ r. r.1) (ok-injective run)),
    empty,
    v,
  )
  | inr (i, q, found, read, split, v') ↦ absurd (cc)
]
take_over_all-add_all (suc fuel) t (m ∷ ms) s' v e f run =
    let then_rest : Result (Unit {0} × SnapshotSynthesizer)
        → Result (Unit {0} × SnapshotSynthesizer) =
      λ r. bind_result r (λ x. add_all ms x.1) in
    elim (read_cases t.queued v) [
      | inl (empty, none_left, bad) ↦ absurd (cc)
      | inr (i, q, found, read, split, v') ↦
          let same : t.queued.store i ≡ m = cc in
          let rest : contents q ≡ ms = cc in
          elim (Result-cases (add_to_snapshot m t.synthesizer)) [
            | inr (x, failed) ↦ absurd (err-ne-ok (sym (ap then_rest failed) ∙ run))
            | inl ((u, s1), one) ↦
                let t1 : SnapshotThread = record t { synthesizer = s1; queued = q } in
                let after : add_all ms s1 ≡ ok (tt, s') = sym (ap then_rest one) ∙ run in
                let (q', more, empty, valid) =
                  take_over_all-add_all fuel t1 ms s' v' rest (omega (arith, f)) after in
                let taken : take_over i t ≡ ok (tt, t1) =
                  ap
                    (λ y.
                      bind_result (add_to_snapshot y t.synthesizer)
                        (λ r. finish t r.1 (update_read_index t.queued)))
                    same
                  ∙ ap (λ y. bind_result y (λ r. finish t r.1 (update_read_index t.queued))) one
                  ∙ ap (finish t s1) read in
                (
                  q',
                  ap (λ o. continues fuel t o) found
                      ∙ ap (λ y. bind_result y (λ r. take_over_all fuel r.1)) taken
                      ∙ more,
                  empty,
                  valid,
                )
          ]
    ]

abbrev pub snapshot_sent : Bool → SnapshotSynthesizer → List MdpMarketUpdate
snapshot_sent due s = if due then publish_snapshot s else []

pub snapshot_if_due_lem :
    (now later : Nanos) (t : SnapshotThread)
    → ((snapshot_if_due now later t).synthesizer ≡ t.synthesizer)
      × ((snapshot_if_due now later t).queued ≡ t.queued)
      × ((snapshot_if_due now later t).multicast
          ≡ t.multicast ++ snapshot_sent (is_due now t.last_snapshot_time) t.synthesizer)
unfolding snapshot_if_due
snapshot_if_due_lem now later t =
    let sent : SnapshotThread = record t {
      last_snapshot_time = later;
      multicast = t.multicast ++ publish_snapshot t.synthesizer;
    } in
    elim (is_due now t.last_snapshot_time)
      as (λ b.
        ((if b then sent else t).synthesizer ≡ t.synthesizer)
        × ((if b then sent else t).queued ≡ t.queued)
        × ((if b then sent else t).multicast ≡ t.multicast ++ snapshot_sent b t.synthesizer)) [
          | true ↦ (refl, refl, refl)
          | false ↦ (refl, refl, sym (append-nil t.multicast))
        ]
