-- ===== src/Consumer/Delivery.antt =====
-- The loop of the thread of trading/market_data/market_data_consumer.cpp, while the incremental stream
-- comes in pieces.
use low_latency_trading_engi.Base.{
  ℕ, ◌+◌, ◌^◌, ◌<◌, ◌≡◌, refl, sym, ap, ◌∙◌, Bool, true, false, Option, none, some, List, [], ◌∷◌,
  ◌++◌, ok, bind_result, M, if◌then◌else◌, length, All, arith, ◌>>◌, inl, inr, Result-cases, map,
  append-nil, append_assoc, ok-injective,
}
use low_latency_trading_engi.Messages.{MeMarketUpdate, MdpMarketUpdate}
use low_latency_trading_engi.Frames.{joined, loop-keeps, loop-left, loop-frames}
use low_latency_trading_engi.LfQueue.{write_all}
use low_latency_trading_engi.Consumer.InOrder.{stream}
use low_latency_trading_engi.Consumer.Bytes.{
  recv_loop-IsFraming, handle, loop, incremental-append, incremental-stream, IsUpdate, messages,
}
use low_latency_trading_engi.Consumer.Thread.{ConsumerThread, incremental_turn, snapshot_turn, run}
use low_latency_trading_engi.Sockets.Mcast.{mcast_send_and_recv, mcast_receive, mcast_flush}
use low_latency_trading_engi.Consumer.{
  MarketDataConsumer, QueuedMarketUpdates, check_map, check_snapshot_sync, sync_incrementals,
  finish_recovery, handle_message, queue_message, start_snapshot_sync, recv_callback, update_bytes,
}

check_map-running :
    (c : MarketDataConsumer) (m : QueuedMarketUpdates) → (check_map c m).running ≡ c.running
unfolding check_map sync_incrementals finish_recovery
check_map-running c [] = refl
check_map-running c ((k, u) ∷ m) = ground arith

queue_message-running :
    (b : Bool) (m : MdpMarketUpdate) (c : MarketDataConsumer)
    → (queue_message b m c).running ≡ c.running
unfolding queue_message check_snapshot_sync
queue_message-running true m c = check_map-running _ _
queue_message-running false m c = check_map-running _ _

-- A message that comes in does not stop the loop.
handle_message-running :
    (joins b : Bool) (m : MdpMarketUpdate) (c c' : MarketDataConsumer)
    → handle_message joins b m c ≡ ok (tt, c')
    → c'.running ≡ c.running
unfolding handle_message start_snapshot_sync
handle_message-running true b m c c' e = ground (
  arith,
  queue_message-running b m c,
  queue_message-running b m (record c {
    in_recovery = true;
    snapshot_queued_msgs = [];
    incremental_queued_msgs = [];
    snapshot_joined = true;
  }),
)
handle_message-running false b m c c' e = ground (arith, queue_message-running b m c)

module _ (decode : List ℕ → MdpMarketUpdate) (joins : Bool) where
  abbrev take_in : List ℕ → M MarketDataConsumer (List ℕ)
  take_in = recv_callback decode joins false

  take_in-running :
      (bytes left : List ℕ) (c c' : MarketDataConsumer)
      → take_in bytes c ≡ ok (left, c')
      → c'.running ≡ c.running
  unfolding recv_callback
  take_in-running bytes left c c' e =
      loop-keeps update_bytes (handle decode joins false) (loop decode joins false)
        (recv_loop-IsFraming decode joins false) (λ c. c.running)
        (λ p c c' e. handle_message-running joins false (decode p) c c' e) (length bytes + 1) bytes
        left c c' e

  take_in-left :
      (bytes left : List ℕ) (c c' : MarketDataConsumer)
      → take_in bytes c ≡ ok (left, c')
      → length left < update_bytes
  unfolding recv_callback
  take_in-left bytes left c c' e =
      (loop-left update_bytes (handle decode joins false) (loop decode joins false)
        (recv_loop-IsFraming decode joins false) (length bytes + 1) bytes left c c' e).0

  take_in-short :
      (bytes : List ℕ) (c : MarketDataConsumer)
      → length bytes < update_bytes
      → take_in bytes c ≡ ok (bytes, c)
  unfolding recv_callback
  take_in-short bytes c h =
      loop-frames update_bytes (handle decode joins false) (loop decode joins false)
        (recv_loop-IsFraming decode joins false) (length bytes + 1) [] bytes c tt h (omega arith)

  -- A round in which the incremental socket delivers `p` and the snapshot socket nothing.
  abbrev pub delivered : List ℕ → Option (List ℕ) × Option (List ℕ)
  delivered p = (some p, none)

  abbrev received : ConsumerThread → List ℕ × MarketDataConsumer → ConsumerThread
  received t r = record t { consumer = r.1; incremental_inbound = r.0 }

  abbrev silence : Option (List ℕ)
  silence = none

  nothing : (b : Bool) → (if b then silence else silence) ≡ silence
  nothing true = refl
  nothing false = refl

  quiet_lem : (t : ConsumerThread) → snapshot_turn decode joins none t ≡ ok (tt, t)
  unfolding snapshot_turn mcast_send_and_recv mcast_receive mcast_flush
  quiet_lem t = rw (nothing t.consumer.snapshot_joined) refl

  -- What a round comes to whose bytes were received.
  round_lem :
      (p left : List ℕ) (t : ConsumerThread) (c : MarketDataConsumer)
      → take_in (t.incremental_inbound ++ p) t.consumer ≡ ok (left, c)
      → (incremental_turn decode joins (some p) >> snapshot_turn decode joins none) t
        ≡ ok (tt, received t (left, c))
  unfolding incremental_turn mcast_send_and_recv mcast_receive mcast_flush
  round_lem p left t c e = rw (e) (quiet_lem (received t (left, c)))

  rounds_lem :
      (ps : List (List ℕ)) (left : List ℕ) (t : ConsumerThread) (c : MarketDataConsumer)
      → t.consumer.running ≡ true
      → length t.incremental_inbound < update_bytes
      → take_in (t.incremental_inbound ++ joined ps) t.consumer ≡ ok (left, c)
      → run decode joins (map delivered ps) t ≡ ok (tt, received t (left, c))
  unfolding run
  rounds_lem [] left t c on short e =
      let same =
        sym (take_in-short t.incremental_inbound t.consumer short)
        ∙ ap (λ bs. take_in bs t.consumer) (sym (append-nil t.incremental_inbound))
        ∙ e in
      ap (λ r. ok (tt, received t r)) (ok-injective same)
  rounds_lem (p ∷ ps) left t c on short e =
      let first = take_in (t.incremental_inbound ++ p) t.consumer in
      let next = λ (r : List ℕ × MarketDataConsumer). take_in (r.0 ++ joined ps) r.1 in
      let both : bind_result first next ≡ ok (left, c) =
        sym (incremental-append decode joins (t.incremental_inbound ++ p) (joined ps) t.consumer)
        ∙ ap (λ bs. take_in bs t.consumer) (append_assoc t.incremental_inbound p (joined ps))
        ∙ e in
      elim (Result-cases first) [
        | inl (r, got) ↦
            let t' : ConsumerThread = received t r in
            ap
              (λ (b : Bool).
                if b
                then bind_result
                    ((incremental_turn decode joins (some p) >> snapshot_turn decode joins none) t)
                    (λ r. run decode joins (map delivered ps) r.1)
                else ok (tt, t))
              on
            ∙ ap (λ x. bind_result x (λ r. run decode joins (map delivered ps) r.1))
                (round_lem p r.0 t r.1 got)
            ∙ rounds_lem ps left t' c
                (take_in-running (t.incremental_inbound ++ p) r.0 t.consumer r.1 got ∙ on)
                (take_in-left (t.incremental_inbound ++ p) r.0 t.consumer r.1 got)
                (ap (λ x. bind_result x next) (sym got) ∙ both)
        | inr (fault, got) ↦ absurd (cc (ap (λ x. bind_result x next) (sym got) ∙ both))
      ]

  -- The loop of the thread over the incremental stream, while nothing is being recovered and the
  -- snapshot socket is silent: if what the socket delivers in the rounds, however it is cut, makes up
  -- whole updates, numbered one after another from the expected number on, and less than one more,
  -- then every update is passed on once, in order, the expected number moves behind them, and the
  -- other bytes wait in the buffer. The loop goes on, and the buffer is empty at first.
  pub run-stream :
      (pieces fs : List (List ℕ)) (tail : List ℕ) (us : List MeMarketUpdate) (n : ℕ)
      (t : ConsumerThread)
      → joined pieces ≡ joined fs ++ tail
      → All IsUpdate fs
      → length tail < update_bytes
      → messages decode joins false fs ≡ stream n us
      → t.consumer.running ≡ true
      → t.consumer.in_recovery ≡ false
      → t.consumer.next_exp_inc_seq_num ≡ n
      → t.incremental_inbound ≡ []
      → n + length us < 2 ^ 64
      → run decode joins (map delivered pieces) t
        ≡ ok (
          tt,
          record t {
            incremental_inbound = tail;
            consumer = record t.consumer {
              next_exp_inc_seq_num = n + length us;
              incoming_md_updates = write_all t.consumer.incoming_md_updates us;
            };
          },
        )
  run-stream pieces fs tail us n t cut whole short same on calm expected empty b =
      let few : length t.incremental_inbound < update_bytes = omega (arith, ap length empty) in
      rounds_lem pieces tail t _ on few (
        ap (λ bs. take_in (bs ++ joined pieces) t.consumer) empty
        ∙ ap (λ bs. take_in bs t.consumer) cut
        ∙ incremental-stream decode joins fs tail us n t.consumer whole short same calm expected b)
