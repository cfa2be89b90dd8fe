-- ===== src/Consumer/Recovery.antt =====
-- What becomes of a recovery of trading/market_data/market_data_consumer.cpp.
use low_latency_trading_engi.Base.{
  ℕ, ◌<◌, ◌≡◌, refl, ap, ◌∙◌, ◌⊎◌, inl, inr, true, false, Bool, none, some, List, [], ◌∷◌, All, ok,
  arith, ◌==◌, if◌then◌else◌, Bool-cases, bind_result,
}
use low_latency_trading_engi.Messages.{MarketUpdateType, MeMarketUpdate, MdpMarketUpdate}
use low_latency_trading_engi.Consumer.{
  QueuedMarketUpdates, contains, assign, MarketDataConsumer, is_start, is_end, is_event,
  snapshot_events, forget_snapshot, check_map, check_snapshot_sync, queue_message, handle_message,
  handle_all,
}

-- The keys of a map, from the smallest on.
abbrev pub Above : ℕ → QueuedMarketUpdates → Type 0
Above k = All (λ p. k < p.0)

abbrev pub IsMap : QueuedMarketUpdates → Type 0
IsMap [] = Unit {0}
IsMap ((k, u) ∷ m) = Above k m × IsMap m

assign-Above :
    (m : QueuedMarketUpdates) (j k : ℕ) (u : MeMarketUpdate)
    → Above j m
    → j < k
    → Above j (assign m k u)
unfolding assign
assign-Above [] j k u a h = (h, tt)
assign-Above ((i, w) ∷ m) j k u a h = ground (arith, assign-Above m j k u)

Above-mono : (m : QueuedMarketUpdates) (j k : ℕ) → j < k → Above k m → Above j m
Above-mono [] j k h a = tt
Above-mono ((i, w) ∷ m) j k h a = (omega arith, Above-mono m j k h a.1)

assign-IsMap :
    (m : QueuedMarketUpdates) (k : ℕ) (u : MeMarketUpdate) → IsMap m → IsMap (assign m k u)
unfolding assign
assign-IsMap [] k u v = (tt, tt)
assign-IsMap ((j, w) ∷ m) k u v =
    ground (arith, assign-IsMap m k u, assign-Above m j k u, Above-mono m k j)

start_is_no_event : (k : MarketUpdateType) → is_start k ≡ true → is_event k ≡ false
start_is_no_event k e = ground arith

start_is_no_end : (k : MarketUpdateType) → is_start k ≡ true → is_end k ≡ false
start_is_no_end k e = ground arith

-- The numbers of a snapshot's messages are held against a number that the start message does not move
-- on: with anything behind the start, a number seems to be missing.
gap_after_start :
    (k : ℕ) (u : MeMarketUpdate) (j : ℕ) (w : MeMarketUpdate) (m : QueuedMarketUpdates)
    → k < j
    → is_start u.kind ≡ true
    → snapshot_events ((k, u) ∷ (j, w) ∷ m) 0 ≡ none
unfolding snapshot_events
gap_after_start k u j w m h e = elim (Bool-cases (k == 0)) [
  | inl z ↦ let later : (j == 0) ≡ false = ground arith in rw (z, start_is_no_event u.kind e, later)
  | inr z ↦ rw z
]

start_alone :
    (k : ℕ) (u : MeMarketUpdate)
    → is_start u.kind ≡ true
    → (snapshot_events ((k, u) ∷ []) 0 ≡ none) ⊎ (snapshot_events ((k, u) ∷ []) 0 ≡ some [])
unfolding snapshot_events
start_alone k u e = elim (Bool-cases (k == 0)) [
  | inl z ↦ inr (rw (z, start_is_no_event u.kind e))
  | inr z ↦ inl (rw z)
]

-- No set of queued snapshot messages completes a recovery: the check does nothing, or throws the
-- snapshot messages away.
check_map_stuck :
    (c : MarketDataConsumer) (m : QueuedMarketUpdates)
    → IsMap m
    → (check_map c m ≡ c) ⊎ (check_map c m ≡ forget_snapshot c)
unfolding check_map
check_map_stuck c [] v = inl refl
check_map_stuck c ((k, u) ∷ []) v = elim (Bool-cases (is_start u.kind)) [
  | inl s ↦ elim (start_alone k u s) [
    | inl e ↦ inr (rw (s, e) refl)
    | inr e ↦ inl (rw (s, e, start_is_no_end u.kind s) refl)
  ]
  | inr s ↦ inr (rw s refl)
]
check_map_stuck c ((k, u) ∷ (j, w) ∷ m) v = elim (Bool-cases (is_start u.kind)) [
  | inl s ↦ inr (rw (s, gap_after_start k u j w m v.0.0 s) refl)
  | inr s ↦ inr (rw s refl)
]

-- A consumer in recovery, whose queued messages are maps.
pub record Recovering (c : MarketDataConsumer) : Type 0 where
  pub recovering : c.in_recovery ≡ true
  pub snapshot : IsMap c.snapshot_queued_msgs

-- A message to a recovering consumer is queued.
queued :
    (joins is_snapshot : Bool) (m : MdpMarketUpdate) (c : MarketDataConsumer)
    → Recovering c
    → handle_message joins is_snapshot m c ≡ ok (tt, queue_message is_snapshot m c)
unfolding handle_message
queued joins is_snapshot m c v = ground (arith, v.recovering)

-- What a recovering consumer has passed on stays as it is, and it goes on recovering.
pub record StillRecovering (c c' : MarketDataConsumer) : Type 0 where
  pub state : Recovering c'
  pub delivered : c'.incoming_md_updates ≡ c.incoming_md_updates
  pub expected : c'.next_exp_inc_seq_num ≡ c.next_exp_inc_seq_num

check-StillRecovering :
    (c : MarketDataConsumer) → Recovering c → StillRecovering c (check_snapshot_sync c)
unfolding check_snapshot_sync
check-StillRecovering c v = elim (check_map_stuck c c.snapshot_queued_msgs v.snapshot) [
  | inl e ↦ rw e (record { state = v; delivered = refl; expected = refl })
  | inr e ↦ rw e (record {
    state = record { recovering = v.recovering; snapshot = tt };
    delivered = refl;
    expected = refl;
  })
]

kept-IsMap :
    (again : Bool) (c : MarketDataConsumer)
    → Recovering c
    → IsMap (if again then [] else c.snapshot_queued_msgs)
kept-IsMap true c v = tt
kept-IsMap false c v = v.snapshot

queue_message-StillRecovering :
    (c : MarketDataConsumer) (is_snapshot : Bool) (m : MdpMarketUpdate)
    → Recovering c
    → StillRecovering c (queue_message is_snapshot m c)
unfolding queue_message
queue_message-StillRecovering c true m v =
    let kept : QueuedMarketUpdates =
      if contains c.snapshot_queued_msgs m.seq_num then [] else c.snapshot_queued_msgs in
    let c' : MarketDataConsumer = record c {
      snapshot_queued_msgs = assign kept m.seq_num m.me_market_update;
    } in
    let r = check-StillRecovering c' (record {
      recovering = v.recovering;
      snapshot = assign-IsMap kept m.seq_num m.me_market_update (kept-IsMap _ c v);
    }) in
    record { state = r.state; delivered = r.delivered; expected = r.expected }
queue_message-StillRecovering c false m v =
    let c' : MarketDataConsumer = record c {
      incremental_queued_msgs = assign c.incremental_queued_msgs m.seq_num m.me_market_update;
    } in
    let r =
      check-StillRecovering c' (record { recovering = v.recovering; snapshot = v.snapshot }) in
    record { state = r.state; delivered = r.delivered; expected = r.expected }

-- Once a consumer recovers it never stops: whatever messages arrive on either stream, they are all
-- accepted without a fault, none of them is passed on, and the expected number stays where it was.
pub recovery_never_ends :
    (joins : Bool) (ms : List (Bool × MdpMarketUpdate)) (c : MarketDataConsumer)
    → Recovering c
    → (c' : MarketDataConsumer) × (handle_all joins ms c ≡ ok (tt, c')) × StillRecovering c c'
unfolding handle_all
recovery_never_ends joins [] c v =
    (c, refl, record { state = v; delivered = refl; expected = refl })
recovery_never_ends joins ((is_snapshot, m) ∷ ms) c v =
    let r = queue_message-StillRecovering c is_snapshot m v in
    let (c', runs, r') = recovery_never_ends joins ms (queue_message is_snapshot m c) r.state in
    (
      c',
      ap (λ x. bind_result x (λ y. handle_all joins ms y.1)) (queued joins is_snapshot m c v)
          ∙ runs,
      record {
        state = r'.state;
        delivered = r'.delivered ∙ r.delivered;
        expected = r'.expected ∙ r.expected;
      },
    )
