-- ===== src/Consumer.antt =====
-- `MarketDataConsumer` of trading/market_data/market_data_consumer.h and
-- trading/market_data/market_data_consumer.cpp: it passes the incremental stream on while the
-- sequence numbers are in order, and from the first gap on tries to recover from a snapshot.
-- `std::map` is a list of keys and values with rising keys. Joining the snapshot stream is the
-- operating system's: whether it works is an argument. The layout of a packed struct is the
-- compiler's: `decode` is a parameter.
pub mod Recovery
pub mod InOrder
pub mod Thread
pub mod Delivery
pub mod Bytes
mod Tests
use low_latency_trading_engi.Base.{
  ℕ, zero, suc, ◌+◌, Bool, true, false, not, ◌&&◌, ◌||◌, Option, none, some, List, [], ◌∷◌, ◌++◌,
  Fault, Result, ok, err, bind_result, M, ◌>>=◌, ◌>>◌, pure, fail, gets, modify, assert, ltb, leb,
  ◌==◌, if◌then◌else◌, update, is_some, length, take, drop,
}
use mathlib.Core.Option
use low_latency_trading_engi.Types.{next64}
use low_latency_trading_engi.LfQueue
use low_latency_trading_engi.LfQueue.{LfQueue}
use low_latency_trading_engi.Messages.{MarketUpdateType, MeMarketUpdate, MdpMarketUpdate}

abbrev pub QueuedMarketUpdates : Type 0
QueuedMarketUpdates = List (ℕ × MeMarketUpdate)

-- `m.find(k) != m.end()`.
unfoldable pub contains : QueuedMarketUpdates → ℕ → Bool
contains [] k = false
contains ((j, u) ∷ m) k = (j == k) || contains m k

-- `m[k] = u`.
unfoldable pub assign : QueuedMarketUpdates → ℕ → MeMarketUpdate → QueuedMarketUpdates
assign [] k u = (k, u) ∷ []
assign ((j, w) ∷ m) k u =
    let rest = assign m k u in
    if k == j then (k, u) ∷ m else if ltb k j then (k, u) ∷ (j, w) ∷ m else (j, w) ∷ rest

pub record MarketDataConsumer : Type 0 where
  pub next_exp_inc_seq_num : ℕ
  pub incoming_md_updates : LfQueue MeMarketUpdate
  pub running : Bool
  pub in_recovery : Bool
  pub snapshot_queued_msgs : QueuedMarketUpdates
  pub incremental_queued_msgs : QueuedMarketUpdates
  -- whether the snapshot socket is open
  pub snapshot_joined : Bool

abbrev pub is_start : MarketUpdateType → Bool
is_start MarketUpdateType.snapshot_start = true
is_start _ = false

abbrev pub is_end : MarketUpdateType → Bool
is_end MarketUpdateType.snapshot_end = true
is_end _ = false

-- Neither the start nor the end of a snapshot.
abbrev pub is_event : MarketUpdateType → Bool
is_event k = not (is_start k) && not (is_end k)

unfoldable pub start_snapshot_sync : (joins : Bool) → M MarketDataConsumer (Unit {0})
start_snapshot_sync joins = do
  modify (λ (c : MarketDataConsumer). record c {
    snapshot_queued_msgs = [];
    incremental_queued_msgs = [];
  })
  assert joins
  modify (λ (c : MarketDataConsumer). record c { snapshot_joined = true })

-- The loop over the snapshot messages: the events, or nothing if a sequence number is missing. The
-- number that is expected goes up with each event, and not with the start message.
unfoldable pub snapshot_events :
    QueuedMarketUpdates → (next_snapshot_seq : ℕ) → Option (List MeMarketUpdate)
snapshot_events [] next = some []
snapshot_events ((k, u) ∷ m) next =
    if k == next
    then if is_event u.kind
      then Option.map (λ es. u ∷ es) (snapshot_events m (next + 1))
      else snapshot_events m next
    else none

-- The loop over the incremental messages: the events with the number expected after them.
unfoldable pub incremental_events :
    QueuedMarketUpdates → (next_exp : ℕ) → Option (List MeMarketUpdate × ℕ)
incremental_events [] next = some ([], next)
incremental_events ((k, u) ∷ m) next =
    if ltb k next
    then incremental_events m next
    else if k == next
    then Option.map (λ r. ((if is_event u.kind then u ∷ r.0 else r.0), r.1))
        (incremental_events m (next64 next))
    else none

-- `rbegin`, of a map that is not empty.
abbrev pub last_message : MeMarketUpdate → QueuedMarketUpdates → MeMarketUpdate
last_message u [] = u
last_message u ((k, w) ∷ m) = last_message w m

abbrev pub forget_snapshot : MarketDataConsumer → MarketDataConsumer
forget_snapshot c = record c { snapshot_queued_msgs = [] }

-- The end of a recovery: everything collected is passed on.
unfoldable pub finish_recovery : MarketDataConsumer → ℕ → List MeMarketUpdate → MarketDataConsumer
finish_recovery c next final_events = record c {
  next_exp_inc_seq_num = next;
  incoming_md_updates = LfQueue.write_all c.incoming_md_updates final_events;
  snapshot_queued_msgs = [];
  incremental_queued_msgs = [];
  in_recovery = false;
  snapshot_joined = false;
}

-- From a complete snapshot on; `last` is its last message. The member that holds the expected number
-- is written before the incremental messages are looked at, and moved on by those that fit.
unfoldable pub fitting : QueuedMarketUpdates → ℕ → ℕ
fitting [] next = next
fitting ((k, u) ∷ m) next =
    if ltb k next then fitting m next else if k == next then fitting m (next64 next) else next

unfoldable pub sync_incrementals :
    MarketDataConsumer → MeMarketUpdate → List MeMarketUpdate → MarketDataConsumer
sync_incrementals c last events =
    let next = next64 last.order_id in
    elim (incremental_events c.incremental_queued_msgs next) [
      | none ↦ record (forget_snapshot c) {
        next_exp_inc_seq_num = fitting c.incremental_queued_msgs next;
      }
      | some (more, after) ↦ finish_recovery c after (events ++ more)
    ]

-- `checkSnapshotSync`, given the queued snapshot messages.
unfoldable pub check_map : MarketDataConsumer → QueuedMarketUpdates → MarketDataConsumer
check_map c [] = c
check_map c ((k, first) ∷ m) =
    if is_start first.kind
    then elim (snapshot_events ((k, first) ∷ m) 0) [
      | none ↦ forget_snapshot c
      | some events ↦
          if is_end (last_message first m).kind
          then sync_incrementals c (last_message first m) events
          else c
    ]
    else forget_snapshot c

unfoldable pub check_snapshot_sync : MarketDataConsumer → MarketDataConsumer
check_snapshot_sync c = check_map c c.snapshot_queued_msgs

unfoldable pub queue_message :
    (is_snapshot : Bool) → MdpMarketUpdate → MarketDataConsumer → MarketDataConsumer
queue_message true m c =
    let kept = if contains c.snapshot_queued_msgs m.seq_num then [] else c.snapshot_queued_msgs in
    check_snapshot_sync
      (record c { snapshot_queued_msgs = assign kept m.seq_num m.me_market_update })
queue_message false m c = check_snapshot_sync (record c {
  incremental_queued_msgs = assign c.incremental_queued_msgs m.seq_num m.me_market_update;
})

-- The body of the loop of `recvCallback`, for one message.
unfoldable pub handle_message :
    (joins is_snapshot : Bool) → MdpMarketUpdate → M MarketDataConsumer (Unit {0})
handle_message joins is_snapshot m c =
    if c.in_recovery
    then ok (tt, queue_message is_snapshot m c)
    else if m.seq_num == c.next_exp_inc_seq_num
    then ok (
      tt,
      if is_snapshot then c else record c {
        next_exp_inc_seq_num = next64 c.next_exp_inc_seq_num;
        incoming_md_updates = LfQueue.write c.incoming_md_updates m.me_market_update;
      },
    )
    else bind_result (start_snapshot_sync joins (record c { in_recovery = true }))
        (λ r. ok (tt, queue_message is_snapshot m r.1))

-- sizeof(MDPMarketUpdate), packed: 8 + 1 + 8 + 4 + 1 + 8 + 4 + 8.
abbrev pub update_bytes : ℕ
update_bytes = 42

module _ (decode : List ℕ → MdpMarketUpdate) (joins is_snapshot : Bool) where
  unfoldable pub recv_loop : ℕ → List ℕ → M MarketDataConsumer (List ℕ)
  recv_loop zero bytes = fail Fault.no_fuel
  recv_loop (suc fuel) bytes =
      if leb update_bytes (length bytes)
      then (do
        handle_message joins is_snapshot (decode (take update_bytes bytes))
        recv_loop fuel (drop update_bytes bytes))
      else pure bytes

  -- The result is what is left in the socket's inbound buffer. Snapshot data is thrown away while
  -- there is nothing to recover from.
  unfoldable pub recv_callback : List ℕ → M MarketDataConsumer (List ℕ)
  recv_callback bytes c =
      if is_snapshot && not c.in_recovery then ok ([], c) else recv_loop (length bytes + 1) bytes c

-- Messages handled one after another, each with the stream that it came by.
unfoldable pub handle_all :
    (joins : Bool) → List (Bool × MdpMarketUpdate) → M MarketDataConsumer (Unit {0})
handle_all joins [] c = ok (tt, c)
handle_all joins ((is_snapshot, m) ∷ ms) c =
    bind_result (handle_message joins is_snapshot m c) (λ r. handle_all joins ms r.1)
