-- ===== src/Consumer/Thread.antt =====
-- The construction of `MarketDataConsumer` of trading/market_data/market_data_consumer.cpp with its
-- sockets, `start` and `stop`, and the loop of its thread. The operating system is an interface; what
-- `recv` answers in a round is an argument.
use low_latency_trading_engi.Base.{
  ℕ, Bool, true, false, not, Option, none, List, [], ◌∷◌, ok, M, ◌>>=◌, ◌>>◌, pure, modify, assert,
  bind_result, ltb_ℤ, ℤ, pos, negsuc, if◌then◌else◌,
}
use low_latency_trading_engi.LfQueue.{LfQueue}
use low_latency_trading_engi.Messages.{MeMarketUpdate, MdpMarketUpdate}
use low_latency_trading_engi.Logger.{open_logger}
use low_latency_trading_engi.Sockets.{Os, join, mcast_init}
use low_latency_trading_engi.Sockets.Mcast.{McastSocket, mcast_send_and_recv}
use low_latency_trading_engi.Consumer.{MarketDataConsumer, recv_callback}

-- The consumer and what its two sockets hold.
pub record ConsumerThread : Type 0 where
  pub consumer : MarketDataConsumer
  pub incremental_fd : ℤ
  pub incremental_inbound : List ℕ
  pub snapshot_inbound : List ℕ

module _ {A W : Type 0} (os : Os A W) where
  -- A listening socket that has joined a group, or the end of the process.
  unfoldable pub open_group : (ip iface : List ℕ) → (port : ℤ) → M W ℤ
  open_group ip iface port = do
    fd ← mcast_init os ip iface port true
    assert (not (ltb_ℤ fd (pos 0)))
    joined ← join os fd ip
    assert joined
    pure fd

  unfoldable pub new_consumer :
      (file_open log_thread_made : Bool)
      → LfQueue MeMarketUpdate
      → (iface incremental_ip : List ℕ) → (incremental_port : ℤ) → M W ConsumerThread
  new_consumer file_open log_thread_made market_updates iface incremental_ip incremental_port = do
    (λ w. bind_result (open_logger file_open log_thread_made) (λ q. ok (tt, w)))
    fd ← open_group incremental_ip iface incremental_port
    pure (record {
      consumer = record {
        next_exp_inc_seq_num = 1;
        incoming_md_updates = market_updates;
        running = false;
        in_recovery = false;
        snapshot_queued_msgs = [];
        incremental_queued_msgs = [];
        snapshot_joined = false;
      };
      incremental_fd = fd;
      incremental_inbound = [];
      snapshot_inbound = [];
    })

unfoldable pub start : (thread_made : Bool) → M MarketDataConsumer (Unit {0})
start thread_made = do
  modify (λ (c : MarketDataConsumer). record c { running = true })
  assert thread_made

unfoldable pub stop : MarketDataConsumer → MarketDataConsumer
stop c = record c { running = false }

module _ (decode : List ℕ → MdpMarketUpdate) (joins : Bool) where
  -- `incremental_mcast_socket_.sendAndRecv()`; nothing is ever sent on it.
  unfoldable pub incremental_turn : Option (List ℕ) → M ConsumerThread (Unit {0})
  incremental_turn answer t =
      let socket : McastSocket MarketDataConsumer = record {
        socket_fd = t.incremental_fd;
        outbound = [];
        inbound = t.incremental_inbound;
        handed = [];
        user = t.consumer;
      } in
      bind_result (mcast_send_and_recv (recv_callback decode joins false) answer socket)
        (λ r. ok (tt, record t { consumer = r.1.user; incremental_inbound = r.1.inbound }))

  -- `snapshot_mcast_socket_.sendAndRecv()`: `recv` fails on a socket that is not open.
  unfoldable pub snapshot_turn : Option (List ℕ) → M ConsumerThread (Unit {0})
  snapshot_turn answer t =
      let socket : McastSocket MarketDataConsumer = record {
        socket_fd = negsuc 0;
        outbound = [];
        inbound = t.snapshot_inbound;
        handed = [];
        user = t.consumer;
      } in
      bind_result
        (mcast_send_and_recv (recv_callback decode joins true)
          (if t.consumer.snapshot_joined then answer else none) socket)
        (λ r. ok (tt, record t { consumer = r.1.user; snapshot_inbound = r.1.inbound }))

  -- The loop of `run`: for each round, what the two sockets answer. It ends when `stop` was called.
  unfoldable pub run : List (Option (List ℕ) × Option (List ℕ)) → M ConsumerThread (Unit {0})
  run [] t = ok (tt, t)
  run ((incremental, snapshot) ∷ answers) t =
      let rest = λ (u : ConsumerThread). run answers u in
      if t.consumer.running
      then bind_result ((incremental_turn incremental >> snapshot_turn snapshot) t) (λ r. rest r.1)
      else ok (tt, t)
