-- ===== src/Exchange/Main.antt =====
-- `main` of exchange/exchange_main.cpp: the three queues are made, and each part is made and started
-- in turn, with its sockets opened as in common/socket_utils.h. Which log files open and which
-- threads are made is given.
use low_latency_trading_engi.Base.{
  ℕ, Bool, true, false, not, Option, List, [], ◌∷◌, ok, bind_result, M, ◌>>=◌, ◌>>◌, pure, assert,
  ℤ, pos, ltb_ℤ,
}
use low_latency_trading_engi.Types.{
  TickerId, ClientId, OrderId, me_max_client_updates, me_max_market_updates,
}
use low_latency_trading_engi.LfQueue
use low_latency_trading_engi.Messages.{default_request, default_response, default_update}
use low_latency_trading_engi.Logger.{open_logger}
use low_latency_trading_engi.Sequencer.{RecvTimeClientRequest}
use low_latency_trading_engi.Engine
use low_latency_trading_engi.Engine.{MatchingEngine}
use low_latency_trading_engi.Server
use low_latency_trading_engi.Server.{OrderServer}
use low_latency_trading_engi.Publisher
use low_latency_trading_engi.Publisher.{MarketDataPublisher}
use low_latency_trading_engi.Synthesizer.Thread.{SnapshotThread, make_thread}
use low_latency_trading_engi.Sockets.{Os, mcast_init, tcp_connect}
use low_latency_trading_engi.Exchange.{Exchange}

-- The local network, the two multicast groups and the port of the order server.
abbrev pub local_iface : List ℕ
local_iface = b'l' ∷ b'o' ∷ []

abbrev pub snap_pub_ip : List ℕ
snap_pub_ip = b'2' ∷ b'3' ∷ b'3' ∷ b'.' ∷ b'2' ∷ b'5' ∷ b'2' ∷ b'.' ∷ b'1' ∷ b'4' ∷ b'.' ∷ b'1' ∷ []

abbrev pub inc_pub_ip : List ℕ
inc_pub_ip = b'2' ∷ b'3' ∷ b'3' ∷ b'.' ∷ b'2' ∷ b'5' ∷ b'2' ∷ b'.' ∷ b'1' ∷ b'4' ∷ b'.' ∷ b'3' ∷ []

-- What is made of the parts' files and threads: whether this works.
pub record Machine : Type 0 where
  pub main_log : Bool × Bool
  pub engine_log : Bool × Bool
  pub publisher_log : Bool × Bool
  pub synthesizer_log : Bool × Bool
  pub server_log : Bool × Bool
  pub engine_thread : Bool
  pub publisher_thread : Bool
  pub server_thread : Bool
  -- `epoll_create` and the `epoll_ctl` for the listener
  pub epoll_made : Bool
  pub listener_watched : Bool

-- The fields that their constructors leave as the memory was.
pub record Memory : Type 0 where
  pub order_memory : TickerId → ClientId → OrderId → Option ℕ
  pub level_memory : TickerId → ℕ → Option ℕ
  pub pending_memory : ℕ → RecvTimeClientRequest

abbrev pub made_engine : Memory → MatchingEngine
made_engine mem =
    Engine.make mem.order_memory mem.level_memory
      (LfQueue.make default_request me_max_client_updates)
      (LfQueue.make default_response me_max_client_updates)
      (LfQueue.make default_update me_max_market_updates)

module _ {A W : Type 0} (os : Os A W) where
  -- A member of type `Logger`.
  abbrev pub with_logger : Bool × Bool → M W (Unit {0})
  with_logger log w = bind_result (open_logger log.0 log.1) (λ q. ok (tt, w))

  -- `ASSERT(fd >= 0)` after a socket was made.
  abbrev pub opened : M W ℤ → M W (Unit {0})
  opened make = make >>= λ fd. assert (not (ltb_ℤ fd (pos 0)))

  -- `start` of a part that was just made.
  abbrev pub started : {X : Type 0} → M X (Unit {0}) → X → M W X
  started start x w = bind_result (start x) (λ r. ok (r.1, w))

  unfoldable pub new_engine : Machine → Memory → M W MatchingEngine
  new_engine m mem = do
    with_logger m.engine_log
    started (Engine.start m.engine_thread) (made_engine mem)

  -- The constructor of the synthesizer.
  unfoldable pub new_synthesizer : Machine → M W SnapshotThread
  new_synthesizer m = do
    with_logger m.synthesizer_log
    opened (mcast_init os snap_pub_ip local_iface (pos 20000) false)
    pure (
        make_thread (
          LfQueue.make (record { seq_num = 0; me_market_update = default_update })
            me_max_market_updates))

  unfoldable pub new_publisher : Machine → M W (MarketDataPublisher × SnapshotThread)
  new_publisher m = do
    with_logger m.publisher_log
    opened (mcast_init os inc_pub_ip local_iface (pos 20001) false)
    s ← new_synthesizer m
    pure (Publisher.make (LfQueue.make default_update me_max_market_updates), s)

  -- The listener is opened by `start`, before the thread is made.
  unfoldable pub new_server : Machine → Memory → M W OrderServer
  new_server m mem = do
    with_logger m.server_log
    assert m.epoll_made
    opened (tcp_connect os [] local_iface (pos 12345) true)
    assert m.listener_watched
    started (Server.start m.server_thread) (
        Server.make
          (record {
            incoming_requests = LfQueue.make default_request me_max_client_updates;
            pending_client_requests = mem.pending_memory;
            pending_size = 0;
          })
          (LfQueue.make default_response me_max_client_updates))

  unfoldable pub main : Machine → Memory → M W Exchange
  main m mem = do
    with_logger m.main_log
    e ← new_engine m mem
    made ← new_publisher m
    p ← started (Publisher.start m.publisher_thread) made.0
    s ← new_server m mem
    pure (record {
      client_requests = LfQueue.make default_request me_max_client_updates;
      client_responses = LfQueue.make default_response me_max_client_updates;
      market_updates = LfQueue.make default_update me_max_market_updates;
      matching_engine = e;
      market_data_publisher = p;
      order_server = s;
      snapshot_thread = made.1;
    })
