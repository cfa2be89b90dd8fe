-- ===== src/Publisher.antt =====
-- `MarketDataPublisher` of exchange/market_data/market_data_publisher.h and
-- exchange/market_data/market_data_publisher.cpp: every update of the matching engine goes out on the
-- incremental multicast stream, and with its sequence number to the snapshot synthesizer. The bytes
-- of a packed struct and of a size_t are the compiler's: `encode` and `encode_size` are parameters.
pub mod Stream
use low_latency_trading_engi.Base.{
  ℕ, zero, suc, ◌+◌, ◌*◌, Bool, true, false, none, some, List, [], ◌++◌, Fault, ok, err,
  bind_result, M, ◌>>=◌, ◌>>◌, gets, modify, assert, ltb, if◌then◌else◌, length, take,
}
use low_latency_trading_engi.Types.{next64, me_max_market_updates}
use low_latency_trading_engi.LfQueue
use low_latency_trading_engi.LfQueue.{LfQueue}
use low_latency_trading_engi.Messages.{MeMarketUpdate, MdpMarketUpdate, default_update}

-- McastBufferSize of common/mcast_socket.h.
abbrev pub mcast_buffer_size : ℕ
mcast_buffer_size = 64 * 1024 * 1024

pub record MarketDataPublisher : Type 0 where
  pub next_inc_seq_num : ℕ
  pub outgoing_md_updates : LfQueue MeMarketUpdate
  pub snapshot_md_updates : LfQueue MdpMarketUpdate
  pub running : Bool
  -- the first `next_send_valid_index_` bytes of the incremental socket's outbound buffer
  pub outbound : List ℕ

-- The constructor, but for its sockets; the synthesizer is made with it.
unfoldable pub make : LfQueue MeMarketUpdate → MarketDataPublisher
make updates = record {
  next_inc_seq_num = 1;
  outgoing_md_updates = updates;
  snapshot_md_updates =
      LfQueue.make (record { seq_num = 0; me_market_update = default_update })
        me_max_market_updates;
  running = false;
  outbound = [];
}

-- `McastSocket::send`: the bytes are copied before the room is checked.
unfoldable pub send : List ℕ → M MarketDataPublisher (Unit {0})
send bytes p =
    let after : MarketDataPublisher = record p { outbound = p.outbound ++ bytes } in
    if ltb (length after.outbound) mcast_buffer_size
    then ok (tt, after)
    else err Fault.assert_failed

-- sizeof(market_update), where `market_update` is a pointer.
abbrev pub pointer_bytes : ℕ
pointer_bytes = 8

module _ (encode : MeMarketUpdate → List ℕ) (encode_size : ℕ → List ℕ) where
  -- The body of the loop of `run`, for the update in slot `i`.
  unfoldable pub publish : ℕ → M MarketDataPublisher (Unit {0})
  publish i = do
    u ← gets (λ (p : MarketDataPublisher). p.outgoing_md_updates.store i)
    n ← gets (λ (p : MarketDataPublisher). p.next_inc_seq_num)
    send (encode_size n)
    send (take pointer_bytes (encode u))
    (λ (p : MarketDataPublisher).
        bind_result (LfQueue.update_read_index p.outgoing_md_updates)
          (λ q. ok (tt, record p { outgoing_md_updates = q })))
    modify (λ (p : MarketDataPublisher). record p {
      snapshot_md_updates =
          LfQueue.write p.snapshot_md_updates (record { seq_num = n; me_market_update = u });
      next_inc_seq_num = next64 n;
    })

  -- The loop over the queue: it ends when the queue is empty.
  unfoldable pub publish_all : ℕ → M MarketDataPublisher (Unit {0})
  publish_all zero p = err Fault.no_fuel
  publish_all (suc fuel) p = elim (LfQueue.get_next_to_read p.outgoing_md_updates) [
    | none ↦ ok (tt, p)
    | some i ↦ bind_result (publish i p) (λ r. publish_all fuel r.1)
  ]

  -- One round of `run`: then `sendAndRecv` empties the outbound buffer. The result is what was sent.
  unfoldable pub run_round : M MarketDataPublisher (List ℕ)
  run_round p =
      bind_result (publish_all (LfQueue.size p.outgoing_md_updates + 1) p)
        (λ r. ok (r.1.outbound, record r.1 { outbound = [] }))

-- `start` and `stop` of the publisher. Neither starts the synthesizer's thread.
unfoldable pub start : (thread_made : Bool) → M MarketDataPublisher (Unit {0})
start thread_made = do
  modify (λ (p : MarketDataPublisher). record p { running = true })
  assert thread_made

unfoldable pub stop : MarketDataPublisher → MarketDataPublisher
stop p = record p { running = false }
