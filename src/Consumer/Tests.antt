-- ===== src/Consumer/Tests.antt =====
-- A consumer that expects message 5, for the theorems on
-- trading/market_data/market_data_consumer.cpp.
use low_latency_trading_engi.Base.{
  ℕ, ◌≡◌, refl, Bool, true, false, ok, List, [], ◌∷◌, ◌++◌, zero, suc, pos, map, ◌==◌,
  if◌then◌else◌, arith,
}
use low_latency_trading_engi.LfQueue.{write_all}
use low_latency_trading_engi.Messages.{
  MarketUpdateType, MeMarketUpdate, MdpMarketUpdate, default_update,
}
use low_latency_trading_engi.Consumer.{MarketDataConsumer, handle_all}
use low_latency_trading_engi.Consumer.Thread.{ConsumerThread, run}
use low_latency_trading_engi.Consumer.Delivery.{delivered, run-stream}
use low_latency_trading_engi.Consumer.Recovery.{StillRecovering, recovery_never_ends}

abbrev consumer : MarketDataConsumer
consumer = record {
  next_exp_inc_seq_num = 5;
  incoming_md_updates = record {
    store = λ _. default_update;
    store_size = 8;
    next_write_index = 0;
    next_read_index = 0;
    num_elements = 0;
  };
  running = true;
  in_recovery = false;
  snapshot_queued_msgs = [];
  incremental_queued_msgs = [];
  snapshot_joined = false;
}

abbrev recovering : MarketDataConsumer
recovering = record consumer { in_recovery = true; snapshot_joined = true }

abbrev two_updates : List MeMarketUpdate
two_updates = default_update ∷ record default_update { qty = 3 } ∷ []

abbrev message : ℕ → MarketUpdateType → MdpMarketUpdate
message n kind = record { seq_num = n; me_market_update = record default_update { kind = kind } }

-- A whole snapshot of one order, and the incremental message behind it.
abbrev snapshot : List (Bool × MdpMarketUpdate)
snapshot =
    (true, message 0 MarketUpdateType.snapshot_start)
    ∷ (true, message 1 MarketUpdateType.clear)
    ∷ (true, message 2 MarketUpdateType.add)
    ∷ (true, message 3 MarketUpdateType.snapshot_end)
    ∷ (false, message 7 MarketUpdateType.add)
    ∷ []

-- An update's bytes: the first one tells its number.
abbrev decode : List ℕ → MdpMarketUpdate
decode [] = record { seq_num = 0; me_market_update = default_update }
decode (b ∷ bs) = record {
  seq_num = b;
  me_market_update = if b == 6 then record default_update { qty = 3 } else default_update;
}

abbrev bytes : (count b : ℕ) → List ℕ
bytes zero b = []
bytes (suc n) b = b ∷ bytes n b

abbrev thread : ConsumerThread
thread = record {
  consumer = consumer;
  incremental_fd = pos 4;
  incremental_inbound = [];
  snapshot_inbound = [];
}

-- Messages 5 and 6 and the beginning of message 7, in three pieces.
abbrev pieces : List (List ℕ)
pieces = bytes 20 5 ∷ (bytes 22 5 ++ bytes 10 6) ∷ (bytes 32 6 ++ bytes 3 7) ∷ []

run_stream_example :
    run decode true (map (delivered decode true) pieces) thread
    ≡ ok (
      tt,
      record thread {
        incremental_inbound = bytes 3 7;
        consumer = record consumer {
          next_exp_inc_seq_num = 7;
          incoming_md_updates = write_all consumer.incoming_md_updates two_updates;
        };
      },
    )
run_stream_example =
    run-stream decode true pieces (bytes 42 5 ∷ bytes 42 6 ∷ []) (bytes 3 7) two_updates 5 thread
      refl (refl, (refl, tt)) (omega arith) refl refl refl refl refl (omega arith)

recovery_example :
    (c' : MarketDataConsumer) × (handle_all true snapshot recovering ≡ ok (tt, c'))
    × StillRecovering recovering c'
recovery_example =
    recovery_never_ends true snapshot recovering (record { recovering = refl; snapshot = tt })
