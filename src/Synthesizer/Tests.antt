-- ===== src/Synthesizer/Tests.antt =====
-- A table with one order, for the theorems on exchange/market_data/snapshot_synthesizer.cpp.
use low_latency_trading_engi.Base.{ℕ, refl, true, false, none, some, arith, update}
use low_latency_trading_engi.Types.{Side}
use low_latency_trading_engi.MemPool.Alloc.{IsValid}
use low_latency_trading_engi.Messages.{
  MarketUpdateType, MeMarketUpdate, MdpMarketUpdate, default_update,
}
use low_latency_trading_engi.Synthesizer.{SnapshotSynthesizer, add_to_snapshot, snapshot_messages}
use low_latency_trading_engi.Synthesizer.Live.{Live, put, live_update, Represents, Puts-Represents}
use low_latency_trading_engi.Synthesizer.Edits.{Agrees}
use low_latency_trading_engi.Synthesizer.Refinement.{add_to_snapshot-refines}
use low_latency_trading_engi.Synthesizer.Snapshot.{Consecutive, snapshot_messages-Consecutive}

abbrev change : MarketUpdateType → ℕ → MeMarketUpdate
change kind o = record default_update { kind = kind; order_id = o; ticker_id = 1; side = Side.buy }

-- Order 4 of ticker 1 is in block 0.
abbrev table : SnapshotSynthesizer
table = record {
  ticker_orders = update (λ _ _. none) 1 (update (λ _. none) 4 (some 0));
  last_inc_seq_num = 6;
  order_pool = record {
    store =
        update (λ _. record { object = default_update; is_free = true }) 0
          (record { object = change MarketUpdateType.add 4; is_free = false });
    store_size = 4;
    next_free_index = 1;
  };
}

abbrev add_five : MdpMarketUpdate
add_five = record { seq_num = 7; me_market_update = change MarketUpdateType.add 5 }

abbrev cancel_four : MdpMarketUpdate
cancel_four = record { seq_num = 7; me_market_update = change MarketUpdateType.cancel 4 }

pool-IsValid : IsValid table.order_pool
pool-IsValid = record { next_in = omega arith; next_free = refl }

snapshot_numbers_example : Consecutive 0 (snapshot_messages table 2 5)
snapshot_numbers_example = snapshot_messages-Consecutive table 2 5

-- The live order of the table.
abbrev one_live : Live
one_live = put (λ _ _. none) 1 4 (some (change MarketUpdateType.add 4))

abbrev bare : SnapshotSynthesizer
bare = record table { ticker_orders = λ _ _. none }

bare-Represents : Represents bare (λ _ _. none)
bare-Represents = record {
  valid = pool-IsValid;
  entry = λ t o. refl;
  apart = λ t o t' o' p h h'. absurd (cc);
}

table-Represents : Represents table one_live
table-Represents =
    Puts-Represents bare table (λ _ _. none) 1 4 (some 0) (some (change MarketUpdateType.add 4))
      bare-Represents
      (record {
        valid = pool-IsValid;
        pool_size = refl;
        table = λ t o. refl;
        kept = λ t o p other h. absurd (cc);
        own = λ t o p e h. absurd (cc);
      })
      (refl, refl, omega arith, refl)

refines_example :
    Agrees cancel_four
      (live_update MarketUpdateType.cancel (change MarketUpdateType.cancel 4) one_live)
      (add_to_snapshot cancel_four table)
refines_example =
    add_to_snapshot-refines table cancel_four one_live table-Represents (omega arith, omega arith)
      refl (2, omega arith, (λ e. omega arith), refl)
