-- ===== src/Synthesizer/Rejects.antt =====
-- The updates at which `addToSnapshot` of exchange/market_data/snapshot_synthesizer.cpp ends the process.
use low_latency_trading_engi.Base.{ℕ, ◌≡◌, false, Option, none, some, err, Fault, lt→ltb, ==-self}
use low_latency_trading_engi.Types.{me_max_order_ids, same_side}
use low_latency_trading_engi.Messages.{MarketUpdateType, MeMarketUpdate, MdpMarketUpdate}
use low_latency_trading_engi.MemPool.{object_at}
use low_latency_trading_engi.Synthesizer.{
  SnapshotSynthesizer, find_order, add_entry, modify_entry, cancel_entry, known_order, apply_update,
  add_to_snapshot,
}
use low_latency_trading_engi.Synthesizer.Updates.{InTable}

module _ (s : SnapshotSynthesizer) (m : MdpMarketUpdate) (inside : InTable m.me_market_update) where
  abbrev u : MeMarketUpdate
  u = m.me_market_update

  abbrev cell : Option ℕ
  cell = s.ticker_orders u.ticker_id u.order_id

  -- The assertions that end a run.
  pub add_taken :
      (p : ℕ)
      → u.kind ≡ MarketUpdateType.add
      → cell ≡ some p
      → add_to_snapshot m s ≡ err Fault.assert_failed
  unfolding add_to_snapshot apply_update add_entry find_order
  add_taken p k e = simp (
    lt→ltb u.ticker_id me_max_order_ids inside.0,
    k,
    lt→ltb u.order_id me_max_order_ids inside.1,
    e,
  )

  pub modify_absent :
      u.kind ≡ MarketUpdateType.modify → cell ≡ none → add_to_snapshot m s ≡ err Fault.assert_failed
  unfolding add_to_snapshot apply_update modify_entry find_order known_order
  modify_absent k e = simp (
    lt→ltb u.ticker_id me_max_order_ids inside.0,
    k,
    lt→ltb u.order_id me_max_order_ids inside.1,
    e,
  )

  pub cancel_absent :
      u.kind ≡ MarketUpdateType.cancel → cell ≡ none → add_to_snapshot m s ≡ err Fault.assert_failed
  unfolding add_to_snapshot apply_update cancel_entry find_order known_order
  cancel_absent k e = simp (
    lt→ltb u.ticker_id me_max_order_ids inside.0,
    k,
    lt→ltb u.order_id me_max_order_ids inside.1,
    e,
  )

  pub modify_other_side :
      (p : ℕ)
      → u.kind ≡ MarketUpdateType.modify
      → cell ≡ some p
      → (object_at s.order_pool p).order_id ≡ u.order_id
      → same_side (object_at s.order_pool p).side u.side ≡ false
      → add_to_snapshot m s ≡ err Fault.assert_failed
  unfolding add_to_snapshot apply_update modify_entry find_order known_order
  modify_other_side p k e same side = simp (
    lt→ltb u.ticker_id me_max_order_ids inside.0,
    k,
    lt→ltb u.order_id me_max_order_ids inside.1,
    e,
    same,
    ==-self u.order_id,
    side,
  )

  pub cancel_other_side :
      (p : ℕ)
      → u.kind ≡ MarketUpdateType.cancel
      → cell ≡ some p
      → (object_at s.order_pool p).order_id ≡ u.order_id
      → same_side (object_at s.order_pool p).side u.side ≡ false
      → add_to_snapshot m s ≡ err Fault.assert_failed
  unfolding add_to_snapshot apply_update cancel_entry find_order known_order
  cancel_other_side p k e same side = simp (
    lt→ltb u.ticker_id me_max_order_ids inside.0,
    k,
    lt→ltb u.order_id me_max_order_ids inside.1,
    e,
    same,
    ==-self u.order_id,
    side,
  )
