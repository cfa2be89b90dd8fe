-- ===== src/Synthesizer/Refinement.antt =====
-- `addToSnapshot` of exchange/market_data/snapshot_synthesizer.cpp implements the table of live orders.
use low_latency_trading_engi.Base.{
  ℕ, ◌≡◌, refl, sym, subst, inl, inr, true, false, Bool, Bool-cases, Option, none, some,
  Option-cases, ok, arith, lt→ltb, ◌==◌, if◌then◌else◌,
}
use low_latency_trading_engi.Types.{next64, me_max_order_ids, same_side}
use low_latency_trading_engi.Messages.{
  MarketUpdateType, MeMarketUpdate, MdpMarketUpdate, default_update,
}
use low_latency_trading_engi.MemPool.{object_at}
use low_latency_trading_engi.MemPool.Alloc.{make-IsValid}
use low_latency_trading_engi.Synthesizer.{SnapshotSynthesizer, make, apply_update, add_to_snapshot}
use low_latency_trading_engi.Synthesizer.Updates.{InTable}
use low_latency_trading_engi.Synthesizer.Live.{
  Live, live_modify, live_cancel, live_update, Entry-kept, Represents, Entry-at,
}
use low_latency_trading_engi.Synthesizer.Rejects.{
  modify_absent, cancel_absent, modify_other_side, cancel_other_side,
}
use low_latency_trading_engi.Synthesizer.Edits.{
  HasSpare, Agrees, found, add-Agrees, modify-ok, cancel-ok,
}

module _ (s : SnapshotSynthesizer) (m : MdpMarketUpdate) (live : Live) (r : Represents s live)
    (inside : InTable m.me_market_update) (n : m.seq_num ≡ next64 s.last_inc_seq_num) where
  abbrev u : MeMarketUpdate
  u = m.me_market_update

  abbrev cell : Option ℕ
  cell = s.ticker_orders u.ticker_id u.order_id

  by_side :
      (b c : Bool) (next : Live)
      → b ≡ c
      → Agrees m (if c then some next else none) (add_to_snapshot m s)
      → Agrees m (if b then some next else none) (add_to_snapshot m s)
  by_side b c next e h =
      subst (λ x. Agrees m (if x then some next else none) (add_to_snapshot m s)) (sym e) h

  modify-Agrees :
      u.kind ≡ MarketUpdateType.modify
      → Agrees m (live_modify u live (live u.ticker_id u.order_id)) (add_to_snapshot m s)
  modify-Agrees k = elim (Option-cases cell) [
    | inl e ↦
        subst (λ x. Agrees m (live_modify u live x) (add_to_snapshot m s))
          (sym (Entry-at s live u.ticker_id u.order_id none r e)) (modify_absent s m inside k e)
    | inr (p, e) ↦
        let side = same_side (object_at s.order_pool p).side u.side in
        subst (λ x. Agrees m (live_modify u live x) (add_to_snapshot m s))
          (sym (found s m live r inside n p e).0)
          (elim (Bool-cases side) [
            | inl yes_side ↦
                by_side side true _ yes_side (modify-ok s m live r inside n p k e yes_side)
            | inr no_side ↦
                by_side side false _ no_side
                  (modify_other_side s m inside p k e (found s m live r inside n p e).1 no_side)
          ])
  ]

  cancel-Agrees :
      u.kind ≡ MarketUpdateType.cancel
      → Agrees m (live_cancel u live (live u.ticker_id u.order_id)) (add_to_snapshot m s)
  cancel-Agrees k = elim (Option-cases cell) [
    | inl e ↦
        subst (λ x. Agrees m (live_cancel u live x) (add_to_snapshot m s))
          (sym (Entry-at s live u.ticker_id u.order_id none r e)) (cancel_absent s m inside k e)
    | inr (p, e) ↦
        let side = same_side (object_at s.order_pool p).side u.side in
        subst (λ x. Agrees m (live_cancel u live x) (add_to_snapshot m s))
          (sym (found s m live r inside n p e).0)
          (elim (Bool-cases side) [
            | inl yes_side ↦
                by_side side true _ yes_side (cancel-ok s m live r inside n p k e yes_side)
            | inr no_side ↦
                by_side side false _ no_side
                  (cancel_other_side s m inside p k e (found s m live r inside n p e).1 no_side)
          ])
  ]

  abbrev passed : SnapshotSynthesizer
  passed = record s { last_inc_seq_num = m.seq_num }

  passed-Agrees : add_to_snapshot m s ≡ ok (tt, passed) → Agrees m (some live) (add_to_snapshot m s)
  passed-Agrees run = (
    passed,
    run,
    record {
      valid = r.valid;
      entry = λ t o.
          Entry-kept s passed o (s.ticker_orders t o) (live t o) refl (λ p h. refl) (r.entry t o);
      apart = r.apart;
    },
    refl,
  )

  abbrev IsIgnored : MarketUpdateType → Type 0
  IsIgnored kind = apply_update kind u s ≡ ok (tt, s)

  ignored_runs :
      (kind : MarketUpdateType)
      → u.kind ≡ kind
      → IsIgnored kind
      → add_to_snapshot m s ≡ ok (tt, passed)
  unfolding add_to_snapshot
  ignored_runs kind k h =
      let in_order : (m.seq_num == next64 s.last_inc_seq_num) ≡ true = ground (arith, n) in
      simp (lt→ltb u.ticker_id me_max_order_ids inside.0, k, h, in_order)

  by_kind :
      (kind : MarketUpdateType)
      → u.kind ≡ kind
      → HasSpare s
      → Agrees m (live_update kind u live) (add_to_snapshot m s)
  unfolding apply_update
  by_kind MarketUpdateType.add k spare = add-Agrees s m live r inside n k spare
  by_kind MarketUpdateType.modify k spare = modify-Agrees k
  by_kind MarketUpdateType.cancel k spare = cancel-Agrees k
  by_kind MarketUpdateType.invalid k spare = passed-Agrees (ignored_runs _ k refl)
  by_kind MarketUpdateType.clear k spare = passed-Agrees (ignored_runs _ k refl)
  by_kind MarketUpdateType.trade k spare = passed-Agrees (ignored_runs _ k refl)
  by_kind MarketUpdateType.snapshot_start k spare = passed-Agrees (ignored_runs _ k refl)
  by_kind MarketUpdateType.snapshot_end k spare = passed-Agrees (ignored_runs _ k refl)

-- A table that stands for a set of live orders, given the update with the next number, ticker and order
-- number in range, while two blocks are free: it then stands for the live orders as the update
-- changes them, and has noted the number; an update that does not fit the live orders ends the process.
pub add_to_snapshot-refines :
    (s : SnapshotSynthesizer) (m : MdpMarketUpdate) (live : Live)
    → Represents s live
    → InTable m.me_market_update
    → m.seq_num ≡ next64 s.last_inc_seq_num
    → HasSpare s
    → Agrees m (live_update m.me_market_update.kind m.me_market_update live) (add_to_snapshot m s)
add_to_snapshot-refines s m live r inside n spare =
    by_kind s m live r inside n m.me_market_update.kind refl spare

-- A constructed synthesizer stands for no live orders.
pub make-Represents : Represents make (λ _ _. none)
unfolding make
make-Represents = record {
  valid = make-IsValid default_update me_max_order_ids (omega arith);
  entry = λ t o. refl;
  apart = λ t o t' o' p h h'. absurd (cc);
}
