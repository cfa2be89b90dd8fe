-- ===== src/Synthesizer.antt =====
-- `SnapshotSynthesizer` of exchange/market_data/snapshot_synthesizer.h and
-- exchange/market_data/snapshot_synthesizer.cpp: it keeps the live orders of every ticker, and sends
-- them out as a snapshot from time to time. Both dimensions of its table are ME_MAX_ORDER_IDS.
pub mod Snapshot
pub mod Updates
pub mod Live
pub mod Rejects
pub mod Edits
pub mod Refinement
pub mod Thread
mod Tests
use low_latency_trading_engi.Base.{
  ℕ, zero, suc, ◌+◌, Bool, true, false, Option, none, some, List, [], ◌∷◌, ◌++◌, Fault, Result, ok,
  err, bind_result, M, ◌>>=◌, ◌>>◌, pure, fail, gets, modify, assert, deref, ltb, ◌==◌,
  if◌then◌else◌, update, is_some, not,
}
use low_latency_trading_engi.Types.{next64, TickerId, OrderId, me_max_order_ids, same_side}
use low_latency_trading_engi.MemPool
use low_latency_trading_engi.MemPool.{MemPool}
use low_latency_trading_engi.Messages.{
  MarketUpdateType, MeMarketUpdate, MdpMarketUpdate, default_update,
}

pub record SnapshotSynthesizer : Type 0 where
  pub ticker_orders : TickerId → OrderId → Option ℕ
  pub last_inc_seq_num : ℕ
  pub order_pool : MemPool MeMarketUpdate

-- The constructor fills every row with null pointers.
unfoldable pub make : SnapshotSynthesizer
make = record {
  ticker_orders = λ _ _. none;
  last_inc_seq_num = 0;
  order_pool = MemPool.make default_update me_max_order_ids;
}

abbrev pub set_ticker_order :
    TickerId → OrderId → Option ℕ → SnapshotSynthesizer → SnapshotSynthesizer
set_ticker_order t o p s = record s {
  ticker_orders = update s.ticker_orders t (update (s.ticker_orders t) o p);
}

-- `ticker_orders_.at(ticker)` and `orders->at(order)`.
unfoldable pub find_order : TickerId → OrderId → M SnapshotSynthesizer (Option ℕ)
find_order t o s =
    if ltb t me_max_order_ids
    then if ltb o me_max_order_ids then ok (s.ticker_orders t o, s) else err Fault.out_of_range
    else err Fault.out_of_range

-- Not to be found is an assertion here, not a null pointer.
abbrev pub require : Option ℕ → M SnapshotSynthesizer ℕ
require none = fail Fault.assert_failed
require (some p) = pure p

unfoldable pub add_entry : MeMarketUpdate → M SnapshotSynthesizer (Unit {0})
add_entry u = do
  order ← find_order u.ticker_id u.order_id
  assert (not (is_some order))
  (λ (s : SnapshotSynthesizer). bind_result (MemPool.allocate u s.order_pool) (λ r.
      ok (tt, set_ticker_order u.ticker_id u.order_id (some r.0) (record s { order_pool = r.1 }))))

-- The order that an update names, checked to be the one it means.
unfoldable pub known_order : MeMarketUpdate → M SnapshotSynthesizer ℕ
known_order u = do
  order ← find_order u.ticker_id u.order_id
  p ← require order
  o ← gets (λ (s : SnapshotSynthesizer). MemPool.object_at s.order_pool p)
  assert (o.order_id == u.order_id)
  assert (same_side o.side u.side)
  pure p

unfoldable pub modify_entry : MeMarketUpdate → M SnapshotSynthesizer (Unit {0})
modify_entry u = do
  p ← known_order u
  modify (λ (s : SnapshotSynthesizer). record s {
    order_pool =
        MemPool.set_object s.order_pool p
          (record (MemPool.object_at s.order_pool p) { qty = u.qty; price = u.price });
  })

unfoldable pub cancel_entry : MeMarketUpdate → M SnapshotSynthesizer (Unit {0})
cancel_entry u = do
  p ← known_order u
  (λ (s : SnapshotSynthesizer).
      bind_result (MemPool.deallocate p s.order_pool) (λ r. ok (tt, record s { order_pool = r.1 })))
  modify (set_ticker_order u.ticker_id u.order_id none)

-- The switch on the type of the update. The row of the ticker is looked up before it.
unfoldable pub apply_update : MarketUpdateType → MeMarketUpdate → M SnapshotSynthesizer (Unit {0})
apply_update MarketUpdateType.add u = add_entry u
apply_update MarketUpdateType.modify u = modify_entry u
apply_update MarketUpdateType.cancel u = cancel_entry u
apply_update MarketUpdateType.invalid u = pure tt
apply_update MarketUpdateType.clear u = pure tt
apply_update MarketUpdateType.trade u = pure tt
apply_update MarketUpdateType.snapshot_start u = pure tt
apply_update MarketUpdateType.snapshot_end u = pure tt

unfoldable pub add_to_snapshot : MdpMarketUpdate → M SnapshotSynthesizer (Unit {0})
add_to_snapshot m s =
    if ltb m.me_market_update.ticker_id me_max_order_ids
    then bind_result (apply_update m.me_market_update.kind m.me_market_update s) (λ r.
      if m.seq_num == next64 r.1.last_inc_seq_num
      then ok (tt, record r.1 { last_inc_seq_num = m.seq_num })
      else err Fault.assert_failed)
    else err Fault.out_of_range

-- Messages of `publishSnapshot`.
abbrev pub bound_update : MarketUpdateType → ℕ → MeMarketUpdate
bound_update kind last = record default_update { kind = kind; order_id = last }

abbrev pub clear_update : TickerId → MeMarketUpdate
clear_update t = record default_update { kind = MarketUpdateType.clear; ticker_id = t }

abbrev pub numbered : ℕ → MeMarketUpdate → MdpMarketUpdate
numbered n u = record { seq_num = n; me_market_update = u }

-- The loop over a row of `left` more orders from `o` on; `n` is `snapshot_size`. What follows the row
-- is given the number that comes next.
unfoldable pub row_messages :
    SnapshotSynthesizer
    → TickerId
    → ℕ
    → OrderId
    → ℕ
    → (ℕ → List MdpMarketUpdate)
    → List MdpMarketUpdate
row_messages s t zero o n then_rest = then_rest n
row_messages s t (suc left) o n then_rest = elim (s.ticker_orders t o) [
  | none ↦ row_messages s t left (o + 1) n then_rest
  | some p ↦
      numbered n (MemPool.object_at s.order_pool p)
      ∷ row_messages s t left (o + 1) (n + 1) then_rest
]

-- The loop over the tickers, each with its row of `orders` orders, and then the end message.
unfoldable pub ticker_messages :
    SnapshotSynthesizer → (orders left : ℕ) → TickerId → ℕ → List MdpMarketUpdate
ticker_messages s orders zero t n =
    numbered n (bound_update MarketUpdateType.snapshot_end s.last_inc_seq_num) ∷ []
ticker_messages s orders (suc left) t n =
    numbered n (clear_update t)
    ∷ row_messages s t orders 0 (n + 1) (λ m. ticker_messages s orders left (t + 1) m)

-- All that `publishSnapshot` sends, for a table of the given size.
unfoldable pub snapshot_messages : SnapshotSynthesizer → (tickers orders : ℕ) → List MdpMarketUpdate
snapshot_messages s tickers orders =
    numbered 0 (bound_update MarketUpdateType.snapshot_start s.last_inc_seq_num)
    ∷ ticker_messages s orders tickers 0 1

unfoldable pub publish_snapshot : SnapshotSynthesizer → List MdpMarketUpdate
publish_snapshot s = snapshot_messages s me_max_order_ids me_max_order_ids
