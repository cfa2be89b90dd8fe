-- ===== src/Synthesizer/Updates.antt =====
-- What an update does to the table of SnapshotSynthesizer, in `addToSnapshot` of
-- exchange/market_data/snapshot_synthesizer.cpp.
use low_latency_trading_engi.Base.{
  ℕ, ◌<◌, ◌≡◌, refl, ◌≢◌, true, false, Option, none, some, ok, arith, lt→ltb, ◌==◌, ==-self, update,
}
use low_latency_trading_engi.Types.{next64, TickerId, OrderId, me_max_order_ids, same_side}
use low_latency_trading_engi.Messages.{MarketUpdateType, MeMarketUpdate, MdpMarketUpdate}
use low_latency_trading_engi.MemPool.{MemPool, allocate, deallocate, set_object, object_at}
use low_latency_trading_engi.MemPool.Alloc.{IsValid, allocate_lem, deallocate_lem}
use low_latency_trading_engi.Synthesizer.{
  SnapshotSynthesizer, find_order, add_entry, modify_entry, cancel_entry, known_order, apply_update,
  add_to_snapshot,
}

-- The table entry of one order changes, and no other.
abbrev pub OnlyEntry :
    SnapshotSynthesizer → TickerId → OrderId → Option ℕ → SnapshotSynthesizer → Type 0
OnlyEntry s t o p s' = s'.ticker_orders ≡ update s.ticker_orders t (update (s.ticker_orders t) o p)

abbrev pub InTable : MeMarketUpdate → Type 0
InTable u = (u.ticker_id < me_max_order_ids) × (u.order_id < me_max_order_ids)

-- The table after an update, with its new pool.
abbrev pub edited :
    SnapshotSynthesizer → MdpMarketUpdate → Option ℕ → MemPool MeMarketUpdate → SnapshotSynthesizer
edited s m e q = record s {
  ticker_orders =
      update s.ticker_orders m.me_market_update.ticker_id
        (update (s.ticker_orders m.me_market_update.ticker_id) m.me_market_update.order_id e);
  order_pool = q;
  last_inc_seq_num = m.seq_num;
}

module _ (s : SnapshotSynthesizer) (m : MdpMarketUpdate) (inside : InTable m.me_market_update)
    (n : m.seq_num ≡ next64 s.last_inc_seq_num) where
  abbrev u : MeMarketUpdate
  u = m.me_market_update

  pub add_runs :
      (q : MemPool MeMarketUpdate) (i : ℕ)
      → u.kind ≡ MarketUpdateType.add
      → s.ticker_orders u.ticker_id u.order_id ≡ none
      → allocate u s.order_pool ≡ ok (i, q)
      → add_to_snapshot m s ≡ ok (tt, edited s m (some i) q)
  unfolding add_to_snapshot apply_update add_entry find_order
  add_runs q i k e run =
      let in_order : (m.seq_num == next64 s.last_inc_seq_num) ≡ true = ground (arith, n) in
      simp (
        lt→ltb u.ticker_id me_max_order_ids inside.0,
        k,
        lt→ltb u.order_id me_max_order_ids inside.1,
        e,
        run,
        in_order,
      )

  pub cancel_runs :
      (q : MemPool MeMarketUpdate) (p : ℕ)
      → u.kind ≡ MarketUpdateType.cancel
      → s.ticker_orders u.ticker_id u.order_id ≡ some p
      → (s.order_pool.store p).object.order_id ≡ u.order_id
      → same_side (s.order_pool.store p).object.side u.side ≡ true
      → deallocate p s.order_pool ≡ ok (tt, q)
      → add_to_snapshot m s ≡ ok (tt, edited s m none q)
  unfolding add_to_snapshot apply_update cancel_entry find_order known_order
  cancel_runs q p k e same side run =
      let in_order : (m.seq_num == next64 s.last_inc_seq_num) ≡ true = ground (arith, n) in
      simp (
        lt→ltb u.ticker_id me_max_order_ids inside.0,
        k,
        lt→ltb u.order_id me_max_order_ids inside.1,
        e,
        same,
        ==-self u.order_id,
        side,
        run,
        in_order,
      )

  pub modify_runs :
      (p : ℕ)
      → u.kind ≡ MarketUpdateType.modify
      → s.ticker_orders u.ticker_id u.order_id ≡ some p
      → (s.order_pool.store p).object.order_id ≡ u.order_id
      → same_side (s.order_pool.store p).object.side u.side ≡ true
      → add_to_snapshot m s
        ≡ ok (
          tt,
          record s {
            order_pool =
                set_object s.order_pool p
                  (record (object_at s.order_pool p) { qty = u.qty; price = u.price });
            last_inc_seq_num = m.seq_num;
          },
        )
  unfolding add_to_snapshot apply_update modify_entry find_order known_order
  modify_runs p k e same side =
      let in_order : (m.seq_num == next64 s.last_inc_seq_num) ≡ true = ground (arith, n) in
      simp (
        lt→ltb u.ticker_id me_max_order_ids inside.0,
        k,
        lt→ltb u.order_id me_max_order_ids inside.1,
        e,
        same,
        ==-self u.order_id,
        side,
        in_order,
      )

-- An ADD with the next sequence number, ticker and order number in range, for an order not in the
-- table, puts a copy of the update into the table, as long as the pool is valid and has a free
-- block besides its next one.
pub add_to_snapshot-add :
    (s : SnapshotSynthesizer) (m : MdpMarketUpdate) (j : ℕ)
    → m.me_market_update.kind ≡ MarketUpdateType.add
    → InTable m.me_market_update
    → m.seq_num ≡ next64 s.last_inc_seq_num
    → s.ticker_orders m.me_market_update.ticker_id m.me_market_update.order_id ≡ none
    → IsValid s.order_pool
    → j < s.order_pool.store_size
    → j ≢ s.order_pool.next_free_index
    → (s.order_pool.store j).is_free ≡ true
    → (s' : SnapshotSynthesizer) × (add_to_snapshot m s ≡ ok (tt, s'))
      × OnlyEntry s m.me_market_update.ticker_id m.me_market_update.order_id
          (some s.order_pool.next_free_index)
          s'
      × ((s'.order_pool.store s.order_pool.next_free_index).object ≡ m.me_market_update)
      × (s'.last_inc_seq_num ≡ m.seq_num)
      × IsValid s'.order_pool
add_to_snapshot-add s m j k inside n e v hj ne free =
    let (q, run, done) = allocate_lem s.order_pool m.me_market_update j v hj ne free in
    (
      edited s m (some s.order_pool.next_free_index) q,
      add_runs s m inside n q s.order_pool.next_free_index k e run,
      refl,
      rw (done.store, ==-self s.order_pool.next_free_index),
      refl,
      done.valid,
    )

-- A CANCEL with the next sequence number, ticker and order number in range, for an order in the
-- table of the same number and side, takes it out and frees its block, which was in use in a
-- valid pool.
pub add_to_snapshot-cancel :
    (s : SnapshotSynthesizer) (m : MdpMarketUpdate) (p : ℕ)
    → m.me_market_update.kind ≡ MarketUpdateType.cancel
    → InTable m.me_market_update
    → m.seq_num ≡ next64 s.last_inc_seq_num
    → s.ticker_orders m.me_market_update.ticker_id m.me_market_update.order_id ≡ some p
    → (s.order_pool.store p).object.order_id ≡ m.me_market_update.order_id
    → same_side (s.order_pool.store p).object.side m.me_market_update.side ≡ true
    → IsValid s.order_pool
    → p < s.order_pool.store_size
    → (s.order_pool.store p).is_free ≡ false
    → (s' : SnapshotSynthesizer) × (add_to_snapshot m s ≡ ok (tt, s'))
      × OnlyEntry s m.me_market_update.ticker_id m.me_market_update.order_id none s'
      × ((s'.order_pool.store p).is_free ≡ true)
      × (s'.last_inc_seq_num ≡ m.seq_num)
      × IsValid s'.order_pool
add_to_snapshot-cancel s m p k inside n e same side v hp used =
    let (q, run, v', st, sz, same_next) = deallocate_lem s.order_pool p v hp used in
    (
      edited s m none q,
      cancel_runs s m inside n q p k e same side run,
      refl,
      rw (st, ==-self p),
      refl,
      v',
    )
