-- ===== src/Synthesizer/Edits.antt =====
-- What the updates that `addToSnapshot` of exchange/market_data/snapshot_synthesizer.cpp carries out do
-- to the live orders.
use low_latency_trading_engi.Base.{
  ℕ, ◌<◌, ◌≡◌, ◌≢◌, refl, sym, ap, subst, ◌∙◌, inl, inr, true, false, Option, none, some,
  Option-cases, Result, ok, err, Fault, arith, ==-self, ==-ne, update,
}
use low_latency_trading_engi.Types.{next64, same_side}
use low_latency_trading_engi.Messages.{MarketUpdateType, MeMarketUpdate, MdpMarketUpdate}
use low_latency_trading_engi.MemPool.{object_at, set_object}
use low_latency_trading_engi.MemPool.Alloc.{allocate_lem, deallocate_lem}
use low_latency_trading_engi.Synthesizer.{SnapshotSynthesizer, add_to_snapshot}
use low_latency_trading_engi.Synthesizer.Updates.{
  InTable, edited, add_runs, cancel_runs, modify_runs,
}
use low_latency_trading_engi.Synthesizer.Live.{
  Live, put, IsElsewhere, put_cases, put-hit, live_add, Entry, Represents, Entry-at, Puts,
  Puts-Represents,
}
use low_latency_trading_engi.Synthesizer.Rejects.{add_taken}

-- Two blocks are free: the next one and another.
abbrev pub HasSpare : SnapshotSynthesizer → Type 0
HasSpare s =
    (j : ℕ) × (j < s.order_pool.store_size)
    × (j ≢ s.order_pool.next_free_index)
    × ((s.order_pool.store j).is_free ≡ true)

-- A run has the outcome that the live orders ask for.
abbrev pub Agrees : MdpMarketUpdate → Option Live → Result (Unit {0} × SnapshotSynthesizer) → Type 0
Agrees m none r = r ≡ err Fault.assert_failed
Agrees m (some live) r =
    (s' : SnapshotSynthesizer) × (r ≡ ok (tt, s'))
    × Represents s' live
    × (s'.last_inc_seq_num ≡ m.seq_num)

update_other : {A : Type 0} (f : ℕ → A) (i j : ℕ) (v : A) → i ≢ j → update f i v j ≡ f j
update_other f i j v ne = rw (==-ne i j ne)

update_self : {A : Type 0} (f : ℕ → A) (i : ℕ) (v : A) → update f i v i ≡ v
update_self f i v = rw (==-self i)

some_eq : {a b : ℕ} → some a ≡ some b → a ≡ b
some_eq e = cc

module _ (s : SnapshotSynthesizer) (m : MdpMarketUpdate) (live : Live) (r : Represents s live)
    (inside : InTable m.me_market_update) (n : m.seq_num ≡ next64 s.last_inc_seq_num) where
  abbrev pub u : MeMarketUpdate
  u = m.me_market_update

  abbrev pub cell : Option ℕ
  cell = s.ticker_orders u.ticker_id u.order_id

  -- The entry that an update finds.
  pub found : (p : ℕ) → cell ≡ some p → Entry s u.order_id (some p) (live u.ticker_id u.order_id)
  found p e = Entry-at s live u.ticker_id u.order_id (some p) r e

  not_next : (t o p : ℕ) → s.ticker_orders t o ≡ some p → p ≢ s.order_pool.next_free_index
  not_next t o p h d =
      let (_, _, _, used) = Entry-at s live t o (some p) r h in
      cc (r.valid.next_free, used, ap (λ i. (s.order_pool.store i).is_free) d)

  pub add-Agrees :
      u.kind ≡ MarketUpdateType.add
      → HasSpare s
      → Agrees m (live_add u live (live u.ticker_id u.order_id)) (add_to_snapshot m s)
  add-Agrees k (j, hj, ne, free) = elim (Option-cases cell) [
    | inl e ↦
        let (q, run, done) = allocate_lem s.order_pool u j r.valid hj ne free in
        let i = s.order_pool.next_free_index in
        let s' = edited s m (some i) q in
        let filled : q.store i ≡ record { object = u; is_free = false } =
          ap (λ f. f i) done.store ∙ update_self s.order_pool.store i _ in
        let puts : Puts s u.ticker_id u.order_id (some i) s' = record {
          valid = done.valid;
          pool_size = done.store_size;
          table = λ t o. refl;
          kept = λ t o p other h.
              ap (λ f. f p) done.store
              ∙ update_other s.order_pool.store i p _ (λ d. not_next t o p h (sym d));
          own = λ t o p same h. absurd (not_next t o p h (sym (some_eq same)));
        } in
        subst (λ x. Agrees m (live_add u live x) (add_to_snapshot m s))
          (sym (Entry-at s live u.ticker_id u.order_id none r e))
          (
            s',
            add_runs s m inside n q i k e run,
            Puts-Represents s s' live u.ticker_id u.order_id (some i) (some u) r puts (
              ap (λ c. some c.object) (sym filled),
              ap (λ c. c.object.order_id) filled,
              omega (arith, done.store_size, r.valid.next_in),
              ap (λ c. c.is_free) filled,
            ),
            refl,
          )
    | inr (p, e) ↦
        subst (λ x. Agrees m (live_add u live x) (add_to_snapshot m s)) (sym (found p e).0)
          (add_taken s m inside p k e)
  ]

  -- The block of the entry is no other entry's.
  other_block :
      (p t o p' : ℕ)
      → cell ≡ some p
      → IsElsewhere u.ticker_id u.order_id t o
      → s.ticker_orders t o ≡ some p'
      → p ≢ p'
  other_block p t o p' e other h d =
      other (r.apart u.ticker_id u.order_id t o p e (h ∙ ap some (sym d)))

  same_cell :
      (p t o : ℕ)
      → cell ≡ some p
      → s.ticker_orders t o ≡ put s.ticker_orders u.ticker_id u.order_id (some p) t o
  same_cell p t o e = elim (put_cases u.ticker_id u.order_id t o) [
    | inl hit ↦
        ap (λ x. s.ticker_orders x o) (sym hit.0)
        ∙ ap (λ x. s.ticker_orders u.ticker_id x) (sym hit.1)
        ∙ e
        ∙ sym (put-hit s.ticker_orders u.ticker_id u.order_id (some p) t o hit)
    | inr (other, same) ↦ sym (same (Option ℕ) s.ticker_orders (some p))
  ]

  pub modify-ok :
      (p : ℕ)
      → u.kind ≡ MarketUpdateType.modify
      → cell ≡ some p
      → same_side (object_at s.order_pool p).side u.side ≡ true
      → Agrees m
          (some (
            put live u.ticker_id u.order_id
              (some (record (object_at s.order_pool p) { qty = u.qty; price = u.price }))))
          (add_to_snapshot m s)
  modify-ok p k e side =
      let (_, number, inside_pool, used) = found p e in
      let x : MeMarketUpdate = record (object_at s.order_pool p) { qty = u.qty; price = u.price } in
      let s' : SnapshotSynthesizer = record s {
        order_pool = set_object s.order_pool p x;
        last_inc_seq_num = m.seq_num;
      } in
      let stored =
        update_self s.order_pool.store p
          (record { object = x; is_free = (s.order_pool.store p).is_free }) in
      let puts : Puts s u.ticker_id u.order_id (some p) s' = record {
        valid = record { next_in = r.valid.next_in; next_free = ground (arith, r.valid.next_free) };
        pool_size = refl;
        table = λ t o. same_cell p t o e;
        kept = λ t o p' other h.
            update_other s.order_pool.store p p' _ (other_block p t o p' e other h);
        own = λ t o p' same h. r.apart u.ticker_id u.order_id t o p e (h ∙ sym same);
      } in
      (
        s',
        modify_runs s m inside n p k e number side,
        Puts-Represents s s' live u.ticker_id u.order_id (some p) (some x) r puts (
          ap (λ c. some c.object) (sym stored),
          ap (λ c. c.object.order_id) stored ∙ number,
          inside_pool,
          ap (λ c. c.is_free) stored ∙ used,
        ),
        refl,
      )

  pub cancel-ok :
      (p : ℕ)
      → u.kind ≡ MarketUpdateType.cancel
      → cell ≡ some p
      → same_side (object_at s.order_pool p).side u.side ≡ true
      → Agrees m (some (put live u.ticker_id u.order_id none)) (add_to_snapshot m s)
  cancel-ok p k e side =
      let (_, number, inside_pool, used) = found p e in
      let (q, run, v', st, sz, same_next) =
        deallocate_lem s.order_pool p r.valid inside_pool used in
      let s' = edited s m none q in
      let puts : Puts s u.ticker_id u.order_id none s' = record {
        valid = v';
        pool_size = sz;
        table = λ t o. refl;
        kept = λ t o p' other h.
            ap (λ f. f p') st
            ∙ update_other s.order_pool.store p p' _ (other_block p t o p' e other h);
        own = λ t o p' same h. absurd (cc);
      } in
      (
        s',
        cancel_runs s m inside n q p k e number side run,
        Puts-Represents s s' live u.ticker_id u.order_id none none r puts refl,
        refl,
      )
