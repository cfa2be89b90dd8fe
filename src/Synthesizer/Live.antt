-- ===== src/Synthesizer/Live.antt =====
-- The abstract view of the table of exchange/market_data/snapshot_synthesizer.h: which order is live
-- under each ticker and number, without pool, blocks and pointers.
use low_latency_trading_engi.Base.{
  ℕ, ◌<◌, ◌≡◌, refl, sym, ap, subst, ◌∙◌, ◌⊎◌, inl, inr, Bool-cases, true, false, Option, none,
  some, arith, ◌==◌, ==-self, if◌then◌else◌, update,
}
use low_latency_trading_engi.Types.{TickerId, OrderId, same_side}
use low_latency_trading_engi.Messages.{MarketUpdateType, MeMarketUpdate}
use low_latency_trading_engi.MemPool.{object_at}
use low_latency_trading_engi.MemPool.Alloc.{IsValid}
use low_latency_trading_engi.Synthesizer.{SnapshotSynthesizer}

abbrev pub Live : Type 0
Live = TickerId → OrderId → Option MeMarketUpdate

-- One cell of a table changes.
abbrev pub put : {A : Type 0} → (ℕ → ℕ → A) → ℕ → ℕ → A → ℕ → ℕ → A
put f t o a = update f t (update (f t) o a)

abbrev pub IsElsewhere : (t o t' o' : ℕ) → Type 0
IsElsewhere t o t' o' = ((t ≡ t') × (o ≡ o')) → ⊥

pub put-here : {A : Type 0} (f : ℕ → ℕ → A) (t o : ℕ) (a : A) → put f t o a t o ≡ a
put-here f t o a = rw (==-self t, ==-self o)

pub put-hit :
    {A : Type 0} (f : ℕ → ℕ → A) (t o : ℕ) (a : A) (t' o' : ℕ)
    → (t ≡ t') × (o ≡ o')
    → put f t o a t' o' ≡ a
put-hit f t o a t' o' (et, eo) =
    ap (λ y. put f t o a y o') (sym et) ∙ ap (λ y. put f t o a t y) (sym eo) ∙ put-here f t o a

t_eq : (t t' : ℕ) → (t == t') ≡ true → t ≡ t'
t_eq t t' e = ground arith

pub put_cases :
    (t o t' o' : ℕ)
    → ((t ≡ t') × (o ≡ o'))
      ⊎ (IsElsewhere t o t' o'
          × ((A : Type 0) (f : ℕ → ℕ → A) (a : A) → put f t o a t' o' ≡ f t' o'))
put_cases t o t' o' = elim (Bool-cases (t == t')) [
  | inl e ↦ elim (Bool-cases (o == o')) [
    | inl d ↦ inl (ground (arith, e), ground (arith, d))
    | inr d ↦ inr (λ h. ground (arith, h.1, d), λ A f a. rw (e, d) (ap (λ y. f y o') (t_eq t t' e)))
  ]
  | inr e ↦ inr (λ h. ground (arith, h.0, e), λ A f a. rw e)
]

-- What the updates mean for the live orders; an update that does not fit has no meaning.
abbrev pub live_modify : MeMarketUpdate → Live → Option MeMarketUpdate → Option Live
live_modify u live none = none
live_modify u live (some x) =
    if same_side x.side u.side
    then some (put live u.ticker_id u.order_id (some (record x { qty = u.qty; price = u.price })))
    else none

abbrev pub live_cancel : MeMarketUpdate → Live → Option MeMarketUpdate → Option Live
live_cancel u live none = none
live_cancel u live (some x) =
    if same_side x.side u.side then some (put live u.ticker_id u.order_id none) else none

abbrev pub live_add : MeMarketUpdate → Live → Option MeMarketUpdate → Option Live
live_add u live none = some (put live u.ticker_id u.order_id (some u))
live_add u live (some x) = none

abbrev pub live_update : MarketUpdateType → MeMarketUpdate → Live → Option Live
live_update MarketUpdateType.add u live = live_add u live (live u.ticker_id u.order_id)
live_update MarketUpdateType.modify u live = live_modify u live (live u.ticker_id u.order_id)
live_update MarketUpdateType.cancel u live = live_cancel u live (live u.ticker_id u.order_id)
live_update _ u live = some live

-- A pointer of the table, under ticker `t` and number `o`, as an order.
abbrev pub Entry : SnapshotSynthesizer → OrderId → Option ℕ → Option MeMarketUpdate → Type 0
Entry s o none x = x ≡ none
Entry s o (some p) x =
    (x ≡ some (object_at s.order_pool p))
    × ((object_at s.order_pool p).order_id ≡ o)
    × (p < s.order_pool.store_size)
    × ((s.order_pool.store p).is_free ≡ false)

-- The table stands for these live orders: each pointer is to an own block in use.
pub record Represents (s : SnapshotSynthesizer) (live : Live) : Type 0 where
  pub valid : IsValid s.order_pool
  pub entry : (t o : ℕ) → Entry s o (s.ticker_orders t o) (live t o)
  pub apart :
      (t o t' o' p : ℕ)
      → s.ticker_orders t o ≡ some p
      → s.ticker_orders t' o' ≡ some p
      → (t ≡ t') × (o ≡ o')

pub Entry-at :
    (s : SnapshotSynthesizer) (live : Live) (t o : ℕ) (e : Option ℕ)
    → Represents s live
    → s.ticker_orders t o ≡ e
    → Entry s o e (live t o)
Entry-at s live t o e r h = subst (λ x. Entry s o x (live t o)) h (r.entry t o)

-- A pointer to a block that did not change stands for the same order.
pub Entry-kept :
    (s s' : SnapshotSynthesizer) (o : ℕ) (e : Option ℕ) (x : Option MeMarketUpdate)
    → s'.order_pool.store_size ≡ s.order_pool.store_size
    → ((p : ℕ) → e ≡ some p → s'.order_pool.store p ≡ s.order_pool.store p)
    → Entry s o e x
    → Entry s' o e x
Entry-kept s s' o none x size same h = h
Entry-kept s s' o (some p) x size same (a, b, c, d) =
    let cell = same p refl in
    (
      a ∙ ap (λ c. some c.object) (sym cell),
      ap (λ c. c.object.order_id) cell ∙ b,
      omega (arith, c, size),
      ap (λ c. c.is_free) cell ∙ d,
    )

-- What a change of one cell of the table asks for.
pub record Puts (s : SnapshotSynthesizer) (t o : ℕ) (e : Option ℕ) (s' : SnapshotSynthesizer)
    : Type 0 where
  pub valid : IsValid s'.order_pool
  pub pool_size : s'.order_pool.store_size ≡ s.order_pool.store_size
  pub table : (t' o' : ℕ) → s'.ticker_orders t' o' ≡ put s.ticker_orders t o e t' o'
  pub kept :
      (t' o' p : ℕ)
      → IsElsewhere t o t' o'
      → s.ticker_orders t' o' ≡ some p
      → s'.order_pool.store p ≡ s.order_pool.store p
  pub own : (t' o' p : ℕ) → e ≡ some p → s.ticker_orders t' o' ≡ some p → (t ≡ t') × (o ≡ o')

Puts-cell :
    (s s' : SnapshotSynthesizer) (t o : ℕ) (e : Option ℕ)
    → Puts s t o e s'
    → (t' o' p : ℕ) → s'.ticker_orders t' o' ≡ some p
    → (((t ≡ t') × (o ≡ o')) × (e ≡ some p))
      ⊎ (IsElsewhere t o t' o' × (s.ticker_orders t' o' ≡ some p))
Puts-cell s s' t o e c t' o' p h =
    let now : put s.ticker_orders t o e t' o' ≡ some p = sym (c.table t' o') ∙ h in
    elim (put_cases t o t' o') [
      | inl hit ↦ inl (hit, sym (put-hit s.ticker_orders t o e t' o' hit) ∙ now)
      | inr (other, same) ↦ inr (other, sym (same (Option ℕ) s.ticker_orders e) ∙ now)
    ]

Puts-apart :
    (s s' : SnapshotSynthesizer) (live : Live) (t o : ℕ) (e : Option ℕ)
    → Represents s live
    → Puts s t o e s'
    → (t1 o1 t2 o2 p : ℕ) → s'.ticker_orders t1 o1 ≡ some p
    → s'.ticker_orders t2 o2 ≡ some p
    → (t1 ≡ t2) × (o1 ≡ o2)
Puts-apart s s' live t o e r c t1 o1 t2 o2 p h1 h2 = elim (Puts-cell s s' t o e c t1 o1 p h1) [
  | inl (hit1, e1) ↦ elim (Puts-cell s s' t o e c t2 o2 p h2) [
    | inl (hit2, e2) ↦ (sym hit1.0 ∙ hit2.0, sym hit1.1 ∙ hit2.1)
    | inr (other, k2) ↦ absurd (other (c.own t2 o2 p e1 k2))
  ]
  | inr (other, k1) ↦ elim (Puts-cell s s' t o e c t2 o2 p h2) [
    | inl (hit2, e2) ↦ absurd (other (c.own t1 o1 p e2 k1))
    | inr (_, k2) ↦ r.apart t1 o1 t2 o2 p k1 k2
  ]
]

pub Puts-Represents :
    (s s' : SnapshotSynthesizer) (live : Live) (t o : ℕ) (e : Option ℕ) (x : Option MeMarketUpdate)
    → Represents s live
    → Puts s t o e s'
    → Entry s' o e x
    → Represents s' (put live t o x)
Puts-Represents s s' live t o e x r c new = record {
  valid = c.valid;
  entry = λ t' o'. elim (put_cases t o t' o') [
    | inl hit ↦
        let at : s'.ticker_orders t' o' ≡ e =
          c.table t' o' ∙ put-hit s.ticker_orders t o e t' o' hit in
        subst (λ y. Entry s' o' (s'.ticker_orders t' o') y) (sym (put-hit live t o x t' o' hit))
          (subst (λ y. Entry s' o' y x) (sym at) (subst (λ y. Entry s' y e x) hit.1 new))
    | inr (other, same) ↦
        let at : s'.ticker_orders t' o' ≡ s.ticker_orders t' o' =
          c.table t' o' ∙ same (Option ℕ) s.ticker_orders e in
        subst (λ y. Entry s' o' (s'.ticker_orders t' o') y)
          (sym (same (Option MeMarketUpdate) live x))
          (subst (λ y. Entry s' o' y (live t' o')) (sym at)
            (Entry-kept s s' o' (s.ticker_orders t' o') (live t' o') c.pool_size
              (λ p h. c.kept t' o' p other h) (r.entry t' o')))
  ];
  apart = λ t1 o1 t2 o2 p h1 h2. Puts-apart s s' live t o e r c t1 o1 t2 o2 p h1 h2;
}
