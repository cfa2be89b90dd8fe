-- ===== src/Book/Ladder/Empty.antt =====
-- Taking out the only order of the best level: the level goes, and the next one is the best.
use low_latency_trading_engi.Base.{
  ℕ, ◌<◌, ◌≡◌, refl, sym, ap, ◌∙◌, ◌≢◌, true, false, Option, none, some, List, [], ◌∷◌, arith,
  ==-self, ==-ne, ok, update, if◌then◌else◌, fun_ext, lt→ltb, same_ptr, modify, deref, ◌>>=◌, ◌>>◌,
  pure,
}
use mathlib.Core.Path.{subst₂}
use low_latency_trading_engi.MemPool
use low_latency_trading_engi.Types.{Side, is_buy, Price}
use low_latency_trading_engi.Ring.{IsRing, last-Links, last, last-ne}
use low_latency_trading_engi.Ring.Edit.{remove_head-IsRing}
use low_latency_trading_engi.Book.{
  MeOrdersAtPrice, B, set_level, State, order_at, level_at, put_level, price_to_index, best_of,
  with_best, deallocate_level, get_orders_at_price, level,
}
use low_latency_trading_engi.Book.Levels.{unlink_level, remove_orders_at_price}
use low_latency_trading_engi.Book.Orders.{remove_order}
use low_latency_trading_engi.Book.Removal.{forget_order_runs, unmap_and_free}
use low_latency_trading_engi.Book.Ladder.{
  Level, next_level, prev_level, IsOrderOf, IsLevel, IsBookSide, places,
}
use low_latency_trading_engi.Book.Ladder.Frame.{SameLevel, levels-frame}

-- `with_best` with its test inside the fields.
abbrev pub new_best : State → Side → Option ℕ → State
new_best s sd p = record s {
  book = record s.book {
    bids_by_price = if is_buy sd then p else s.bids_by_price;
    asks_by_price = if is_buy sd then s.asks_by_price else p;
  };
}

pub with_best_lem : (s : State) (sd : Side) (p : Option ℕ) → with_best s sd p ≡ new_best s sd p
with_best_lem s Side.buy p = refl
with_best_lem s Side.sell p = refl
with_best_lem s Side.invalid p = refl

pub best_of-new_best : (s : State) (sd : Side) (p : Option ℕ) → best_of (new_best s sd p) sd ≡ p
best_of-new_best s Side.buy p = refl
best_of-new_best s Side.sell p = refl
best_of-new_best s Side.invalid p = refl

-- The two writes at the end of `removeOrdersAtPrice`.
abbrev drop_level : State → (k lp : ℕ) → State
drop_level s k lp = record s {
  book = record s.book {
    price_orders_at_price = update s.price_orders_at_price k none;
    orders_at_price_pool = record s.orders_at_price_pool {
      store =
          update s.orders_at_price_pool.store lp
            (record { object = level_at s lp; is_free = true });
    };
  };
}

drop_level_runs :
    (t : State) (price : Price) (lp : ℕ)
    → lp < t.orders_at_price_pool.store_size
    → (t.orders_at_price_pool.store lp).is_free ≡ false
    → (do
      modify (λ (s : State). record s {
        book = record s.book {
          price_orders_at_price = update s.price_orders_at_price (price_to_index price) none;
        };
      })
      deallocate_level lp)
        t
      ≡ ok (tt, drop_level t (price_to_index price) lp)
unfolding deallocate_level MemPool.deallocate
drop_level_runs t price lp h u = rw (lt→ltb lp t.orders_at_price_pool.store_size h, u)

abbrev pub set_next_level : State → ℕ → Option ℕ → State
set_next_level s z p = put_level s z (record (level_at s z) { next_entry = p })

abbrev pub set_prev_level : State → ℕ → Option ℕ → State
set_prev_level s z p = put_level s z (record (level_at s z) { prev_entry = p })

abbrev cleared_level : State → ℕ → State
cleared_level s z = put_level s z (record (level_at s z) { prev_entry = none; next_entry = none })

-- The best level `lp`, with the level `m` behind it and perhaps more.
module _ (s : State) (sd : Side) (lp m : ℕ) (ms : List ℕ) (best : best_of s sd ≡ some lp)
    (r : IsRing (next_level s) (prev_level s) lp (m ∷ ms)) where
  abbrev relinked : State
  relinked = set_prev_level (set_next_level s (last m ms) (some m)) m (some (last m ms))

  abbrev unlinked_level : State
  unlinked_level = cleared_level (new_best relinked sd (some m)) lp

  around_level : (prev_level s lp ≡ some (last m ms)) × (next_level s lp ≡ some m)
  around_level = ((last-Links (next_level s) (prev_level s) m ms lp r.links.2).1, r.links.0)

  not_best : (m ≢ lp) × (last m ms ≢ lp)
  not_best = (λ e. ground (arith, r.distinct), λ e. last-ne m lp ms r.distinct.0 (sym e))

  -- The rest of `unlink_level` from its second and its first write on.
  abbrev from_after : Option ℕ → ℕ → B (Unit {0})
  from_after p after = do
    set_level after (λ a. record a { prev_entry = p })
    l'' ← level lp
    (if same_ptr (some lp) (some lp) then modify (λ s. with_best s sd l''.next_entry) else pure tt)
    set_level lp (λ x. record x { prev_entry = none; next_entry = none })

  abbrev from_before : Option ℕ → ℕ → B (Unit {0})
  from_before n before = do
    set_level before (λ b. record b { next_entry = n })
    l' ← level lp
    after ← deref l'.next_entry
    from_after l'.prev_entry after

  abbrev half : State
  half = set_next_level s (last m ms) (some m)

  kept_best : level_at half lp ≡ level_at s lp
  kept_best = ground (arith, not_best)

  reread : (level_at relinked lp).next_entry ≡ some m
  reread = ground (arith, not_best, around_level)

  unlink_level_relinks :
      unlink_level lp sd (some lp) s ≡ ok (tt, cleared_level (with_best relinked sd (some m)) lp)
  unfolding unlink_level
  unlink_level_relinks =
      ap (λ o. (deref o >>= from_before (next_level s lp)) s) around_level.0
      ∙ ap (λ n. from_before n (last m ms) s) around_level.1
      ∙ ap (λ (l : MeOrdersAtPrice). (deref l.next_entry >>= from_after l.prev_entry) half)
          kept_best
      ∙ ap (λ n. (deref n >>= from_after (prev_level s lp)) half) around_level.1
      ∙ ap (λ p. from_after p m half) around_level.0
      ∙ ap
          (λ b.
            ((if b then modify (λ t. with_best t sd (level_at relinked lp).next_entry) else pure tt)
                >> set_level lp (λ x. record x { prev_entry = none; next_entry = none }))
              relinked)
          (==-self lp)
      ∙ ap (λ n. ok (tt, cleared_level (with_best relinked sd n) lp)) reread

  unlink_level_runs : unlink_level lp sd (some lp) s ≡ ok (tt, unlinked_level)
  unlink_level_runs =
      unlink_level_relinks
      ∙ ap (λ t. ok (tt, cleared_level t lp)) (with_best_lem relinked sd (some m))

  unlinked-mark :
      (z : ℕ)
      → (unlinked_level.orders_at_price_pool.store z).is_free
        ≡ (s.orders_at_price_pool.store z).is_free
  unlinked-mark z = ground arith

  unlinked-first :
      (z : ℕ) → (level_at unlinked_level z).first_me_order ≡ (level_at s z).first_me_order
  unlinked-first z = ground arith

  unlinked-IsRing : IsRing (next_level unlinked_level) (prev_level unlinked_level) m ms
  unlinked-IsRing =
      remove_head-IsRing (next_level s) (prev_level s) (next_level unlinked_level)
        (prev_level unlinked_level) lp m ms r (ground (arith, not_best)) (ground (arith, not_best))
        (λ z h k. ground arith) (λ z h k. ground arith)

-- The whole of `removeOrder` for the only order `x` of the level `lp`, given the state `t` in which
-- the level has left its list.
module _ (s t : State) (sd : Side) (lp x : ℕ) (o : IsOrderOf s sd lp x)
    (alone : (order_at s x).prev_order ≡ some x) (orders : t.order_pool ≡ s.order_pool)
    (inside : lp < t.orders_at_price_pool.store_size)
    (used : (t.orders_at_price_pool.store lp).is_free ≡ false) where
  abbrev index : ℕ
  index = price_to_index (order_at s x).price

  abbrev emptied : State
  emptied =
      unmap_and_free (drop_level t index lp) (order_at s x).client_id (order_at s x).client_order_id
        x

  remove_order_runs :
      (do
        l ← level lp
        (if same_ptr l.next_entry (some lp)
            then modify (λ s. with_best s sd none)
            else unlink_level lp sd (best_of s sd)))
          s
        ≡ ok (tt, t)
      → remove_order x s ≡ ok (tt, emptied)
  unfolding remove_order remove_orders_at_price get_orders_at_price deallocate_level
      MemPool.deallocate
  remove_order_runs run =
      rw
        (
          alone,
          ==-self x,
          o.0.level,
          deref,
          o.1,
          run,
          lt→ltb lp t.orders_at_price_pool.store_size inside,
          used,
        )
        (forget_order_runs (drop_level t index lp) _ _ x
          (ap (λ p. (p.store x).object.client_id) orders)
          (ap (λ p. (p.store x).object.client_order_id) orders) o.0.mapped (rw orders o.0.inside)
          (rw orders o.0.used))

-- The level without another one.
pub remove_order-last :
    (s : State) (sd : Side) (lp x : ℕ)
    → IsBookSide s sd (record { at = lp; head = x; behind = [] } ∷ [])
    → (s' : State) × (remove_order x s ≡ ok (tt, s')) × IsBookSide s' sd []
remove_order-last s sd lp x v =
    let l = v.levels.0 in
    let t : State = new_best s sd none in
    (
      emptied s t sd lp x l.orders.0 l.queue.ring.links.1 refl l.inside l.used,
      remove_order_runs s t sd lp x l.orders.0 l.queue.ring.links.1 refl l.inside l.used
          (rw (v.linked.1.links.0, ==-self lp) (ap (λ z. ok (tt, z)) (with_best_lem s sd none))),
      record { linked = best_of-new_best s sd none; levels = tt },
    )

module _ (s : State) (k lp z : ℕ) where
  dropped-next : next_level (drop_level s k lp) z ≡ next_level s z
  dropped-next = ground arith

  dropped-prev : prev_level (drop_level s k lp) z ≡ prev_level s z
  dropped-prev = ground arith

-- The level with another one behind it.
module _ (s : State) (sd : Side) (lp x : ℕ) (l2 : Level) (ls : List Level)
    (v : IsBookSide s sd (record { at = lp; head = x; behind = [] } ∷ l2 ∷ ls)) where
  abbrev top_level : IsLevel s sd (record { at = lp; head = x; behind = [] })
  top_level = v.levels.0

  abbrev before : State
  before = unlinked_level s sd lp l2.at (places ls) v.linked.0 v.linked.1

  still_used : (before.orders_at_price_pool.store lp).is_free ≡ false
  still_used = unlinked-mark s sd lp l2.at (places ls) v.linked.0 v.linked.1 lp ∙ top_level.used

  abbrev after : State
  after =
      emptied s before sd lp x top_level.orders.0 top_level.queue.ring.links.1 refl top_level.inside
        still_used

  after-SameLevel : (l : ℕ) → l ≢ lp → SameLevel s after l
  after-SameLevel l ne = record {
    blocks =
        λ q e used. let ne' : q ≢ x = λ same. ne (cc (top_level.orders.0.0.level)) in ground arith;
    first = ground (arith, ne, unlinked-first s sd lp l2.at (places ls) v.linked.0 v.linked.1 l);
    mark = ground (arith, ne, unlinked-mark s sd lp l2.at (places ls) v.linked.0 v.linked.1 l);
    prices = λ k e.
        let ne' : k ≢ price_to_index (order_at s x).price =
          λ same. ne (cc (top_level.orders.0.0.level)) in
        ground arith;
    orders_size = refl;
    levels_size = refl;
  }

  leaves_list :
      (do
        l ← level lp
        (if same_ptr l.next_entry (some lp)
            then modify (λ s. with_best s sd none)
            else unlink_level lp sd (best_of s sd)))
        s
      ≡ ok (tt, before)
  leaves_list =
      let other : same_ptr (next_level s lp) (some lp) ≡ false =
        rw v.linked.1.links.0
          (==-ne l2.at lp (not_best s sd lp l2.at (places ls) v.linked.0 v.linked.1).0) in
      ap
        (λ b.
          (if b then modify (λ s. with_best s sd none) else unlink_level lp sd (best_of s sd)) s)
        other
      ∙ ap (λ o. unlink_level lp sd o s) v.linked.0
      ∙ unlink_level_runs s sd lp l2.at (places ls) v.linked.0 v.linked.1

  pub remove_order-only :
      (s' : State) × (remove_order x s ≡ ok (tt, s')) × IsBookSide s' sd (l2 ∷ ls)
  remove_order-only = (
    after,
    remove_order_runs s before sd lp x top_level.orders.0 top_level.queue.ring.links.1 refl
        top_level.inside still_used leaves_list,
    record {
      linked = (
        best_of-new_best (relinked s sd lp l2.at (places ls) v.linked.0 v.linked.1) sd (some l2.at),
        subst₂ (λ n p. IsRing n p l2.at (places ls))
            (fun_ext λ z. sym (dropped-next before (price_to_index (order_at s x).price) lp z))
            (fun_ext λ z. sym (dropped-prev before (price_to_index (order_at s x).price) lp z))
            (unlinked-IsRing s sd lp l2.at (places ls) v.linked.0 v.linked.1),
      );
      levels =
          levels-frame s after sd (l2 ∷ ls)
            (λ l h. after-SameLevel l (λ e. let out = v.linked.1.distinct.0 in cc)) v.levels.1;
    },
  )
