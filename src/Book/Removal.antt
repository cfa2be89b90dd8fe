-- ===== src/Book/Removal.antt =====
-- `addOrder` and `removeOrder` of exchange/matcher/me_order_book.h at a price that keeps at least one
-- order: the queue of that price, the client's entry and the order's block.
use low_latency_trading_engi.Base.{
  ℕ, ◌<◌, ◌≡◌, refl, ap, fun_ext, ◌>>=◌, true, false, none, some, List, [], ◌∷◌, ◌++◌, ok, arith,
  lt→ltb, ==-self, ==-ne, update,
}
use mathlib.Core.Path.{subst₂}
use low_latency_trading_engi.MemPool
use low_latency_trading_engi.Ring.{IsRing, has, last}
use low_latency_trading_engi.Book.{
  State, order_at, price_to_index, get_orders_at_price, in_client_map, deallocate_order, order,
  set_client_order,
}
use low_latency_trading_engi.Book.Queue.{
  IsQueue, SamePayloads, around, not_head, after_unlink, unlink_order_runs, after_unlink-IsQueue,
  after_unlink-SamePayloads, around_head, not_tail, after_unlink_head, unlink_head_runs,
  after_unlink_head-IsQueue, after_unlink_head-SamePayloads, appended, append_order_runs,
  append_order-IsQueue, append_order-SamePayloads,
}
use low_latency_trading_engi.Book.Orders.{remove_order, forget_order, add_order}

-- The order at `q` rests in the book: its level is found, its client's entry exists, and its block is
-- in use.
pub record IsResting (s : State) (lp q : ℕ) : Type 0 where
  pub level : s.price_orders_at_price (price_to_index (order_at s q).price) ≡ some lp
  pub mapped : in_client_map (order_at s q).client_id (order_at s q).client_order_id ≡ true
  pub inside : q < s.order_pool.store_size
  pub used : (s.order_pool.store q).is_free ≡ false

abbrev pub unmap_and_free : State → (c o q : ℕ) → State
unmap_and_free s c o q = record s {
  book = record s.book {
    cid_oid_to_order = update s.cid_oid_to_order c (update (s.cid_oid_to_order c) o none);
    order_pool = record s.order_pool {
      store = update s.order_pool.store q (record { object = order_at s q; is_free = true });
    };
  };
}

-- What is left behind once an order is taken out.
pub record Removed (s : State) (q : ℕ) (s' : State) : Type 0 where
  pub freed : (s'.order_pool.store q).is_free ≡ true
  pub unmapped : s'.cid_oid_to_order (order_at s q).client_id (order_at s q).client_order_id ≡ none
  pub payloads : SamePayloads s s'
  pub responses : s'.outgoing_ogw_responses ≡ s.outgoing_ogw_responses
  pub updates : s'.outgoing_md_updates ≡ s.outgoing_md_updates

pub forget_order_runs :
    (t : State) (c o q : ℕ)
    → (order_at t q).client_id ≡ c
    → (order_at t q).client_order_id ≡ o
    → in_client_map c o ≡ true
    → q < t.order_pool.store_size
    → (t.order_pool.store q).is_free ≡ false
    → forget_order q t ≡ ok (tt, unmap_and_free t c o q)
unfolding forget_order deallocate_order MemPool.deallocate
forget_order_runs t c o q ec eo mapped inside used =
    rw (ec, eo, mapped, lt→ltb q t.order_pool.store_size inside, used)

module _ (t : State) (c o q : ℕ) {lp x : ℕ} {xs : List ℕ} where
  pub forget-IsQueue : IsQueue t lp x xs → IsQueue (unmap_and_free t c o q) lp x xs
  forget-IsQueue v = record {
    first = v.first;
    ring =
        subst₂ (λ n p. IsRing n p x xs) (fun_ext λ z. ground arith) (fun_ext λ z. ground arith)
          v.ring;
  }

forget-Removed :
    (s t : State) (q : ℕ)
    → SamePayloads s t
    → t.outgoing_ogw_responses ≡ s.outgoing_ogw_responses
    → t.outgoing_md_updates ≡ s.outgoing_md_updates
    → Removed s q (unmap_and_free t (order_at s q).client_id (order_at s q).client_order_id q)
forget-Removed s t q same er eu = record {
  freed = ground arith;
  unmapped = ground arith;
  payloads = λ z. ground (arith, same z);
  responses = er;
  updates = eu;
}

abbrev pub map_client : State → (c o p : ℕ) → State
map_client s c o p = record s {
  book = record s.book {
    cid_oid_to_order = update s.cid_oid_to_order c (update (s.cid_oid_to_order c) o (some p));
  };
}

pub map_client_runs :
    (t : State) (c o p : ℕ)
    → (order_at t p).client_id ≡ c
    → (order_at t p).client_order_id ≡ o
    → in_client_map c o ≡ true
    → (do order' ← order p; set_client_order order'.client_id order'.client_order_id (some p)) t
      ≡ ok (tt, map_client t c o p)
map_client_runs t c o p ec eo mapped = rw (ec, eo, mapped)

map-IsQueue :
    (t : State) (c o p : ℕ) {lp x : ℕ} {xs : List ℕ}
    → IsQueue t lp x xs
    → IsQueue (map_client t c o p) lp x xs
map-IsQueue t c o p v = record { first = v.first; ring = v.ring }

module _ (s : State) (lp x : ℕ) (ls : List ℕ) (q : ℕ) (rs : List ℕ)
    (v : IsQueue s lp x (ls ++ (q ∷ rs))) (r : IsResting s lp q) where
  abbrev final : State
  final =
      unmap_and_free (after_unlink s lp x ls q rs v) (order_at s q).client_id
        (order_at s q).client_order_id q

  used_still : ((after_unlink s lp x ls q rs v).order_pool.store q).is_free ≡ false
  unfolding after_unlink
  used_still = ground (arith, r.used)

  size_still : (after_unlink s lp x ls q rs v).order_pool.store_size ≡ s.order_pool.store_size
  unfolding after_unlink
  size_still = refl

  remove_order_runs : remove_order q s ≡ ok (tt, final)
  unfolding remove_order get_orders_at_price
  remove_order_runs =
      rw
        (
          r.level,
          (around s lp x ls q rs v).0,
          ==-ne _ _ (not_head s lp x ls q rs v).1,
          unlink_order_runs s lp x ls q rs v,
        )
        (forget_order_runs (after_unlink s lp x ls q rs v) _ _ q
          (ap (λ o. o.client_id) (after_unlink-SamePayloads s lp x ls q rs v q))
          (ap (λ o. o.client_order_id) (after_unlink-SamePayloads s lp x ls q rs v q)) r.mapped
          (rw size_still r.inside) used_still)

  -- Taking out an order that stands behind the first one of its price leaves the others in their
  -- order, frees its block, clears its client's entry, changes no other order but for its pointers,
  -- and sends nothing.
  pub remove_order-behind :
      (s' : State) × (remove_order q s ≡ ok (tt, s')) × IsQueue s' lp x (ls ++ rs) × Removed s q s'
  remove_order-behind = (
    final,
    remove_order_runs,
    forget-IsQueue (after_unlink s lp x ls q rs v) _ _ q (after_unlink-IsQueue s lp x ls q rs v),
    forget-Removed s (after_unlink s lp x ls q rs v) q (after_unlink-SamePayloads s lp x ls q rs v)
        same_queues.0 same_queues.1,
  )
    where
      same_queues :
          ((after_unlink s lp x ls q rs v).outgoing_ogw_responses ≡ s.outgoing_ogw_responses)
          × ((after_unlink s lp x ls q rs v).outgoing_md_updates ≡ s.outgoing_md_updates)
      same_queues = unfold after_unlink in (refl, refl)

module _ (s : State) (lp x y : ℕ) (ys : List ℕ) (v : IsQueue s lp x (y ∷ ys))
    (r : IsResting s lp x) where
  abbrev pub after_head : State
  after_head = after_unlink_head s lp x y ys v

  head_still :
      ((after_head.order_pool.store x).is_free ≡ false)
      × (after_head.order_pool.store_size ≡ s.order_pool.store_size)
      × (after_head.outgoing_ogw_responses ≡ s.outgoing_ogw_responses)
      × (after_head.outgoing_md_updates ≡ s.outgoing_md_updates)
  unfolding after_unlink_head
  head_still = (ground (arith, r.used), refl, refl, refl)

  pub remove_head_runs :
      remove_order x s
      ≡ ok (tt, unmap_and_free after_head (order_at s x).client_id (order_at s x).client_order_id x)
  unfolding remove_order get_orders_at_price
  remove_head_runs =
      rw
        (
          r.level,
          (around_head s lp x y ys v).0,
          ==-ne _ _ (not_tail s lp x y ys v).1,
          unlink_head_runs s lp x y ys v,
        )
        (forget_order_runs after_head _ _ x
          (ap (λ o. o.client_id) (after_unlink_head-SamePayloads s lp x y ys v x))
          (ap (λ o. o.client_order_id) (after_unlink_head-SamePayloads s lp x y ys v x)) r.mapped
          (rw head_still.1 r.inside) head_still.0)

  -- Taking out the first order of a price that has others makes the next one the first.
  pub remove_order-first :
      (s' : State) × (remove_order x s ≡ ok (tt, s')) × IsQueue s' lp y ys × Removed s x s'
  remove_order-first = (
    unmap_and_free after_head (order_at s x).client_id (order_at s x).client_order_id x,
    remove_head_runs,
    forget-IsQueue after_head _ _ x (after_unlink_head-IsQueue s lp x y ys v),
    forget-Removed s after_head x (after_unlink_head-SamePayloads s lp x y ys v) head_still.2
        head_still.3,
  )

-- An order that is not yet in any list, with an entry to be made for its client.
pub record IsNew (s : State) (lp p x : ℕ) (xs : List ℕ) : Type 0 where
  pub level : s.price_orders_at_price (price_to_index (order_at s p).price) ≡ some lp
  pub mapped : in_client_map (order_at s p).client_id (order_at s p).client_order_id ≡ true
  pub outside : has p (x ∷ xs) ≡ false

module _ (s : State) (lp x : ℕ) (xs : List ℕ) (p : ℕ) (v : IsQueue s lp x xs)
    (n : IsNew s lp p x xs) where
  abbrev after_add : State
  after_add = appended s x (last x xs) p

  -- Adding an order at a price that has a well-linked queue, in which the order is not, and with
  -- its client and its number in range: the order comes behind all others, is entered for its
  -- client, no order changes but for its pointers, and nothing is sent.
  pub add_order-append :
      (s' : State) × (add_order p s ≡ ok (tt, s'))
      × IsQueue s' lp x (xs ++ (p ∷ []))
      × (s'.cid_oid_to_order (order_at s p).client_id (order_at s p).client_order_id ≡ some p)
      × SamePayloads s s'
      × (s'.outgoing_ogw_responses ≡ s.outgoing_ogw_responses)
      × (s'.outgoing_md_updates ≡ s.outgoing_md_updates)
  unfolding add_order get_orders_at_price
  add_order-append = (
    map_client after_add (order_at s p).client_id (order_at s p).client_order_id p,
    rw (n.level, append_order_runs s lp x xs v p)
        (map_client_runs after_add _ _ p
          (ap (λ o. o.client_id) (append_order-SamePayloads s lp x xs v p p))
          (ap (λ o. o.client_order_id) (append_order-SamePayloads s lp x xs v p p)) n.mapped),
    map-IsQueue after_add _ _ p (append_order-IsQueue s lp x xs v p n.outside),
    rw (==-self (order_at s p).client_id, ==-self (order_at s p).client_order_id),
    append_order-SamePayloads s lp x xs v p,
    refl,
    refl,
  )
