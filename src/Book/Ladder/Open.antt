-- ===== src/Book/Ladder/Open.antt =====
-- `addOrder` of exchange/matcher/me_order_book.h for the first order of a price: a level is
-- allocated and put into its side.
use low_latency_trading_engi.Base.{
  ℕ, ◌<◌, ◌≡◌, ◌≢◌, refl, sym, ap, ◌∙◌, subst, true, false, All, if◌then◌else◌, none, some, List,
  [], ◌∷◌, ok, arith, ==-self, ==-ne, ltb_ℤ, ◌==◌, bind_result, Result,
}
use low_latency_trading_engi.MemPool
use low_latency_trading_engi.MemPool.{MemPool}
use low_latency_trading_engi.MemPool.Alloc.{IsValid, Allocated, allocate_lem}
use low_latency_trading_engi.Types.{Side, Price}
use low_latency_trading_engi.Ring.{has}
use low_latency_trading_engi.Book.{
  MeOrdersAtPrice, put_order, State, order_at, level_at, price_to_index, in_client_map,
  get_orders_at_price, allocate_level,
}
use low_latency_trading_engi.Book.Levels.{add_orders_at_price, worse_than}
use low_latency_trading_engi.Book.Orders.{add_order, open_level}
use low_latency_trading_engi.Book.Queue.{payload, SamePayloads}
use low_latency_trading_engi.Book.Removal.{map_client, map_client_runs}
use low_latency_trading_engi.Book.Ladder.{Level, IsLevel, IsBookSide, places}
use low_latency_trading_engi.Book.Ladder.Frame.{SameLevel, IsBookSide-frame}
use low_latency_trading_engi.Book.Ladder.Requantified.{SameButQty, IsBookSide-requantified}
use low_latency_trading_engi.Book.Ladder.Splice.{index_of, IsFresh}
use low_latency_trading_engi.Book.Ladder.Insert.{
  Place, alone, behind_all, in_front, IsWorse, IsOpposite, insert-Inserted,
}

-- An allocated order of a side that no list has yet, at a price whose index is free, and two free
-- blocks for levels.
pub record IsOpening (s : State) (sd : Side) (p : ℕ) : Type 0 where
  pub free_index : s.price_orders_at_price (price_to_index (order_at s p).price) ≡ none
  pub side : (order_at s p).side ≡ sd
  pub mapped : in_client_map (order_at s p).client_id (order_at s p).client_order_id ≡ true
  pub inside : p < s.order_pool.store_size
  pub used : (s.order_pool.store p).is_free ≡ false
  pub pool : IsValid s.orders_at_price_pool
  pub spare : ℕ
  pub spare_in : spare < s.orders_at_price_pool.store_size
  pub spare_other : spare ≢ s.orders_at_price_pool.next_free_index
  pub spare_free : (s.orders_at_price_pool.store spare).is_free ≡ true

level_used :
    (s : State) (sd : Side) (ls : List Level)
    → All (IsLevel s sd) ls
    → (z : ℕ) → has z (places ls) ≡ true
    → (s.orders_at_price_pool.store z).is_free ≡ false
level_used s sd [] v z h = absurd (cc)
level_used s sd (l ∷ ls) v z h = ground (arith, v.0.used, level_used s sd ls v.1 z)

module _ (s : State) (sd : Side) (p : ℕ) (o : IsOpening s sd p) where
  abbrev alone_in_queue : State
  alone_in_queue =
      put_order s p (record (order_at s p) { prev_order = some p; next_order = some p })

  abbrev fresh : MeOrdersAtPrice
  fresh = record {
    side = (order_at alone_in_queue p).side;
    price = (order_at alone_in_queue p).price;
    first_me_order = some p;
    prev_entry = none;
    next_entry = none;
  }

  abbrev n : ℕ
  n = s.orders_at_price_pool.next_free_index

  allocates :
      (q : MemPool MeOrdersAtPrice) × (MemPool.allocate fresh s.orders_at_price_pool ≡ ok (n, q))
      × Allocated s.orders_at_price_pool fresh q
  allocates =
      allocate_lem s.orders_at_price_pool fresh o.spare o.pool o.spare_in o.spare_other o.spare_free

  abbrev with_level : State
  with_level = record alone_in_queue {
    book = record alone_in_queue.book { orders_at_price_pool = allocates.0 };
  }

  kept : payload (order_at with_level p) ≡ payload (order_at s p)
  kept = ground arith

  all_kept : SamePayloads s with_level
  all_kept z = ground arith

  new_level : level_at with_level n ≡ fresh
  new_level =
      ap (λ g. (g n).object) allocates.2.store
      ∙ ap
          (λ b.
            (if b
              then record { object = fresh; is_free = false }
              else s.orders_at_price_pool.store n).object)
          (==-self n)

  new_mark : (with_level.orders_at_price_pool.store n).is_free ≡ false
  new_mark =
      ap (λ g. (g n).is_free) allocates.2.store
      ∙ ap
          (λ b.
            (if b
              then record { object = fresh; is_free = false }
              else s.orders_at_price_pool.store n).is_free)
          (==-self n)

  new_index : index_of with_level n ≡ price_to_index (order_at s p).price
  new_index = ap (λ l. price_to_index l.price) new_level ∙ ap (λ o. price_to_index o.price) kept

  old_level :
      (z : ℕ)
      → (s.orders_at_price_pool.store z).is_free ≡ false
      → with_level.orders_at_price_pool.store z ≡ s.orders_at_price_pool.store z
  old_level z h =
      let free = o.pool.next_free in
      let other : (n == z) ≡ false = ==-ne n z (λ same. cc) in
      ap (λ g. g z) allocates.2.store
      ∙ ap
          (λ b.
            if b
            then record { object = fresh; is_free = false }
            else s.orders_at_price_pool.store z)
          other

  with_level-SameLevel :
      (z : ℕ) → (s.orders_at_price_pool.store z).is_free ≡ false → SameLevel s with_level z
  with_level-SameLevel z h = record {
    blocks =
        λ q e. let free = o.free_index in let other : q ≢ p = λ same. cc in ground (arith, other);
    first = ap (λ b. b.object.first_me_order) (old_level z h);
    mark = ap (λ b. b.is_free) (old_level z h);
    prices = λ k e. e;
    orders_size = refl;
    levels_size = allocates.2.store_size;
  }

  with_level-IsFresh : IsFresh with_level sd n p
  with_level-IsFresh = record {
    side = ap (λ l. l.side) new_level ∙ ap (λ o. o.side) kept ∙ o.side;
    free_index = ap s.price_orders_at_price new_index ∙ o.free_index;
    queue = record {
      first = ap (λ l. l.first_me_order) new_level;
      ring = record { links = (ground arith, ground arith); distinct = (refl, tt) };
    };
    order_index = ap (λ o. price_to_index o.price) kept ∙ sym new_index;
    order_side = ap (λ o. o.side) kept ∙ o.side;
    mapped = subst (λ q. in_client_map q.client_id q.client_order_id ≡ true) (sym kept) o.mapped;
    order_inside = o.inside;
    order_used = ground (arith, o.used);
    inside = subst (λ z. n < z) (sym allocates.2.store_size) o.pool.next_in;
    used = new_mark;
  }

  -- A side stays in order when the level is allocated.
  with_level-IsBookSide :
      (od : Side) (ls : List Level) → IsBookSide s od ls → IsBookSide with_level od ls
  with_level-IsBookSide od ls v =
      let used = level_used s od ls v.levels in
      IsBookSide-frame s with_level od ls (λ z h. with_level-SameLevel z (used z h))
        (λ z h. ap (λ b. b.object.next_entry) (old_level z (used z h)))
        (λ z h. ap (λ b. b.object.prev_entry) (old_level z (used z h))) refl v

  open_level_runs : open_level p s ≡ add_orders_at_price n with_level
  unfolding open_level allocate_level
  open_level_runs =
      ap
        (λ (r : Result (ℕ × MemPool MeOrdersAtPrice)).
          bind_result {A = ℕ × State} {B = Unit {0} × State}
            (bind_result {A = ℕ × MemPool MeOrdersAtPrice} {B = ℕ × State} r (λ q. ok (
              q.0,
              record alone_in_queue {
                book = record alone_in_queue.book { orders_at_price_pool = q.1 };
              },
            )))
            (λ t. add_orders_at_price t.0 t.1))
        allocates.1

IsWorse-moved :
    (s s' : State) (sd : Side) (price : Price) (ls : List ℕ)
    → ((z : ℕ) → has z ls ≡ true → level_at s' z ≡ level_at s z)
    → IsWorse s sd price ls
    → IsWorse s' sd price ls
IsWorse-moved s s' sd price [] same h = tt
IsWorse-moved s s' sd price (l ∷ ls) same h = (
  ap (λ x. worse_than sd price x) (same l (ground arith)) ∙ h.0,
  IsWorse-moved s s' sd price ls (λ z k. same z (ground arith)) h.1,
)

pub Place-moved :
    (s s' : State) (sd : Side) (price : Price) (new : Level) (ls ls' : List Level)
    → ((z : ℕ) → has z (places ls) ≡ true → level_at s' z ≡ level_at s z)
    → Place s sd price new ls ls'
    → Place s' sd price new ls ls'
Place-moved s s' sd price new _ _ same alone = alone
Place-moved s s' sd price new _ _ same (behind_all l ls h) =
    behind_all l ls (IsWorse-moved s s' sd price (places (l ∷ ls)) same h)
Place-moved s s' sd price new _ _ same (in_front l ls bid h) =
    in_front l ls bid (ap (λ x. ltb_ℤ x.price price) (same l.at (ground arith)) ∙ h)

mapped-SameButQty : (u : State) (c k p : ℕ) → SameButQty u (map_client u c k p)
mapped-SameButQty u c k p = record {
  keys = λ z. refl;
  marks = λ z. refl;
  orders_size = refl;
  levels = refl;
  prices = refl;
  bids = refl;
  asks = refl;
}

-- Adding the first order of a price, on an empty side, at a price worse than all of its side, or as a
-- bid better than all: a new level with this order alone takes its place among the levels of the
-- side, the other side keeps its levels and orders, no order changes but for its pointers, the order
-- is entered for its client, and nothing is sent. The order is allocated and in no list, no level has its index, two blocks for levels are
-- free, and both sides are in order.
pub add_order-opens :
    (s : State) (sd od : Side) (p : ℕ) (ls ls' ms : List Level)
    → IsOpposite sd od
    → IsOpening s sd p
    → Place s sd
        (order_at s p).price
        (record { at = s.orders_at_price_pool.next_free_index; head = p; behind = [] })
        ls
        ls'
    → IsBookSide s sd ls
    → IsBookSide s od ms
    → (s' : State) × (add_order p s ≡ ok (tt, s'))
      × IsBookSide s' sd ls'
      × IsBookSide s' od ms
      × SamePayloads s s'
      × (s'.cid_oid_to_order (order_at s p).client_id (order_at s p).client_order_id ≡ some p)
      × (s'.outgoing_ogw_responses ≡ s.outgoing_ogw_responses)
      × (s'.outgoing_md_updates ≡ s.outgoing_md_updates)
unfolding add_order get_orders_at_price
add_order-opens s sd od p ls ls' ms opp o place v w =
    let c = (order_at s p).client_id in
    let k = (order_at s p).client_order_id in
    let t : State = with_level s sd p o in
    let lp = s.orders_at_price_pool.next_free_index in
    let fresh : IsFresh t sd lp p = with_level-IsFresh s sd p o in
    let place' : Place t sd (level_at t lp).price (record { at = lp; head = p; behind = [] }) ls
        ls' =
      subst (λ q. Place t sd q (record { at = lp; head = p; behind = [] }) ls ls')
        (sym (ap (λ l. l.price) (new_level s sd p o) ∙ ap (λ q. q.price) (kept s sd p o)))
        (Place-moved s t sd (order_at s p).price (record { at = lp; head = p; behind = [] }) ls ls'
          (λ z h. ap (λ b. b.object) (old_level s sd p o z (level_used s sd ls v.levels z h)))
          place) in
    let (u, run, only, v', w') =
      insert-Inserted t sd od opp lp p fresh ms (with_level-IsBookSide s sd p o od ms w) ls ls'
        place' (with_level-IsBookSide s sd p o sd ls v) in
    let same : payload (order_at u p) ≡ payload (order_at s p) =
      ap (λ q. payload (q.store p).object) only.orders ∙ kept s sd p o in
    let f = mapped-SameButQty u c k p in
    (
      map_client u c k p,
      rw (o.free_index, open_level_runs s sd p o, run)
          (map_client_runs u c k p (ap (λ q. q.client_id) same) (ap (λ q. q.client_order_id) same)
            o.mapped),
      IsBookSide-requantified u (map_client u c k p) sd f ls' v',
      IsBookSide-requantified u (map_client u c k p) od f ms w',
      λ z. ap (λ q. payload (q.store z).object) only.orders ∙ all_kept s sd p o z,
      rw (==-self c, ==-self k),
      only.responses,
      only.updates,
    )
