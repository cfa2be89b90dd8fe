-- ===== src/Book/Ladder/Rest.antt =====
-- `add` of exchange/matcher/me_order_book.cpp for an order that matches nothing, at a price that has
-- no level yet: the order is allocated and rests in the book, alone at a new level.
use low_latency_trading_engi.Base.{
  ℕ, ◌<◌, ◌≡◌, ◌≢◌, refl, sym, ap, ◌∙◌, subst, true, false, ◌||◌, none, some, List, [], ok, arith,
  ==-self, ==-ne, ◌==◌, pure, bind_result, Result, if◌then◌else◌,
}
use low_latency_trading_engi.MemPool
use low_latency_trading_engi.MemPool.{MemPool}
use low_latency_trading_engi.MemPool.Alloc.{IsValid, Allocated, allocate_lem}
use low_latency_trading_engi.Types.{Side, Qty, OrderId, is_buy, is_sell, next64}
use low_latency_trading_engi.LfQueue.{write}
use low_latency_trading_engi.Messages.{MeMarketUpdate, MarketUpdateType}
use low_latency_trading_engi.Book.{
  MeOrder, State, order_at, price_to_index, in_client_map, get_orders_at_price, allocate_order,
  send_market_update, send_client_response,
}
use low_latency_trading_engi.Book.Orders.{get_next_priority}
use low_latency_trading_engi.Book.Matching.{
  Incoming, add, rest_order, accepted, generate_new_market_order_id,
}
use low_latency_trading_engi.Book.Queue.{payload}
use low_latency_trading_engi.Book.Reports.{acceptance}
use low_latency_trading_engi.Book.FillOrder.{Stops, filled, no_more, too_dear}
use low_latency_trading_engi.Book.Ladder.{Level, IsBookSide}
use low_latency_trading_engi.Book.Ladder.Frame.{IsBookSide-frame}
use low_latency_trading_engi.Book.Ladder.Insert.{Place, IsOpposite}
use low_latency_trading_engi.Book.Ladder.Stopping.{check_for_match-stops}
use low_latency_trading_engi.Book.Ladder.Open.{IsOpening, Place-moved, add_order-opens}
use low_latency_trading_engi.Book.Ladder.Sweep.{with_update, update-SameButQty}
use low_latency_trading_engi.Book.Ladder.Requantified.{SameButQty, IsBookSide-requantified}

-- Room for an order and for a level, at a price whose index is free, and a client's entry in range.
pub record HasRoom (s : State) (i : Incoming) : Type 0 where
  pub free_index : s.price_orders_at_price (price_to_index i.price) ≡ none
  pub mapped : in_client_map i.client_id i.client_order_id ≡ true
  pub orders : IsValid s.order_pool
  pub order_spare : ℕ
  pub order_spare_in : order_spare < s.order_pool.store_size
  pub order_spare_other : order_spare ≢ s.order_pool.next_free_index
  pub order_spare_free : (s.order_pool.store order_spare).is_free ≡ true
  pub levels : IsValid s.orders_at_price_pool
  pub level_spare : ℕ
  pub level_spare_in : level_spare < s.orders_at_price_pool.store_size
  pub level_spare_other : level_spare ≢ s.orders_at_price_pool.next_free_index
  pub level_spare_free : (s.orders_at_price_pool.store level_spare).is_free ≡ true

abbrev pub new_order : Incoming → OrderId → MeOrder
new_order i id = record {
  ticker_id = i.ticker_id;
  client_id = i.client_id;
  client_order_id = i.client_order_id;
  market_order_id = id;
  side = i.side;
  price = i.price;
  qty = i.qty;
  priority = 1;
  prev_order = none;
  next_order = none;
}

-- What the market is told.
abbrev pub added_update : Incoming → OrderId → MeMarketUpdate
added_update i id = record {
  kind = MarketUpdateType.add;
  order_id = id;
  ticker_id = i.ticker_id;
  side = i.side;
  price = i.price;
  qty = i.qty;
  priority = 1;
}

module _ (s : State) (i : Incoming) (id : OrderId) (r : HasRoom s i) where
  abbrev p : ℕ
  p = s.order_pool.next_free_index

  allocates :
      (q : MemPool MeOrder) × (MemPool.allocate (new_order i id) s.order_pool ≡ ok (p, q))
      × Allocated s.order_pool (new_order i id) q
  allocates =
      allocate_lem s.order_pool (new_order i id) r.order_spare r.orders r.order_spare_in
        r.order_spare_other r.order_spare_free

  abbrev with_order : State
  with_order = record s { book = record s.book { order_pool = allocates.0 } }

  new_block : with_order.order_pool.store p ≡ record { object = new_order i id; is_free = false }
  new_block =
      ap (λ g. g p) allocates.2.store
      ∙ ap
          (λ b.
            if b then record { object = new_order i id; is_free = false } else s.order_pool.store p)
          (==-self p)

  old_block :
      (z : ℕ)
      → (s.order_pool.store z).is_free ≡ false
      → with_order.order_pool.store z ≡ s.order_pool.store z
  old_block z h =
      let free = r.orders.next_free in
      let other : (p == z) ≡ false = ==-ne p z (λ same. cc) in
      ap (λ g. g z) allocates.2.store
      ∙ ap
          (λ b.
            if b then record { object = new_order i id; is_free = false } else s.order_pool.store z)
          other

  with_order-IsBookSide :
      (od : Side) (ls : List Level) → IsBookSide s od ls → IsBookSide with_order od ls
  with_order-IsBookSide od ls v =
      IsBookSide-frame s with_order od ls
        (λ z h. record {
          blocks = λ q e used. old_block q used;
          first = refl;
          mark = refl;
          prices = λ k e. e;
          orders_size = allocates.2.store_size;
          levels_size = refl;
        })
        (λ z h. refl) (λ z h. refl) refl v

  with_order-IsOpening : IsOpening with_order i.side p
  with_order-IsOpening = record {
    free_index =
        ap (λ b. s.price_orders_at_price (price_to_index b.object.price)) new_block ∙ r.free_index;
    side = ap (λ b. b.object.side) new_block;
    mapped =
        subst (λ b. in_client_map b.object.client_id b.object.client_order_id ≡ true)
          (sym new_block) r.mapped;
    inside = subst (λ n. p < n) (sym allocates.2.store_size) r.orders.next_in;
    used = ap (λ b. b.is_free) new_block;
    pool = r.levels;
    spare = r.level_spare;
    spare_in = r.level_spare_in;
    spare_other = r.level_spare_other;
    spare_free = r.level_spare_free;
  }

-- The state in which `add` looks for a match: the order has its number and its client an answer.
abbrev pub acknowledged : State → Incoming → State
acknowledged s i = record s {
  book = record s.book { next_market_order_id = next64 s.next_market_order_id };
  outgoing_ogw_responses = write s.outgoing_ogw_responses (accepted i s.next_market_order_id);
}

acknowledged-SameButQty : (s : State) (i : Incoming) → SameButQty s (acknowledged s i)
acknowledged-SameButQty s i = record {
  keys = λ z. refl;
  marks = λ z. refl;
  orders_size = refl;
  levels = refl;
  prices = refl;
  bids = refl;
  asks = refl;
}

acknowledged-Stops : (s : State) (i : Incoming) → Stops i i.qty s → Stops i i.qty (acknowledged s i)
acknowledged-Stops s i (filled e) = filled e
acknowledged-Stops s i (no_more e) = no_more e
acknowledged-Stops s i (too_dear p q next far) =
    too_dear p q (record { best_level = next.best_level; first = next.first }) far

acknowledged-HasRoom : (s : State) (i : Incoming) → HasRoom s i → HasRoom (acknowledged s i) i
acknowledged-HasRoom s i r = record {
  free_index = r.free_index;
  mapped = r.mapped;
  orders = r.orders;
  order_spare = r.order_spare;
  order_spare_in = r.order_spare_in;
  order_spare_other = r.order_spare_other;
  order_spare_free = r.order_spare_free;
  levels = r.levels;
  level_spare = r.level_spare;
  level_spare_in = r.level_spare_in;
  level_spare_other = r.level_spare_other;
  level_spare_free = r.level_spare_free;
}

abbrev pub new_place : State → Level
new_place s = record {
  at = s.orders_at_price_pool.next_free_index;
  head = s.order_pool.next_free_index;
  behind = [];
}

-- What is left of the order is put into the book.
rest_order-opens :
    (s : State) (i : Incoming) (id : OrderId) (od : Side) (ls ls' ms : List Level)
    → IsOpposite i.side od
    → HasRoom s i
    → Place s i.side i.price (new_place s) ls ls'
    → IsBookSide s i.side ls
    → IsBookSide s od ms
    → (s' : State) × (rest_order i id i.qty s ≡ ok (tt, s'))
      × IsBookSide s' i.side ls'
      × IsBookSide s' od ms
      × (payload (order_at s' s.order_pool.next_free_index) ≡ new_order i id)
      × (s'.cid_oid_to_order i.client_id i.client_order_id ≡ some s.order_pool.next_free_index)
      × (s'.outgoing_ogw_responses ≡ s.outgoing_ogw_responses)
      × (s'.outgoing_md_updates ≡ write s.outgoing_md_updates (added_update i id))
unfolding rest_order get_next_priority get_orders_at_price allocate_order send_market_update
rest_order-opens s i id od ls ls' ms opp r place v w =
    let t : State = with_order s i id r in
    let p = s.order_pool.next_free_index in
    let new = new_block s i id r in
    let place' : Place t i.side (order_at t p).price (new_place s) ls ls' =
      subst (λ q. Place t i.side q (new_place s) ls ls') (sym (ap (λ b. b.object.price) new))
        (Place-moved s t i.side i.price (new_place s) ls ls' (λ z h. refl) place) in
    let (u, run, v', w', payloads, mapped, responses, updates) =
      add_order-opens t i.side od p ls ls' ms opp (with_order-IsOpening s i id r) place'
        (with_order-IsBookSide s i id r i.side ls v) (with_order-IsBookSide s i id r od ms w) in
    let told = update-SameButQty u (added_update i id) in
    (
      with_update u (added_update i id),
      rw (r.free_index, (allocates s i id r).1, run) refl,
      IsBookSide-requantified u (with_update u (added_update i id)) i.side told ls' v',
      IsBookSide-requantified u (with_update u (added_update i id)) od told ms w',
      payloads p ∙ ap (λ b. payload b.object) new,
      subst (λ b. u.cid_oid_to_order b.object.client_id b.object.client_order_id ≡ some p) new
          mapped,
      responses,
      ap (λ q. write q (added_update i id)) updates,
    )

abbrev then_rest : Incoming → OrderId → Result (Qty × State) → Result (Unit {0} × State)
then_rest i id r = bind_result r (λ x. (if x.0 == 0 then pure tt else rest_order i id x.0) x.1)

-- An order with a quantity, of a known side, that no order of the other side matches, at a price
-- whose index no level has: it is accepted with all its quantity under the next market order number,
-- and rests alone, with its own price, side and quantity and priority 1, at a new level that takes its
-- place among those of its side; the other side keeps its levels and orders, its client's entry leads to it, and
-- the client and the market are told of it in one message each. The price is worse than all of the
-- side, or a bid better than all, or the side is empty; both sides are in order, and there is room.
pub add-rests :
    (s : State) (i : Incoming) (od : Side) (ls ls' ms : List Level)
    → (is_buy i.side || is_sell i.side) ≡ true
    → IsOpposite i.side od
    → 0 < i.qty
    → Stops i i.qty s
    → HasRoom s i
    → Place s i.side i.price (new_place s) ls ls'
    → IsBookSide s i.side ls
    → IsBookSide s od ms
    → (s' : State) × (add i s ≡ ok (tt, s'))
      × IsBookSide s' i.side ls'
      × IsBookSide s' od ms
      × (payload (order_at s' s.order_pool.next_free_index) ≡ new_order i s.next_market_order_id)
      × (s'.cid_oid_to_order i.client_id i.client_order_id ≡ some s.order_pool.next_free_index)
      × (s'.outgoing_ogw_responses
          ≡ write s.outgoing_ogw_responses (acceptance i s.next_market_order_id))
      × (s'.outgoing_md_updates
          ≡ write s.outgoing_md_updates (added_update i s.next_market_order_id))
unfolding add generate_new_market_order_id send_client_response
add-rests s i od ls ls' ms known opp more stops r place v w =
    let t : State = acknowledged s i in
    let id = s.next_market_order_id in
    let same = acknowledged-SameButQty s i in
    let (s', run, v', w', rests, mapped, responses, updates) =
      rest_order-opens t i id od ls ls' ms opp (acknowledged-HasRoom s i r)
        (Place-moved s t i.side i.price (new_place s) ls ls' (λ z h. refl) place)
        (IsBookSide-requantified s t i.side same ls v) (IsBookSide-requantified s t od same ms w) in
    let some_left : (i.qty == 0) ≡ false = ground (arith, more) in
    (
      s',
      ap (then_rest i id) (check_for_match-stops i id t known more (acknowledged-Stops s i stops))
          ∙ ap (λ b. (if b then pure tt else rest_order i id i.qty) t) some_left
          ∙ run,
      v',
      w',
      rests,
      mapped,
      responses,
      updates,
    )
