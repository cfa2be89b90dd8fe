-- ===== src/Book.antt =====
-- The state of exchange/matcher/me_order_book.h, with the order and price level structs of
-- exchange/matcher/me_order.h, and the memory accesses that its member functions are made of.
-- The pools are the heap: a pointer to an order or to a price level is the index of its block.
-- `match` and the rest send through the matching engine, so its two outgoing queues are part of the
-- state here. The members client_response_ and market_update_ are written just before each send and
-- read by that send only: the message is passed on directly. Logging is left out.
pub mod Levels
pub mod Orders
pub mod Matching
pub mod Reports
pub mod Queue
pub mod Cancel
pub mod NextPriority
pub mod Removal
pub mod Frame
pub mod FillOrder
pub mod Fills
pub mod Totals
pub mod Ladder
pub mod Text
pub mod Tests
use low_latency_trading_engi.Base.{
  ℕ, ◌+◌, ◌-◌, ◌%◌, ◌^◌, Bool, true, false, Option, none, some, Fault, Result, ok, err, M,
  bind_result, ◌>>=◌, ◌>>◌, pure, fail, gets, modify, ltb, ◌==◌, if◌then◌else◌, update, to_u64,
}
use low_latency_trading_engi.Types.{
  OrderId, TickerId, ClientId, Price, Qty, Priority, Side, is_buy, me_max_num_clients,
  me_max_order_ids, me_max_price_levels, order_id_invalid, ticker_id_invalid, client_id_invalid,
  price_invalid, qty_invalid, priority_invalid,
}
use low_latency_trading_engi.LfQueue
use low_latency_trading_engi.LfQueue.{LfQueue}
use low_latency_trading_engi.MemPool
use low_latency_trading_engi.MemPool.{MemPool}
use low_latency_trading_engi.Messages.{MeClientResponse, MeMarketUpdate}

pub record MeOrder : Type 0 where
  pub ticker_id : TickerId
  pub client_id : ClientId
  pub client_order_id : OrderId
  pub market_order_id : OrderId
  pub side : Side
  pub price : Price
  pub qty : Qty
  pub priority : Priority
  pub prev_order : Option ℕ
  pub next_order : Option ℕ

pub record MeOrdersAtPrice : Type 0 where
  pub side : Side
  pub price : Price
  pub first_me_order : Option ℕ
  pub prev_entry : Option ℕ
  pub next_entry : Option ℕ

abbrev pub default_order : MeOrder
default_order = record {
  ticker_id = ticker_id_invalid;
  client_id = client_id_invalid;
  client_order_id = order_id_invalid;
  market_order_id = order_id_invalid;
  side = Side.invalid;
  price = price_invalid;
  qty = qty_invalid;
  priority = priority_invalid;
  prev_order = none;
  next_order = none;
}

abbrev pub default_orders_at_price : MeOrdersAtPrice
default_orders_at_price = record {
  side = Side.invalid;
  price = price_invalid;
  first_me_order = none;
  prev_entry = none;
  next_entry = none;
}

pub record MeOrderBook : Type 0 where
  pub ticker_id : TickerId
  pub cid_oid_to_order : ClientId → OrderId → Option ℕ
  pub orders_at_price_pool : MemPool MeOrdersAtPrice
  pub bids_by_price : Option ℕ
  pub asks_by_price : Option ℕ
  pub price_orders_at_price : ℕ → Option ℕ
  pub order_pool : MemPool MeOrder
  pub next_market_order_id : OrderId

-- The constructor initialises neither array of pointers: what their memory held before is an
-- argument.
unfoldable pub make : (ClientId → OrderId → Option ℕ) → (ℕ → Option ℕ) → TickerId → MeOrderBook
unfolding MemPool.make
make order_memory level_memory ticker_id = record {
  ticker_id = ticker_id;
  cid_oid_to_order = order_memory;
  orders_at_price_pool = MemPool.make default_orders_at_price me_max_price_levels;
  bids_by_price = none;
  asks_by_price = none;
  price_orders_at_price = level_memory;
  order_pool = MemPool.make default_order me_max_order_ids;
  next_market_order_id = 1;
}

pub record State : Type 0 where
  pub book : MeOrderBook
  pub open book use *
  pub outgoing_ogw_responses : LfQueue MeClientResponse
  pub outgoing_md_updates : LfQueue MeMarketUpdate

-- A member function of the book, as a run from such a state.
abbrev pub B : Type 0 → Type 0
B A = M State A

-- Access to the objects behind the pointers.
abbrev pub order_at : State → ℕ → MeOrder
order_at s p = MemPool.object_at s.order_pool p

abbrev pub level_at : State → ℕ → MeOrdersAtPrice
level_at s p = MemPool.object_at s.orders_at_price_pool p

abbrev pub order : ℕ → B MeOrder
order p = gets (λ (s : State). order_at s p)

abbrev pub level : ℕ → B MeOrdersAtPrice
level p = gets (λ (s : State). level_at s p)

abbrev pub put_order : State → ℕ → MeOrder → State
put_order s p o = record s {
  book = record s.book { order_pool = MemPool.set_object s.order_pool p o };
}

abbrev pub put_level : State → ℕ → MeOrdersAtPrice → State
put_level s p l = record s {
  book = record s.book { orders_at_price_pool = MemPool.set_object s.orders_at_price_pool p l };
}

abbrev pub set_order : ℕ → (MeOrder → MeOrder) → B (Unit {0})
set_order p f = modify (λ s. put_order s p (f (order_at s p)))

abbrev pub set_level : ℕ → (MeOrdersAtPrice → MeOrdersAtPrice) → B (Unit {0})
set_level p f = modify (λ s. put_level s p (f (level_at s p)))

-- `(side == Side::BUY ? bids_by_price_ : asks_by_price_)`, read and written.
abbrev pub best_of : State → Side → Option ℕ
best_of s side = if is_buy side then s.bids_by_price else s.asks_by_price

abbrev pub with_best : State → Side → Option ℕ → State
with_best s side p =
    if is_buy side
    then record s { book = record s.book { bids_by_price = p } }
    else record s { book = record s.book { asks_by_price = p } }

-- The two pools' operations on the book.
unfoldable pub allocate_order : MeOrder → B ℕ
allocate_order o s =
    bind_result (MemPool.allocate o s.order_pool)
      (λ r. ok (r.0, record s { book = record s.book { order_pool = r.1 } }))

unfoldable pub deallocate_order : ℕ → B (Unit {0})
deallocate_order p s =
    bind_result (MemPool.deallocate p s.order_pool)
      (λ r. ok (tt, record s { book = record s.book { order_pool = r.1 } }))

unfoldable pub allocate_level : MeOrdersAtPrice → B ℕ
allocate_level l s =
    bind_result (MemPool.allocate l s.orders_at_price_pool)
      (λ r. ok (r.0, record s { book = record s.book { orders_at_price_pool = r.1 } }))

unfoldable pub deallocate_level : ℕ → B (Unit {0})
deallocate_level p s =
    bind_result (MemPool.deallocate p s.orders_at_price_pool)
      (λ r. ok (tt, record s { book = record s.book { orders_at_price_pool = r.1 } }))

-- `price % ME_MAX_PRICE_LEVELS`: the price is converted to size_t first.
unfoldable pub price_to_index : Price → ℕ
price_to_index price = to_u64 price % me_max_price_levels

unfoldable pub get_orders_at_price : Price → B (Option ℕ)
unfolding price_to_index
get_orders_at_price price = gets (λ (s : State). s.price_orders_at_price (price_to_index price))

abbrev pub set_orders_at_price : Price → Option ℕ → B (Unit {0})
set_orders_at_price price p = modify (λ s. record s {
  book = record s.book {
    price_orders_at_price = update s.price_orders_at_price (price_to_index price) p;
  };
})

-- `cid_oid_to_order_.at(client).at(order)`, read and written.
abbrev pub in_client_map : ClientId → OrderId → Bool
in_client_map c o = if ltb c me_max_num_clients then ltb o me_max_order_ids else false

abbrev pub set_client_order : ClientId → OrderId → Option ℕ → B (Unit {0})
set_client_order c o p s =
    if in_client_map c o
    then ok (
      tt,
      record s {
        book = record s.book {
          cid_oid_to_order = update s.cid_oid_to_order c (update (s.cid_oid_to_order c) o p);
        };
      },
    )
    else err Fault.out_of_range

-- `MatchingEngine::sendClientResponse` and `MatchingEngine::sendMarketUpdate`.
unfoldable pub send_client_response : MeClientResponse → B (Unit {0})
send_client_response r =
    modify (λ s. record s { outgoing_ogw_responses = LfQueue.write s.outgoing_ogw_responses r })

unfoldable pub send_market_update : MeMarketUpdate → B (Unit {0})
send_market_update u =
    modify (λ s. record s { outgoing_md_updates = LfQueue.write s.outgoing_md_updates u })
