-- ===== src/Book/Matching.antt =====
-- `match`, `checkForMatch`, `add` and `cancel` of exchange/matcher/me_order_book.cpp.
use low_latency_trading_engi.Base.{
  ℕ, zero, suc, ◌+◌, ◌%◌, ◌^◌, Bool, ◌||◌, Option, none, some, Fault, ◌>>=◌, ◌>>◌, pure, fail, gets,
  modify, deref, ltb, ltb_ℤ, ◌==◌, if◌then◌else◌, min,
}
use low_latency_trading_engi.Types.{
  OrderId, TickerId, ClientId, Price, Qty, Side, is_buy, is_sell, sub32, next64, order_id_invalid,
  price_invalid, qty_invalid, priority_invalid, me_max_num_clients, me_max_order_ids,
}
use low_latency_trading_engi.Messages.{
  ClientResponseType, MeClientResponse, MarketUpdateType, MeMarketUpdate,
}
use low_latency_trading_engi.Book.{
  MeOrder, State, B, order, level, set_order, allocate_order, send_client_response,
  send_market_update,
}
use low_latency_trading_engi.Book.Orders.{get_next_priority, add_order, remove_order}

-- What an incoming order brings to the matching.
pub record Incoming : Type 0 where
  pub client_id : ClientId
  pub client_order_id : OrderId
  pub ticker_id : TickerId
  pub side : Side
  pub price : Price
  pub qty : Qty

-- The messages of `match`.
abbrev pub aggressor_filled : Incoming → OrderId → MeOrder → Qty → Qty → MeClientResponse
aggressor_filled i id o fill leaves = record {
  kind = ClientResponseType.filled;
  client_id = i.client_id;
  ticker_id = i.ticker_id;
  client_order_id = i.client_order_id;
  market_order_id = id;
  side = i.side;
  price = o.price;
  exec_qty = fill;
  leaves_qty = leaves;
}

abbrev pub passive_filled : Incoming → MeOrder → Qty → Qty → MeClientResponse
passive_filled i o fill leaves = record {
  kind = ClientResponseType.filled;
  client_id = o.client_id;
  ticker_id = i.ticker_id;
  client_order_id = o.client_order_id;
  market_order_id = o.market_order_id;
  side = o.side;
  price = o.price;
  exec_qty = fill;
  leaves_qty = leaves;
}

abbrev pub trade_update : Incoming → MeOrder → Qty → MeMarketUpdate
trade_update i o fill = record {
  kind = MarketUpdateType.trade;
  order_id = order_id_invalid;
  ticker_id = i.ticker_id;
  side = i.side;
  price = o.price;
  qty = fill;
  priority = priority_invalid;
}

abbrev pub filled_update : Incoming → MeOrder → Qty → MeMarketUpdate
filled_update i o order_qty = record {
  kind = MarketUpdateType.cancel;
  order_id = o.market_order_id;
  ticker_id = i.ticker_id;
  side = o.side;
  price = o.price;
  qty = order_qty;
  priority = priority_invalid;
}

abbrev pub modify_update : Incoming → MeOrder → Qty → MeMarketUpdate
modify_update i o left = record {
  kind = MarketUpdateType.modify;
  order_id = o.market_order_id;
  ticker_id = i.ticker_id;
  side = o.side;
  price = o.price;
  qty = left;
  priority = o.priority;
}

-- The quantity that the code computes from the two at hand.
abbrev pub fill_of : MeOrder → Qty → Qty
fill_of o leaves = min o.qty leaves

-- The end of `match`: the order is either used up and removed, or smaller.
unfoldable pub settle : Incoming → ℕ → MeOrder → Qty → B (Unit {0})
settle i itr o order_qty =
    if o.qty == 0
    then (do send_market_update (filled_update i o order_qty); remove_order itr)
    else send_market_update (modify_update i o o.qty)

-- Fills the order at `itr`; the result is what `*leaves_qty` holds afterwards.
unfoldable pub match_order : Incoming → OrderId → ℕ → Qty → B Qty
match_order i new_market_order_id itr leaves_qty = do
  o ← order itr
  let fill = fill_of o leaves_qty
  let leaves = sub32 leaves_qty fill
  set_order itr (λ x. record x { qty = sub32 x.qty fill })
  o' ← order itr
  send_client_response (aggressor_filled i new_market_order_id o' fill leaves)
  send_client_response (passive_filled i o' fill o'.qty)
  send_market_update (trade_update i o' fill)
  settle i itr o' o.qty
  pure leaves

-- The order at the head of the best level of the opposite side, if the incoming price reaches it.
abbrev pub too_far : Incoming → MeOrder → Bool
too_far i o = if is_buy i.side then ltb_ℤ i.price o.price else ltb_ℤ o.price i.price

abbrev pub opposite : State → Side → Option ℕ
opposite s side = if is_buy side then s.asks_by_price else s.bids_by_price

-- One round of the loop of `checkForMatch`, the same for either side; `rest` is the rounds after it.
unfoldable pub try_order : (Qty → B Qty) → Incoming → OrderId → Qty → ℕ → MeOrder → B Qty
try_order rest i id leaves_qty itr o =
    if too_far i o then pure leaves_qty else (do left ← match_order i id itr leaves_qty; rest left)

unfoldable pub try_level : (Qty → B Qty) → Incoming → OrderId → Qty → Option ℕ → B Qty
try_level rest i id leaves_qty none = pure leaves_qty
try_level rest i id leaves_qty (some p) = if leaves_qty == 0 then pure leaves_qty else (do
  l ← level p
  itr ← deref l.first_me_order
  o ← order itr
  try_order rest i id leaves_qty itr o)

unfoldable pub match_loop : ℕ → Incoming → OrderId → Qty → B Qty
match_loop zero i id leaves_qty = fail Fault.no_fuel
match_loop (suc fuel) i id leaves_qty = do
  best ← gets (λ (s : State). opposite s i.side)
  try_level (λ left. match_loop fuel i id left) i id leaves_qty best

-- The id comes in as a Qty, which keeps its low 32 bits. Every round but the last takes an order out
-- of the pool, so its size bounds their number.
unfoldable pub check_for_match : Incoming → OrderId → B Qty
check_for_match i new_market_order_id = do
  orders ← gets (λ (s : State). s.order_pool.store_size)
  if is_buy i.side || is_sell i.side
      then match_loop (orders + 1) i (new_market_order_id % 2 ^ 32) i.qty
      else pure i.qty

unfoldable pub generate_new_market_order_id : B OrderId
generate_new_market_order_id = do
  id ← gets (λ (s : State). s.next_market_order_id)
  modify (λ (s : State). record s {
    book = record s.book { next_market_order_id = next64 s.next_market_order_id };
  })
  pure id

abbrev pub accepted : Incoming → OrderId → MeClientResponse
accepted i id = record {
  kind = ClientResponseType.accepted;
  client_id = i.client_id;
  ticker_id = i.ticker_id;
  client_order_id = i.client_order_id;
  market_order_id = id;
  side = i.side;
  price = i.price;
  exec_qty = 0;
  leaves_qty = i.qty;
}

-- What is left of an order that was not filled at once is put into the book.
unfoldable pub rest_order : Incoming → OrderId → Qty → B (Unit {0})
rest_order i id leaves_qty = do
  priority ← get_next_priority i.price
  p ← allocate_order (record {
    ticker_id = i.ticker_id;
    client_id = i.client_id;
    client_order_id = i.client_order_id;
    market_order_id = id;
    side = i.side;
    price = i.price;
    qty = leaves_qty;
    priority = priority;
    prev_order = none;
    next_order = none;
  })
  add_order p
  send_market_update (record {
    kind = MarketUpdateType.add;
    order_id = id;
    ticker_id = i.ticker_id;
    side = i.side;
    price = i.price;
    qty = leaves_qty;
    priority = priority;
  })

unfoldable pub add : Incoming → B (Unit {0})
add i = do
  id ← generate_new_market_order_id
  send_client_response (accepted i id)
  leaves_qty ← check_for_match i id
  if leaves_qty == 0 then pure tt else rest_order i id leaves_qty

-- The messages of `cancel`.
abbrev pub cancel_rejected : ClientId → OrderId → TickerId → MeClientResponse
cancel_rejected client_id order_id ticker_id = record {
  kind = ClientResponseType.cancel_rejected;
  client_id = client_id;
  ticker_id = ticker_id;
  client_order_id = order_id;
  market_order_id = order_id_invalid;
  side = Side.invalid;
  price = price_invalid;
  exec_qty = qty_invalid;
  leaves_qty = qty_invalid;
}

abbrev pub canceled : ClientId → OrderId → TickerId → MeOrder → MeClientResponse
canceled client_id order_id ticker_id o = record {
  kind = ClientResponseType.canceled;
  client_id = client_id;
  ticker_id = ticker_id;
  client_order_id = order_id;
  market_order_id = o.market_order_id;
  side = o.side;
  price = o.price;
  exec_qty = qty_invalid;
  leaves_qty = o.qty;
}

abbrev pub cancel_update : TickerId → MeOrder → MeMarketUpdate
cancel_update ticker_id o = record {
  kind = MarketUpdateType.cancel;
  order_id = o.market_order_id;
  ticker_id = ticker_id;
  side = o.side;
  price = o.price;
  qty = 0;
  priority = o.priority;
}

-- The order that a client names, with the bounds tests in the order of the source: the client's is
-- an `if`, the order id's is that of `at`.
unfoldable pub find_client_order : ClientId → OrderId → B (Option ℕ)
find_client_order client_id order_id s =
    if ltb client_id me_max_num_clients
    then if ltb order_id me_max_order_ids
      then pure (s.cid_oid_to_order client_id order_id) s
      else fail Fault.out_of_range s
    else pure none s

unfoldable pub cancel : ClientId → OrderId → TickerId → B (Unit {0})
cancel client_id order_id ticker_id = do
  found ← find_client_order client_id order_id
  elim found [
    | none ↦ send_client_response (cancel_rejected client_id order_id ticker_id)
    | some p ↦ do
      o ← order p
      remove_order p
      send_market_update (cancel_update ticker_id o)
      send_client_response (canceled client_id order_id ticker_id o)
  ]
