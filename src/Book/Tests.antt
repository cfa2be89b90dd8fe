-- ===== src/Book/Tests.antt =====
-- A book with two bids at one price and one order not yet in it, for the theorems on
-- exchange/matcher/me_order_book.h.
use low_latency_trading_engi.Base.{
  bind_result, ℕ, ◌+◌, ◌%◌, ◌^◌, ◌≤◌, List, ◌≡◌, refl, true, false, Option, some, none, ok, [], ◌∷◌,
  pos, arith, update,
}
use low_latency_trading_engi.Types.{Side}
use low_latency_trading_engi.LfQueue.{LfQueue, write_all}
use low_latency_trading_engi.MemPool.{MemPool, ObjectBlock}
use low_latency_trading_engi.Messages.{
  MeClientResponse, MeMarketUpdate, default_response, default_update,
}
use low_latency_trading_engi.Book.{
  MeOrder, MeOrdersAtPrice, MeOrderBook, State, default_order, default_orders_at_price,
  price_to_index,
}
use low_latency_trading_engi.Book.Queue.{IsQueue, SamePayloads}
use low_latency_trading_engi.Book.Orders.{add_order}
use low_latency_trading_engi.Book.Matching.{Incoming, cancel, check_for_match}
use low_latency_trading_engi.Book.Ladder.{Level, IsBookSide, count}
use low_latency_trading_engi.Book.Ladder.Match.{check_for_match-Matched, check_for_match-traded}
use low_latency_trading_engi.Book.FillOrder.{Matched}
use low_latency_trading_engi.Book.Totals.{traded, executed}
use low_latency_trading_engi.Book.Removal.{IsResting, IsNew, add_order-append}
use low_latency_trading_engi.Book.Cancel.{
  Cancelled, cancel-twice, CancelledTwice, cancel-behind, cancel-first,
}

-- Order `o` of client 1, with its neighbours.
abbrev bid : (o priority : ℕ) (before after : Option ℕ) → MeOrder
bid o priority before after = record {
  ticker_id = 0;
  client_id = 1;
  client_order_id = o;
  market_order_id = o + 1;
  side = Side.buy;
  price = pos 100;
  qty = 10;
  priority = priority;
  prev_order = before;
  next_order = after;
}

abbrev used : MeOrder → ObjectBlock MeOrder
used o = record { object = o; is_free = false }

abbrev orders : MemPool MeOrder
orders = record {
  store =
      update
        (update
          (update (λ _. record { object = default_order; is_free = true }) 2
            (used (bid 7 3 none none)))
          1 (used (bid 6 2 (some 0) (some 0))))
        0 (used (bid 5 1 (some 1) (some 1)));
  store_size = 8;
  next_free_index = 3;
}

abbrev levels : MemPool MeOrdersAtPrice
levels = record {
  store =
      update (λ _. record { object = default_orders_at_price; is_free = true }) 0
        (record {
          object = record {
            side = Side.buy;
            price = pos 100;
            first_me_order = some 0;
            prev_entry = some 0;
            next_entry = some 0;
          };
          is_free = false;
        });
  store_size = 8;
  next_free_index = 1;
}

abbrev pub responses : LfQueue MeClientResponse
responses = record {
  store = λ _. default_response;
  store_size = 8;
  next_write_index = 0;
  next_read_index = 0;
  num_elements = 0;
}

abbrev pub updates : LfQueue MeMarketUpdate
updates = record {
  store = λ _. default_update;
  store_size = 8;
  next_write_index = 0;
  next_read_index = 0;
  num_elements = 0;
}

abbrev pub two_bids : MeOrderBook
two_bids = record {
  ticker_id = 0;
  cid_oid_to_order = update (λ _ _. none) 1 (update (update (λ _. none) 5 (some 0)) 6 (some 1));
  orders_at_price_pool = levels;
  bids_by_price = some 0;
  asks_by_price = none;
  price_orders_at_price = update (λ _. none) 100 (some 0);
  order_pool = orders;
  next_market_order_id = 9;
}

abbrev state : State
state = record {
  book = two_bids;
  outgoing_ogw_responses = responses;
  outgoing_md_updates = updates;
}

state-IsQueue : IsQueue state 0 0 (1 ∷ [])
state-IsQueue = record {
  first = refl;
  ring = record { links = (refl, refl, (refl, refl)); distinct = (refl, (refl, tt)) };
}

at_100 : state.price_orders_at_price (price_to_index (pos 100)) ≡ some 0
unfolding price_to_index
at_100 = refl

first-IsResting : IsResting state 0 0
first-IsResting = record { level = at_100; mapped = refl; inside = omega arith; used = refl }

second-IsResting : IsResting state 0 1
second-IsResting = record { level = at_100; mapped = refl; inside = omega arith; used = refl }

third-IsNew : IsNew state 0 2 0 (1 ∷ [])
third-IsNew = record { level = at_100; mapped = refl; outside = refl }

cancel_behind_example :
    (s' : State) × (cancel 1 6 0 state ≡ ok (tt, s')) × IsQueue s' 0 0 [] × Cancelled state 1 0 s'
cancel_behind_example =
    cancel-behind state 0 0 [] 1 [] 0 state-IsQueue second-IsResting (refl, refl)

cancel_first_example :
    (s' : State) × (cancel 1 5 0 state ≡ ok (tt, s')) × IsQueue s' 0 1 [] × Cancelled state 0 0 s'
cancel_first_example = cancel-first state 0 0 1 [] 0 state-IsQueue first-IsResting (refl, refl)

cancel_twice_example :
    (s' : State) × (bind_result (cancel 1 6 0 state) (λ r. cancel 1 6 0 r.1) ≡ ok (tt, s'))
    × IsQueue s' 0 0 []
    × CancelledTwice state 1 0 s'
cancel_twice_example = cancel-twice state 0 0 [] 1 [] 0 state-IsQueue second-IsResting (refl, refl)

add_order_append_example :
    (s' : State) × (add_order 2 state ≡ ok (tt, s'))
    × IsQueue s' 0 0 (1 ∷ 2 ∷ [])
    × (s'.cid_oid_to_order 1 7 ≡ some 2)
    × SamePayloads state s'
    × (s'.outgoing_ogw_responses ≡ state.outgoing_ogw_responses)
    × (s'.outgoing_md_updates ≡ state.outgoing_md_updates)
add_order_append_example = add_order-append state 0 0 (1 ∷ []) 2 state-IsQueue third-IsNew

abbrev only_level : Level
only_level = record { at = 0; head = 0; behind = 1 ∷ [] }

bids-IsBookSide : IsBookSide state Side.buy (only_level ∷ [])
bids-IsBookSide = record {
  linked = (refl, record { links = (refl, refl); distinct = (refl, tt) });
  levels = (
    record {
      queue = state-IsQueue;
      orders = ((first-IsResting, refl), ((second-IsResting, refl), tt));
      inside = omega arith;
      used = refl;
    },
    tt,
  );
}

-- A sell order for more than the first bid, at the bids' price.
abbrev ask : Incoming
ask = record {
  client_id = 2;
  client_order_id = 3;
  ticker_id = 0;
  side = Side.sell;
  price = pos 100;
  qty = 15;
}

match_ends_example :
    (left : ℕ) × (s' : State) × (ls' : List Level) × (check_for_match ask 9 state ≡ ok (left, s'))
    × IsBookSide s' Side.buy ls'
    × (count ls' ≤ 2)
    × Matched ask (9 % 2 ^ 32) 15 state left s'
match_ends_example =
    check_for_match-Matched ask 9 Side.buy state (only_level ∷ []) (refl, refl) (omega arith)
      bids-IsBookSide (omega arith)

match_traded_example :
    (left : ℕ) × (s' : State) × (rs : List MeClientResponse) × (us : List MeMarketUpdate)
    × (check_for_match ask 9 state ≡ ok (left, s'))
    × (s'.outgoing_ogw_responses ≡ write_all state.outgoing_ogw_responses rs)
    × (s'.outgoing_md_updates ≡ write_all state.outgoing_md_updates us)
    × (traded us + left ≡ 15)
    × (executed rs ≡ traded us + traded us)
match_traded_example =
    check_for_match-traded ask 9 Side.buy state (only_level ∷ []) (refl, refl) (omega arith)
      bids-IsBookSide (omega arith)
