-- ===== src/Book/Ladder/Tests.antt =====
-- A book with one ask at 105 and a second order not yet in it, for the theorems on the price levels
-- of exchange/matcher/me_order_book.h.
use low_latency_trading_engi.Base.{
  ℕ, ◌≡◌, refl, true, false, Option, none, some, [], ◌∷◌, ok, pos, arith, update, ℤ,
}
use low_latency_trading_engi.Types.{Side}
use low_latency_trading_engi.MemPool.{ObjectBlock}
use low_latency_trading_engi.Ring.{IsRing}
use low_latency_trading_engi.Book.{
  order_at, MeOrder, MeOrdersAtPrice, State, default_order, default_orders_at_price, price_to_index,
  best_of,
}
use low_latency_trading_engi.Book.Levels.{add_orders_at_price}
use low_latency_trading_engi.Book.Orders.{add_order}
use low_latency_trading_engi.Book.Tests.{responses, updates}
use low_latency_trading_engi.Book.Text.{side_to_text, price_min}
use low_latency_trading_engi.Book.Text.Printing.{side_lines, side_to_text-checks}
use low_latency_trading_engi.Book.Ladder.{Level, IsBookSide, next_level, prev_level}
use low_latency_trading_engi.Book.Ladder.Splice.{IsFresh}
use low_latency_trading_engi.Book.Ladder.Insert.{behind_all}
use low_latency_trading_engi.Book.Ladder.Open.{IsOpening, add_order-opens}
use low_latency_trading_engi.Book.Matching.{Incoming, add}
use low_latency_trading_engi.Book.Reports.{acceptance}
use low_latency_trading_engi.Book.Queue.{payload, SamePayloads}
use low_latency_trading_engi.Book.FillOrder.{no_more}
use low_latency_trading_engi.LfQueue.{write}
use low_latency_trading_engi.Book.Ladder.Rest.{HasRoom, new_order, added_update, add-rests}
use low_latency_trading_engi.Book.Ladder.BetterAsk.{add_orders_at_price-better_ask}

abbrev ask : ℕ → ℤ → MeOrder
ask o price = record {
  ticker_id = 0;
  client_id = 1;
  client_order_id = o;
  market_order_id = o;
  side = Side.sell;
  price = price;
  qty = 10;
  priority = 1;
  prev_order = some o;
  next_order = some o;
}

abbrev level_of_asks : ℕ → ℤ → Option ℕ → MeOrdersAtPrice
level_of_asks o price link = record {
  side = Side.sell;
  price = price;
  first_me_order = some o;
  prev_entry = link;
  next_entry = link;
}

-- Order 0 rests alone at 105; order 1 has the given price, and `second` is the level block 1.
abbrev with_second : ℤ → ObjectBlock MeOrdersAtPrice → State
with_second price second = record {
  book = record {
    ticker_id = 0;
    cid_oid_to_order = λ _. update (λ _. none) 0 (some 0);
    orders_at_price_pool = record {
      store =
          update
            (update (λ _. record { object = default_orders_at_price; is_free = true }) 1 second) 0
            (record { object = level_of_asks 0 (pos 105) (some 0); is_free = false });
      store_size = 8;
      next_free_index = 1;
    };
    bids_by_price = none;
    asks_by_price = some 0;
    price_orders_at_price = update (λ _. none) 105 (some 0);
    order_pool = record {
      store =
          update
            (update (λ _. record { object = default_order; is_free = true }) 1
              (record { object = ask 1 price; is_free = false }))
            0 (record { object = ask 0 (pos 105); is_free = false });
      store_size = 8;
      next_free_index = 2;
    };
    next_market_order_id = 2;
  };
  outgoing_ogw_responses = responses;
  outgoing_md_updates = updates;
}

abbrev resting : Level
resting = record { at = 0; head = 0; behind = [] }

-- Order 1 is to be added at 107.
abbrev worse_ask : State
worse_ask = with_second (pos 107) (record { object = default_orders_at_price; is_free = true })

-- Order 1 has a level at 103 that is not yet linked.
abbrev better_ask : State
better_ask =
    with_second (pos 103) (record { object = level_of_asks 1 (pos 103) none; is_free = false })

module _ (price : ℤ) (second : ObjectBlock MeOrdersAtPrice) where
  at_105 : (with_second price second).price_orders_at_price (price_to_index (pos 105)) ≡ some 0
  unfolding price_to_index
  at_105 = refl

  asks-IsBookSide : IsBookSide (with_second price second) Side.sell (resting ∷ [])
  asks-IsBookSide = record {
    linked = (refl, record { links = (refl, refl); distinct = (refl, tt) });
    levels = (
      record {
        queue = record {
          first = refl;
          ring = record { links = (refl, refl); distinct = (refl, tt) };
        };
        orders = (
          (record { level = at_105; mapped = refl; inside = omega arith; used = refl }, refl),
          tt,
        );
        inside = omega arith;
        used = refl;
      },
      tt,
    );
  }

free_at_107 : worse_ask.price_orders_at_price (price_to_index (pos 107)) ≡ none
unfolding price_to_index
free_at_107 = refl

free_at_103 : better_ask.price_orders_at_price (price_to_index (pos 103)) ≡ none
unfolding price_to_index
free_at_103 = refl

second-IsOpening : IsOpening worse_ask Side.sell 1
second-IsOpening = record {
  free_index = free_at_107;
  side = refl;
  mapped = refl;
  inside = omega arith;
  used = refl;
  pool = record { next_in = omega arith; next_free = refl };
  spare = 2;
  spare_in = omega arith;
  spare_other = omega arith;
  spare_free = refl;
}

opens_example :
    (s' : State) × (add_order 1 worse_ask ≡ ok (tt, s'))
    × IsBookSide s' Side.sell (resting ∷ record { at = 1; head = 1; behind = [] } ∷ [])
    × IsBookSide s' Side.buy []
    × SamePayloads worse_ask s'
    × (s'.cid_oid_to_order 1 1 ≡ some 1)
    × (s'.outgoing_ogw_responses ≡ responses)
    × (s'.outgoing_md_updates ≡ updates)
opens_example =
    add_order-opens worse_ask Side.sell Side.buy 1 (resting ∷ [])
      (resting ∷ record { at = 1; head = 1; behind = [] } ∷ []) [] refl second-IsOpening
      (behind_all resting [] (refl, tt)) (asks-IsBookSide _ _)
      (record { linked = refl; levels = tt })

second-IsFresh : IsFresh better_ask Side.sell 1 1
second-IsFresh = record {
  side = refl;
  free_index = free_at_103;
  queue = record { first = refl; ring = record { links = (refl, refl); distinct = (refl, tt) } };
  order_index = refl;
  order_side = refl;
  mapped = refl;
  order_inside = omega arith;
  order_used = refl;
  inside = omega arith;
  used = refl;
}

better_ask_example :
    (s' : State) × (add_orders_at_price 1 better_ask ≡ ok (tt, s'))
    × IsRing (next_level s') (prev_level s') 1 (0 ∷ [])
    × (best_of s' Side.sell ≡ some 0)
    × (best_of s' Side.buy ≡ some 1)
better_ask_example =
    add_orders_at_price-better_ask better_ask 1 1 resting [] second-IsFresh (asks-IsBookSide _ _)
      refl

asks_printed_example :
    side_to_text true true Side.sell (some 0) price_min worse_ask
    ≡ ok (side_lines true worse_ask Side.sell 0 (resting ∷ []), worse_ask)
asks_printed_example =
    side_to_text-checks true worse_ask Side.sell price_min (resting ∷ []) (asks-IsBookSide _ _)

abbrev sell_at_107 : Incoming
sell_at_107 = record {
  client_id = 1;
  client_order_id = 5;
  ticker_id = 0;
  side = Side.sell;
  price = pos 107;
  qty = 10;
}

there_HasRoom : HasRoom worse_ask sell_at_107
there_HasRoom = record {
  free_index = free_at_107;
  mapped = refl;
  orders = record { next_in = omega arith; next_free = refl };
  order_spare = 3;
  order_spare_in = omega arith;
  order_spare_other = omega arith;
  order_spare_free = refl;
  levels = record { next_in = omega arith; next_free = refl };
  level_spare = 2;
  level_spare_in = omega arith;
  level_spare_other = omega arith;
  level_spare_free = refl;
}

rests_example :
    (s' : State) × (add sell_at_107 worse_ask ≡ ok (tt, s'))
    × IsBookSide s' Side.sell (resting ∷ record { at = 1; head = 2; behind = [] } ∷ [])
    × IsBookSide s' Side.buy []
    × (payload (order_at s' 2) ≡ new_order sell_at_107 2)
    × (s'.cid_oid_to_order 1 5 ≡ some 2)
    × (s'.outgoing_ogw_responses ≡ write responses (acceptance sell_at_107 2))
    × (s'.outgoing_md_updates ≡ write updates (added_update sell_at_107 2))
rests_example =
    add-rests worse_ask sell_at_107 Side.buy (resting ∷ [])
      (resting ∷ record { at = 1; head = 2; behind = [] } ∷ []) [] refl refl (omega arith)
      (no_more refl) there_HasRoom (behind_all resting [] (refl, tt)) (asks-IsBookSide _ _)
      (record { linked = refl; levels = tt })
