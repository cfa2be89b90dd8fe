-- ===== src/Bbo/Tests.antt =====
-- A book with two orders at its best bid and one at its best ask, for the theorems on
-- trading/strategy/market_orderbook.h.
use low_latency_trading_engi.Base.{
  ℕ, ◌≡◌, refl, true, false, Option, some, none, ok, [], ◌∷◌, pos, ℤ, arith, update,
}
use low_latency_trading_engi.Types.{Side}
use low_latency_trading_engi.MemPool.{ObjectBlock}
use low_latency_trading_engi.Bbo.{
  MarketOrder, MarketOrdersAtPrice, MarketOrderBook, empty_bbo, update_bbo,
}
use low_latency_trading_engi.Bbo.Total.{IsSide, update_bbo-total}

abbrev order : ℕ → Side → ℤ → ℕ → Option ℕ → ObjectBlock MarketOrder
order o side price qty p = record {
  object = record {
    order_id = o;
    side = side;
    price = price;
    qty = qty;
    priority = o;
    prev_order = p;
    next_order = p;
  };
  is_free = false;
}

abbrev price_level : Side → ℤ → Option ℕ → ObjectBlock MarketOrdersAtPrice
price_level side price first = record {
  object = record {
    side = side;
    price = price;
    first_mkt_order = first;
    prev_entry = none;
    next_entry = none;
  };
  is_free = false;
}

abbrev book : MarketOrderBook
book = record {
  orders_at_price_pool = record {
    store =
        update (λ _. price_level Side.buy (pos 99) (some 0)) 1
          (price_level Side.sell (pos 101) (some 2));
    store_size = 2;
    next_free_index = 0;
  };
  bids_by_price = some 0;
  asks_by_price = some 1;
  price_orders_at_price = update (update (λ _. none) 101 (some 1)) 99 (some 0);
  order_pool = record {
    store =
        update
          (update (λ _. order 3 Side.sell (pos 101) 4 (some 2)) 1
            (order 2 Side.buy (pos 99) 6 (some 0)))
          0 (order 1 Side.buy (pos 99) 5 (some 1));
    store_size = 3;
    next_free_index = 0;
  };
  bbo = empty_bbo;
}

bids-IsSide : IsSide book 0 0 (1 ∷ [])
bids-IsSide = record {
  first = refl;
  ring = record { links = (refl, refl, (refl, refl)); distinct = (refl, (refl, tt)) };
  fits = omega arith;
}

asks-IsSide : IsSide book 1 2 []
asks-IsSide = record {
  first = refl;
  ring = record { links = (refl, refl); distinct = (refl, tt) };
  fits = omega arith;
}

bbo_example :
    (b' : MarketOrderBook) × (update_bbo true true book ≡ ok (tt, b'))
    × (b'.bbo ≡ record { bid_price = pos 99; ask_price = pos 101; bid_qty = 11; ask_qty = 4 })
bbo_example =
    update_bbo-total book 0 1 0 2 (1 ∷ []) [] refl refl bids-IsSide asks-IsSide (omega arith)
      (omega arith)
