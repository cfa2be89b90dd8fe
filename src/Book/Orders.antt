-- ===== src/Book/Orders.antt =====
-- The queue of orders at one price: `getNextPriority`, `addOrder` and `removeOrder` of
-- exchange/matcher/me_order_book.h.
use low_latency_trading_engi.Base.{
  ℕ, Option, none, some, ◌>>=◌, ◌>>◌, pure, deref, if◌then◌else◌, same_ptr,
}
use low_latency_trading_engi.Types.{Price, Priority, next64}
use low_latency_trading_engi.Book.{
  B, order, level, set_order, set_level, allocate_level, deallocate_order, get_orders_at_price,
  set_client_order,
}
use low_latency_trading_engi.Book.Levels.{add_orders_at_price, remove_orders_at_price}

unfoldable pub get_next_priority : Price → B Priority
get_next_priority price = do
  orders_at_price ← get_orders_at_price price
  elim orders_at_price [
    | none ↦ pure 1
    | some p ↦ do
      l ← level p
      first ← deref l.first_me_order
      f ← order first
      last ← deref f.prev_order
      o ← order last
      pure (next64 o.priority)
  ]

-- Takes an order out of the list of its price; the level may then have another first order.
unfoldable pub unlink_order : ℕ → Option ℕ → B (Unit {0})
unlink_order p orders_at_price = do
  o ← order p
  order_before ← deref o.prev_order
  order_after ← deref o.next_order
  set_order order_before (λ b. record b { next_order = some order_after })
  set_order order_after (λ a. record a { prev_order = some order_before })
  lp ← deref orders_at_price
  l ← level lp
  (if same_ptr l.first_me_order (some p)
      then set_level lp (λ x. record x { first_me_order = some order_after })
      else pure tt)
  set_order p (λ x. record x { prev_order = none; next_order = none })

-- Clears the client's entry and gives the block back.
unfoldable pub forget_order : ℕ → B (Unit {0})
forget_order p = do
  o ← order p
  set_client_order o.client_id o.client_order_id none
  deallocate_order p

unfoldable pub remove_order : ℕ → B (Unit {0})
remove_order p = do
  o ← order p
  orders_at_price ← get_orders_at_price o.price
  (if same_ptr o.prev_order (some p)
      then remove_orders_at_price o.side o.price
      else unlink_order p orders_at_price)
  forget_order p

-- Puts an order behind the last one of a price that has orders.
unfoldable pub append_order : ℕ → ℕ → B (Unit {0})
append_order p lp = do
  l ← level lp
  first_order ← deref l.first_me_order
  f ← order first_order
  last ← deref f.prev_order
  set_order last (λ x. record x { next_order = some p })
  f' ← order first_order
  set_order p (λ x. record x { prev_order = f'.prev_order })
  set_order p (λ x. record x { next_order = some first_order })
  set_order first_order (λ x. record x { prev_order = some p })

-- Makes a price level for an order that is the first one there.
unfoldable pub open_level : ℕ → B (Unit {0})
open_level p = do
  set_order p (λ x. record x { prev_order = some p; next_order = some p })
  o ← order p
  new_orders_at_price ← allocate_level (record {
    side = o.side;
    price = o.price;
    first_me_order = some p;
    prev_entry = none;
    next_entry = none;
  })
  add_orders_at_price new_orders_at_price

unfoldable pub add_order : ℕ → B (Unit {0})
add_order p = do
  o ← order p
  orders_at_price ← get_orders_at_price o.price
  elim orders_at_price [ none ↦ open_level p | some lp ↦ append_order p lp ]
  o' ← order p
  set_client_order o'.client_id o'.client_order_id (some p)
