-- ===== src/Book/NextPriority.antt =====
-- `getNextPriority` of exchange/matcher/me_order_book.h at a price that has orders.
use low_latency_trading_engi.Base.{ℕ, ◌+◌, ◌%◌, ◌^◌, ◌≡◌, some, List, ok}
use low_latency_trading_engi.Ring.{last, last-Links}
use low_latency_trading_engi.Book.{State, order_at, price_to_index, get_orders_at_price}
use low_latency_trading_engi.Book.Orders.{get_next_priority}
use low_latency_trading_engi.Book.Queue.{IsQueue, next_of, prev_of}

-- At a price whose level is found and has a well-linked queue, the next priority is one more than
-- that of the order at the end of the queue, modulo 2 ^ 64, and the book is left as it is.
pub get_next_priority-last :
    (s : State) (lp x : ℕ) (xs : List ℕ) (price : _)
    → s.price_orders_at_price (price_to_index price) ≡ some lp
    → IsQueue s lp x xs
    → get_next_priority price s ≡ ok (((order_at s (last x xs)).priority + 1) % 2 ^ 64, s)
unfolding get_next_priority get_orders_at_price
get_next_priority-last s lp x xs price e v =
    rw (e, v.first, (last-Links (next_of s) (prev_of s) x xs x v.ring.links).1)
