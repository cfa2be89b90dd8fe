-- ===== src/Book/Text.antt =====
-- `toString` of exchange/matcher/me_order_book.cpp and of the structs of exchange/matcher/me_order.h
-- and exchange/matcher/me_order.cpp, with the destructor of a book. A string stream is the list of
-- what is written to it.
pub mod Loops
pub mod Printing
pub mod Whole
use Prim.Native.String
use Prim.Native.String.{String}
use low_latency_trading_engi.Base.{
  ℕ, zero, suc, ◌+◌, ◌-◌, ◌%◌, ◌^◌, Bool, true, false, not, ◌&&◌, ◌||◌, Option, none, some, List,
  [], ◌∷◌, ◌++◌, Fault, ◌>>=◌, ◌>>◌, pure, fail, gets, modify, deref, ltb_ℤ, ℤ, pos, negsuc,
  if◌then◌else◌, same_ptr,
}
use low_latency_trading_engi.Types.{
  Price, Qty, OrderId, Side, is_buy, is_sell, order_id_invalid, price_invalid,
}
use low_latency_trading_engi.Types.Text.{
  to_string, order_id_to_string, ticker_id_to_string, client_id_to_string, price_to_string,
  qty_to_string, priority_to_string, side_to_string,
}
use low_latency_trading_engi.Book.{
  MeOrder, MeOrdersAtPrice, State, B, order, level, order_at, level_at,
}

abbrev pub Stream : Type 0
Stream = List String

-- What a pointer leads to, or what stands for a null pointer.
abbrev pub order_id_of : State → Option ℕ → OrderId
order_id_of s none = order_id_invalid
order_id_of s (some p) = (order_at s p).market_order_id

abbrev pub price_of : State → Option ℕ → Price
price_of s none = price_invalid
price_of s (some p) = (level_at s p).price

unfoldable pub me_order_to_string : State → MeOrder → Stream
me_order_to_string s o =
    "MEOrder"
    ∷ "["
    ∷ "ticker:"
    ∷ ticker_id_to_string o.ticker_id
    ∷ " "
    ∷ "cid:"
    ∷ client_id_to_string o.client_id
    ∷ " "
    ∷ "oid:"
    ∷ order_id_to_string o.client_order_id
    ∷ " "
    ∷ "moid:"
    ∷ order_id_to_string o.market_order_id
    ∷ " "
    ∷ "side:"
    ∷ side_to_string o.side
    ∷ " "
    ∷ "price:"
    ∷ price_to_string o.price
    ∷ " "
    ∷ "qty:"
    ∷ qty_to_string o.qty
    ∷ " "
    ∷ "prio:"
    ∷ priority_to_string o.priority
    ∷ " "
    ∷ "prev:"
    ∷ order_id_to_string (order_id_of s o.prev_order)
    ∷ " "
    ∷ "next:"
    ∷ order_id_to_string (order_id_of s o.next_order)
    ∷ "]"
    ∷ []

abbrev pub first_to_string : State → Option ℕ → Stream
first_to_string s none = "null" ∷ []
first_to_string s (some p) = me_order_to_string s (order_at s p)

unfoldable pub me_orders_at_price_to_string : State → MeOrdersAtPrice → Stream
me_orders_at_price_to_string s l =
    ("MEOrdersAtPrice["
      ∷ "side:"
      ∷ side_to_string l.side
      ∷ " "
      ∷ "price:"
      ∷ price_to_string l.price
      ∷ " "
      ∷ "first_me_order:"
      ∷ [])
    ++ first_to_string s l.first_me_order
    ++ (" "
        ∷ "prev:"
        ∷ price_to_string (price_of s l.prev_entry)
        ∷ " "
        ∷ "next:"
        ∷ price_to_string (price_of s l.next_entry)
        ∷ "]"
        ∷ [])

-- The loop over the orders of a level that adds their quantities up and counts them. A Qty wraps round.
unfoldable pub total_loop : ℕ → (first : Option ℕ) → ℕ → Qty → ℕ → B (Qty × ℕ)
total_loop zero first o qty num_orders = fail Fault.no_fuel
total_loop (suc fuel) first o qty num_orders = do
  x ← order o
  elim (same_ptr x.next_order first) [
    | true ↦ pure ((qty + x.qty) % 2 ^ 32, num_orders + 1)
    | false ↦ do
      next ← deref x.next_order
      total_loop fuel first next ((qty + x.qty) % 2 ^ 32) (num_orders + 1)
  ]

-- What `sprintf` makes of a field that is at least so wide, on the right and on the left.
str_length : String → ℕ
str_length String.[] = 0
str_length (String.◌∷◌ c s) = suc (str_length s)

spaces : ℕ → String
spaces zero = ""
spaces (suc n) = String.◌∷◌ " " (spaces n)

unfoldable pub pad_left : ℕ → String → String
unfolding str_length spaces
pad_left w s = String.◌++◌ (spaces (w - str_length s)) s

unfoldable pub pad_right : ℕ → String → String
unfolding str_length spaces
pad_right w s = String.◌++◌ s (spaces (w - str_length s))

-- The second loop over the orders; it writes only if details are asked for.
abbrev pub details : Bool → State → MeOrder → Stream
details false s o = []
details true s o =
    "[oid:"
    ∷ order_id_to_string o.market_order_id
    ∷ " q:"
    ∷ qty_to_string o.qty
    ∷ " p:"
    ∷ order_id_to_string (order_id_of s o.prev_order)
    ∷ " n:"
    ∷ order_id_to_string (order_id_of s o.next_order)
    ∷ "] "
    ∷ []

unfoldable pub detail_loop : ℕ → Bool → (first : Option ℕ) → ℕ → B Stream
detail_loop zero detailed first o = fail Fault.no_fuel
detail_loop (suc fuel) detailed first o = do
  x ← order o
  here ← gets (λ (s : State). details detailed s x)
  elim (same_ptr x.next_order first) [
    | true ↦ pure here
    | false ↦ do
      next ← deref x.next_order
      rest ← detail_loop fuel detailed first next
      pure (here ++ rest)
  ]

abbrev pub level_head : (price before after : Price) → Qty → ℕ → Stream
level_head price before after qty num_orders =
    " <px:"
    ∷ pad_left 3 (price_to_string price)
    ∷ " p:"
    ∷ pad_left 3 (price_to_string before)
    ∷ " n:"
    ∷ pad_left 3 (price_to_string after)
    ∷ "> "
    ∷ pad_right 3 (price_to_string price)
    ∷ " @ "
    ∷ pad_right 5 (qty_to_string qty)
    ∷ "("
    ∷ pad_right 4 (to_string num_orders)
    ∷ ")"
    ∷ []

-- The test of the sanity check.
abbrev pub out_of_order : Side → (last price : Price) → Bool
out_of_order side last price =
    (is_sell side && not (ltb_ℤ last price)) || (is_buy side && not (ltb_ℤ price last))

-- `printer`, with the price that it leaves in `last_price`.
unfoldable pub print_level : (detailed sanity_check : Bool) → Side → Price → ℕ → B (Stream × Price)
print_level detailed sanity_check side last_price l = do
  itr ← level l
  orders ← gets (λ (s : State). s.order_pool.store_size + 1)
  first ← deref itr.first_me_order
  (qty, num_orders) ← total_loop orders itr.first_me_order first 0 0
  prev ← deref itr.prev_entry
  before ← level prev
  next ← deref itr.next_entry
  after ← level next
  lines ← detail_loop orders detailed itr.first_me_order first
  (if sanity_check && out_of_order side last_price itr.price then fail Fault.fatal else pure tt)
  pure (
    level_head itr.price before.price after.price qty num_orders ++ lines ++ ("\n" ∷ []),
    if sanity_check then itr.price else last_price,
  )

abbrev pub side_name : Side → String
side_name side = if is_buy side then "BIDS L:" else "ASKS L:"

-- The loop over the levels of a side, from `l` on.
unfoldable pub side_loop :
    ℕ
    → (detailed validity_check : Bool) → Side
    → (best : Option ℕ) → ℕ
    → (count : ℕ) → Price
    → B Stream
side_loop zero detailed validity_check side best l count last_price = fail Fault.no_fuel
side_loop (suc fuel) detailed validity_check side best l count last_price = do
  itr ← level l
  (lines, last) ← print_level detailed validity_check side last_price l
  rest ← elim (same_ptr itr.next_entry best) [
    | true ↦ pure []
    | false ↦ do
      next ← deref itr.next_entry
      side_loop fuel detailed validity_check side best next (count + 1) last
  ]
  pure ((side_name side ∷ to_string count ∷ " => " ∷ []) ++ lines ++ rest)

unfoldable pub side_to_text :
    (detailed validity_check : Bool) → Side → (best : Option ℕ) → Price → B Stream
side_to_text detailed validity_check side none last_price = pure []
side_to_text detailed validity_check side (some l) last_price = do
  levels ← gets (λ (s : State). s.orders_at_price_pool.store_size + 1)
  side_loop levels detailed validity_check side (some l) l 0 last_price

-- The limits of the type of a price.
abbrev pub price_min : Price
price_min = negsuc (2 ^ 63 - 1)

abbrev pub price_max : Price
price_max = pos (2 ^ 63 - 1)

unfoldable pub book_to_string : (detailed validity_check : Bool) → B Stream
book_to_string detailed validity_check = do
  book ← gets (λ (s : State). s.book)
  asks ← side_to_text detailed validity_check Side.sell book.asks_by_price price_min
  bids ← side_to_text detailed validity_check Side.buy book.bids_by_price price_max
  pure (
      ("Ticker:" ∷ ticker_id_to_string book.ticker_id ∷ "\n" ∷ [])
      ++ asks
      ++ ("\n" ∷ "                          X" ∷ "\n" ∷ "\n" ∷ [])
      ++ bids)

-- The destructor prints the book with the check for the log, and clears the pointers.
unfoldable pub destroy : B (Unit {0})
destroy = do
  logged ← book_to_string false true
  modify (λ (s : State). record s {
    book = record s.book {
      bids_by_price = none;
      asks_by_price = none;
      cid_oid_to_order = λ _ _. none;
    };
  })
