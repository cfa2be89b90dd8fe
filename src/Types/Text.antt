-- ===== src/Types/Text.antt =====
-- The functions of common/types.h that print an identifier, a price or a side. `std::to_string` is
-- the decimal print of a number.
use Prim.Native.Char.{Char}
use Prim.Native.String.{String}
use low_latency_trading_engi.Base.{
  ℕ, zero, suc, ◌+◌, ◌/◌, ◌%◌, ◌==◌, if◌then◌else◌, ℤ, pos, negsuc, eqb_ℤ,
}
use low_latency_trading_engi.Types.{
  OrderId, order_id_invalid, TickerId, ticker_id_invalid, ClientId, client_id_invalid, Price,
  price_invalid, Qty, qty_invalid, Priority, priority_invalid, Side,
}

digit : ℕ → Char
digit d =
    if d == 0
    then "0"
    else if d == 1
    then "1"
    else if d == 2
    then "2"
    else if d == 3
    then "3"
    else if d == 4
    then "4"
    else if d == 5
    then "5"
    else if d == 6
    then "6"
    else if d == 7
    then "7"
    else if d == 8
    then "8"
    else "9"

-- The digits of a number below 10 ^ fuel, before `rest`.
digits : ℕ → ℕ → String → String
unfolding digit
digits zero n rest = rest
digits (suc fuel) n rest =
    let out = String.◌∷◌ (digit (n % 10)) rest in
    let more = digits fuel (n / 10) out in if n / 10 == 0 then out else more

-- Twenty digits hold every uint64_t.
unfoldable pub to_string : ℕ → String
unfolding digits
to_string n = digits 20 n ""

unfoldable pub order_id_to_string : OrderId → String
unfolding to_string
order_id_to_string order_id = if order_id == order_id_invalid then "INVALID" else to_string order_id

unfoldable pub ticker_id_to_string : TickerId → String
unfolding to_string
ticker_id_to_string ticker_id =
    if ticker_id == ticker_id_invalid then "INVALID" else to_string ticker_id

unfoldable pub client_id_to_string : ClientId → String
unfolding to_string
client_id_to_string client_id =
    if client_id == client_id_invalid then "INVALID" else to_string client_id

-- std::to_string of an int64_t.
unfoldable pub signed_to_string : ℤ → String
unfolding to_string
signed_to_string (pos n) = to_string n
signed_to_string (negsuc n) = String.◌∷◌ "-" (to_string (n + 1))

-- The test `price = Price_INVALID` is an assignment: its value is the assigned price, which is not
-- zero, and from there on the parameter holds it.
unfoldable pub price_to_string : Price → String
unfolding signed_to_string
price_to_string price =
    let assigned = price_invalid in
    if eqb_ℤ assigned (pos 0) then signed_to_string assigned else "INVALID"

unfoldable pub qty_to_string : Qty → String
unfolding to_string
qty_to_string qty = if qty == qty_invalid then "INVALID" else to_string qty

unfoldable pub priority_to_string : Priority → String
unfolding to_string
priority_to_string priority = if priority == priority_invalid then "INVALID" else to_string priority

unfoldable pub side_to_string : Side → String
side_to_string Side.buy = "BUY"
side_to_string Side.sell = "SELL"
side_to_string Side.invalid = "INVALID"
