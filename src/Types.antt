-- ===== src/Types.antt =====
-- common/types.h: the limits, the identifiers with their invalid values, and the side of an order.
-- An unsigned integer is a number that its users keep below its modulus; a price is a signed integer.
pub mod Text
use low_latency_trading_engi.Base.{ℕ, ◌+◌, ◌-◌, ◌*◌, ◌%◌, ◌^◌, Bool, true, false, ℤ, pos}

abbrev pub me_max_tickers : ℕ
me_max_tickers = 8

abbrev pub me_max_client_updates : ℕ
me_max_client_updates = 256 * 1024

abbrev pub me_max_market_updates : ℕ
me_max_market_updates = 256 * 1024

abbrev pub me_max_num_clients : ℕ
me_max_num_clients = 256

abbrev pub me_max_order_ids : ℕ
me_max_order_ids = 1024 * 1024

abbrev pub me_max_price_levels : ℕ
me_max_price_levels = 256

abbrev pub OrderId : Type 0
OrderId = ℕ

abbrev pub order_id_invalid : OrderId
order_id_invalid = 2 ^ 64 - 1

abbrev pub TickerId : Type 0
TickerId = ℕ

abbrev pub ticker_id_invalid : TickerId
ticker_id_invalid = 2 ^ 32 - 1

abbrev pub ClientId : Type 0
ClientId = ℕ

abbrev pub client_id_invalid : ClientId
client_id_invalid = 2 ^ 32 - 1

abbrev pub Price : Type 0
Price = ℤ

abbrev pub price_invalid : Price
price_invalid = pos (2 ^ 63 - 1)

abbrev pub Qty : Type 0
Qty = ℕ

abbrev pub qty_invalid : Qty
qty_invalid = 2 ^ 32 - 1

abbrev pub Priority : Type 0
Priority = ℕ

abbrev pub priority_invalid : Priority
priority_invalid = 2 ^ 64 - 1

pub data Side : Type 0 where
  invalid buy sell : Side

abbrev pub is_buy : Side → Bool
is_buy Side.buy = true
is_buy Side.invalid = false
is_buy Side.sell = false

abbrev pub is_sell : Side → Bool
is_sell Side.sell = true
is_sell Side.invalid = false
is_sell Side.buy = false

abbrev pub same_side : Side → Side → Bool
same_side Side.invalid Side.invalid = true
same_side Side.buy Side.buy = true
same_side Side.sell Side.sell = true
same_side _ _ = false

-- `a - b` on uint32_t.
abbrev pub sub32 : ℕ → ℕ → ℕ
sub32 a b = (a + 2 ^ 32 - b) % 2 ^ 32

-- `a + 1` on uint64_t.
abbrev pub next64 : ℕ → ℕ
next64 a = (a + 1) % 2 ^ 64
