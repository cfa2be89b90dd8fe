-- ===== src/Book/Ladder.antt =====
-- One side of a book of exchange/matcher/me_order_book.h as a whole: the circle of its price levels,
-- best first, with the queue of orders at each of them.
pub mod Frame
pub mod Head
pub mod Empty
pub mod Requantified
pub mod Sweep
pub mod Splice
pub mod Walk
pub mod Writes
pub mod Insert
pub mod Open
pub mod BetterAsk
pub mod Stopping
pub mod Rest
mod Tests
pub mod Match
use low_latency_trading_engi.Base.{
  ℕ, ◌+◌, ◌<◌, ◌≡◌, Bool, true, false, not, Option, none, some, List, [], ◌∷◌, All, length, map,
}
use low_latency_trading_engi.Types.{Side, is_buy}
use low_latency_trading_engi.Ring.{IsRing}
use low_latency_trading_engi.Book.{State, order_at, level_at, best_of, price_to_index}
use low_latency_trading_engi.Book.Queue.{IsQueue}
use low_latency_trading_engi.Book.Removal.{IsResting}

-- A price level with its first order and the orders behind that.
pub record Level : Type 0 where
  pub at : ℕ
  pub head : ℕ
  pub behind : List ℕ

abbrev pub next_level : State → ℕ → Option ℕ
next_level s l = (level_at s l).next_entry

abbrev pub prev_level : State → ℕ → Option ℕ
prev_level s l = (level_at s l).prev_entry

abbrev pub IsOrderOf : State → Side → ℕ → ℕ → Type 0
IsOrderOf s sd l q = IsResting s l q × ((order_at s q).side ≡ sd)

-- The level is in use and heads the queue of its orders, which all rest there.
pub record IsLevel (s : State) (sd : Side) (l : Level) : Type 0 where
  pub queue : IsQueue s l.at l.head l.behind
  pub orders : All (IsOrderOf s sd l.at) (l.head ∷ l.behind)
  pub inside : l.at < s.orders_at_price_pool.store_size
  pub used : (s.orders_at_price_pool.store l.at).is_free ≡ false

abbrev pub places : List Level → List ℕ
places [] = []
places (l ∷ ls) = l.at ∷ places ls

-- The entry point of a side, and the circle of its levels.
abbrev pub IsLinked : State → Side → List Level → Type 0
IsLinked s sd [] = best_of s sd ≡ none
IsLinked s sd (l ∷ ls) =
    (best_of s sd ≡ some l.at) × IsRing (next_level s) (prev_level s) l.at (places ls)

pub record IsBookSide (s : State) (sd : Side) (ls : List Level) : Type 0 where
  pub linked : IsLinked s sd ls
  pub levels : All (IsLevel s sd) ls

-- How many orders rest on a side.
abbrev pub count : List Level → ℕ
count [] = 0
count (l ∷ ls) = (length l.behind + 1) + count ls
