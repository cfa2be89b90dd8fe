-- ===== src/Book/Totals.antt =====
-- What the fills of `checkForMatch` of exchange/matcher/me_order_book.cpp add up to.
use low_latency_trading_engi.Base.{
  ℕ, ◌+◌, ◌≤◌, ◌≡◌, refl, List, [], ◌∷◌, arith, ◌==◌, inl, inr, Bool-cases, min,
}
use low_latency_trading_engi.Types.{OrderId, TickerId, Qty, sub32}
use low_latency_trading_engi.Messages.{
  ClientResponseType, MeClientResponse, MarketUpdateType, MeMarketUpdate,
}
use low_latency_trading_engi.Book.{MeOrder, State, order_at}
use low_latency_trading_engi.Book.Matching.{Incoming}
use low_latency_trading_engi.Book.Reports.{remainder}
use low_latency_trading_engi.Book.FillOrder.{Fills, done, fill, smaller}

abbrev trade_qty : MarketUpdateType → Qty → Qty
trade_qty MarketUpdateType.trade n = n
trade_qty _ n = 0

-- The sum of the quantities of the trades among updates.
abbrev pub traded : List MeMarketUpdate → ℕ
traded [] = 0
traded (u ∷ us) = trade_qty u.kind u.qty + traded us

abbrev fill_qty : ClientResponseType → Qty → Qty
fill_qty ClientResponseType.filled n = n
fill_qty _ n = 0

-- The sum of the executed quantities of the fills among responses.
abbrev pub executed : List MeClientResponse → ℕ
executed [] = 0
executed (r ∷ rs) = fill_qty r.kind r.exec_qty + executed rs

min-le : (m n : ℕ) → min m n ≤ n
min-le m n = ground arith

-- The last message of a fill is no trade.
traded-remainder :
    (ticker : TickerId) (o : MeOrder) (left : Qty) (us : List MeMarketUpdate)
    → traded (remainder ticker o left ∷ us) ≡ traded us
traded-remainder ticker o left us = elim (Bool-cases (left == 0)) [
  | inl z ↦ rw z (omega arith)
  | inr z ↦ rw z (omega arith)
]

module _ (i : Incoming) (id : OrderId) where
  pub traded-Fills :
      {left leaves : Qty} {s s' : State} {rs : List MeClientResponse} {us : List MeMarketUpdate}
      → Fills i id left s leaves rs us s'
      → traded us + left ≡ leaves
  traded-Fills done = omega arith
  traded-Fills {left} (fill p q {s} {t} {s'} {leaves} {rs} {us} next near more run fs) =
      let rest = traded-Fills fs in
      let n = smaller s q leaves in
      let tail = traded-remainder i.ticker_id (order_at s q) (sub32 (order_at s q).qty n) us in
      let le = min-le (order_at s q).qty leaves in omega (arith, rest, tail, le)

  pub executed-Fills :
      {left leaves : Qty} {s s' : State} {rs : List MeClientResponse} {us : List MeMarketUpdate}
      → Fills i id left s leaves rs us s'
      → executed rs ≡ traded us + traded us
  executed-Fills done = refl
  executed-Fills {left} (fill p q {s} {t} {s'} {leaves} {rs} {us} next near more run fs) =
      let rest = executed-Fills fs in
      let n = smaller s q leaves in
      let tail = traded-remainder i.ticker_id (order_at s q) (sub32 (order_at s q).qty n) us in
      omega (arith, rest, tail)
