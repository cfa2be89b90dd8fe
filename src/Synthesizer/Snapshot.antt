-- ===== src/Synthesizer/Snapshot.antt =====
-- The messages of `publishSnapshot` of exchange/market_data/snapshot_synthesizer.cpp.
use low_latency_trading_engi.Base.{ℕ, zero, suc, ◌+◌, ◌≡◌, refl, none, some, List, [], ◌∷◌}
use low_latency_trading_engi.Types.{TickerId, OrderId}
use low_latency_trading_engi.Messages.{MdpMarketUpdate}
use low_latency_trading_engi.MemPool
use low_latency_trading_engi.Synthesizer.{
  SnapshotSynthesizer, row_messages, ticker_messages, snapshot_messages, numbered,
}

-- Sequence numbers that go up by one from `n` on.
abbrev pub Consecutive : ℕ → List MdpMarketUpdate → Type 0
Consecutive n [] = Unit {0}
Consecutive n (m ∷ ms) = (m.seq_num ≡ n) × Consecutive (n + 1) ms

row_messages-Consecutive :
    (s : SnapshotSynthesizer) (t : TickerId) (left : ℕ) (o : OrderId) (n : ℕ)
    (then_rest : ℕ → List MdpMarketUpdate)
    → ((m : ℕ) → Consecutive m (then_rest m))
    → Consecutive n (row_messages s t left o n then_rest)
unfolding row_messages
row_messages-Consecutive s t zero o n then_rest h = h n
row_messages-Consecutive s t (suc left) o n then_rest h =
    elim (s.ticker_orders t o)
      as (λ x. Consecutive n (elim x [
        | none ↦ row_messages s t left (o + 1) n then_rest
        | some p ↦
            numbered n (MemPool.object_at s.order_pool p)
            ∷ row_messages s t left (o + 1) (n + 1) then_rest
      ])) [
        | none ↦ row_messages-Consecutive s t left (o + 1) n then_rest h
        | some p ↦ (refl, row_messages-Consecutive s t left (o + 1) (n + 1) then_rest h)
      ]

ticker_messages-Consecutive :
    (s : SnapshotSynthesizer) (orders left : ℕ) (t : TickerId) (n : ℕ)
    → Consecutive n (ticker_messages s orders left t n)
unfolding ticker_messages
ticker_messages-Consecutive s orders zero t n = (refl, tt)
ticker_messages-Consecutive s orders (suc left) t n = (
  refl,
  row_messages-Consecutive s t orders 0 (n + 1) (λ m. ticker_messages s orders left (t + 1) m)
      (λ m. ticker_messages-Consecutive s orders left (t + 1) m),
)

-- The messages of a snapshot are numbered one after another from 0 on, whatever the table holds.
pub snapshot_messages-Consecutive :
    (s : SnapshotSynthesizer) (tickers orders : ℕ)
    → Consecutive 0 (snapshot_messages s tickers orders)
unfolding snapshot_messages
snapshot_messages-Consecutive s tickers orders =
    (refl, ticker_messages-Consecutive s orders tickers 0 1)
