-- ===== src/Consumer/InOrder.antt =====
-- The incremental stream while nothing is lost, of trading/market_data/market_data_consumer.cpp.
use low_latency_trading_engi.Base.{
  ℕ, suc, ◌+◌, ◌^◌, ◌<◌, ◌≡◌, ap, ◌∙◌, ◌≢◌, true, false, Bool, List, [], ◌∷◌, ok, err, Fault, arith,
  if◌then◌else◌, length, bind_result,
}
use low_latency_trading_engi.LfQueue.{write, write_all}
use low_latency_trading_engi.Types.{next64}
use low_latency_trading_engi.Messages.{MeMarketUpdate, MdpMarketUpdate}
use low_latency_trading_engi.Consumer.{
  MarketDataConsumer, handle_message, handle_all, start_snapshot_sync, queue_message, assign,
  check_snapshot_sync, check_map,
}

-- The incremental messages of a series of updates, numbered from `n` on.
abbrev pub stream : ℕ → List MeMarketUpdate → List (Bool × MdpMarketUpdate)
stream n [] = []
stream n (u ∷ us) = (false, record { seq_num = n; me_market_update = u }) ∷ stream (n + 1) us

expected_next :
    (joins : Bool) (u : MeMarketUpdate) (n : ℕ) (c : MarketDataConsumer)
    → c.in_recovery ≡ false
    → c.next_exp_inc_seq_num ≡ n
    → handle_message joins false (record { seq_num = n; me_market_update = u }) c
      ≡ ok (
        tt,
        record c {
          next_exp_inc_seq_num = next64 c.next_exp_inc_seq_num;
          incoming_md_updates = write c.incoming_md_updates u;
        },
      )
unfolding handle_message
expected_next joins u n c calm e = ground arith

-- While the incremental messages come numbered one after another from the expected number on, every
-- update is passed on once, in order, and the expected number moves behind them.
pub handle_all-stream :
    (joins : Bool) (us : List MeMarketUpdate) (n : ℕ) (c : MarketDataConsumer)
    → c.in_recovery ≡ false
    → c.next_exp_inc_seq_num ≡ n
    → n + length us < 2 ^ 64
    → handle_all joins (stream n us) c
      ≡ ok (
        tt,
        record c {
          next_exp_inc_seq_num = n + length us;
          incoming_md_updates = write_all c.incoming_md_updates us;
        },
      )
unfolding handle_all write_all
handle_all-stream joins [] n c calm e b =
    let same : c.next_exp_inc_seq_num ≡ n + 0 = omega arith in
    ap (λ k. ok (tt, record c { next_exp_inc_seq_num = k })) same
handle_all-stream joins (u ∷ us) n c calm e b =
    let c' : MarketDataConsumer = record c {
      next_exp_inc_seq_num = next64 c.next_exp_inc_seq_num;
      incoming_md_updates = write c.incoming_md_updates u;
    } in
    let count : n + 1 + length us ≡ n + suc (length us) = omega arith in
    ap (λ r. bind_result r (λ x. handle_all joins (stream (n + 1) us) x.1))
      (expected_next joins u n c calm e)
    ∙ handle_all-stream joins us (n + 1) c' calm (omega arith) (omega arith)
    ∙ ap
        (λ k. ok (
          tt,
          record c {
            next_exp_inc_seq_num = k;
            incoming_md_updates = write_all (write c.incoming_md_updates u) us;
          },
        ))
        count

-- The first message with another number starts a recovery, and is queued and not passed on; where the
-- snapshot stream cannot be joined the process ends instead.
pub handle_message-gap :
    (joins : Bool) (m : MdpMarketUpdate) (c : MarketDataConsumer)
    → c.in_recovery ≡ false
    → m.seq_num ≢ c.next_exp_inc_seq_num
    → handle_message joins false m c ≡ (
        if joins
        then ok (
          tt,
          record c {
            in_recovery = true;
            snapshot_queued_msgs = [];
            incremental_queued_msgs = (m.seq_num, m.me_market_update) ∷ [];
            snapshot_joined = true;
          },
        )
        else err Fault.assert_failed)
unfolding handle_message start_snapshot_sync queue_message assign check_snapshot_sync check_map
handle_message-gap true m c calm ne = ground arith
handle_message-gap false m c calm ne = ground arith
