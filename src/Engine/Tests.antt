-- ===== src/Engine/Tests.antt =====
-- An engine whose books all hold the same two bids, for the theorems on
-- exchange/matcher/matching_engine.h.
use low_latency_trading_engi.Base.{ℕ, false, true, pos, ◌≡◌, refl, update, [], ◌∷◌, ok, arith}
use low_latency_trading_engi.Types.{Side, TickerId}
use low_latency_trading_engi.Messages.{ClientRequestType, MeClientRequest, default_request}
use low_latency_trading_engi.Book.Tests.{two_bids, responses, updates}
use low_latency_trading_engi.Book.{send_client_response}
use low_latency_trading_engi.Book.Matching.{cancel, find_client_order}
use low_latency_trading_engi.Book.Reports.{rejection}
use low_latency_trading_engi.LfQueue.{LfQueue, write}
use low_latency_trading_engi.LfQueue.Fifo.{IsValid, contents}
use low_latency_trading_engi.Engine.{MatchingEngine, on_book, process_client_request, run}
use low_latency_trading_engi.Engine.Rounds.{process_all, with_queue, run-processes}

abbrev pub unknown_cancel : MeClientRequest
unknown_cancel = record {
  kind = ClientRequestType.cancel;
  client_id = 1;
  ticker_id = 3;
  order_id = 9;
  side = Side.buy;
  price = pos 100;
  qty = 10;
}

abbrev pub engine : MatchingEngine
engine = record {
  ticker_order_book = λ i. two_bids;
  incoming_requests = record {
    store = λ _. default_request;
    store_size = 8;
    next_write_index = 0;
    next_read_index = 0;
    num_elements = 0;
  };
  outgoing_ogw_responses = responses;
  outgoing_md_updates = updates;
  running = false;
}

-- Two requests wait: to cancel orders that the books of tickers 3 and 5 do not know.
abbrev other_cancel : MeClientRequest
other_cancel = record unknown_cancel { ticker_id = 5; order_id = 8 }

abbrev loaded : MatchingEngine
loaded = record engine {
  running = true;
  incoming_requests = record {
    store = update (λ _. default_request) 7 unknown_cancel;
    store_size = 8;
    next_write_index = 1;
    next_read_index = 7;
    num_elements = 1;
  };
}

abbrev both : MatchingEngine
both = record loaded {
  incoming_requests = record loaded.incoming_requests {
    store = update loaded.incoming_requests.store 0 other_cancel;
    num_elements = 2;
  };
}

-- The books are as they were.
abbrev answered : MatchingEngine → TickerId → ℕ → MatchingEngine
answered e t o = record e {
  ticker_order_book = update e.ticker_order_book t (e.ticker_order_book t);
  outgoing_ogw_responses = write e.outgoing_ogw_responses (rejection 1 o t);
}

both_processed :
    process_all (unknown_cancel ∷ other_cancel ∷ []) both
    ≡ ok (tt, answered (answered both 3 9) 5 8)
unfolding process_client_request on_book cancel find_client_order send_client_response
both_processed = refl

both-IsValid : IsValid both.incoming_requests
both-IsValid = record {
  nonempty_store = omega arith;
  store_bound = omega arith;
  read_in = omega arith;
  count_in = omega arith;
  write_at = refl;
}

run_processes_example :
    (q : LfQueue MeClientRequest) × (run 3 both
      ≡ ok (tt, with_queue (answered (answered both 3 9) 5 8) q))
    × (contents q ≡ [])
    × IsValid q
run_processes_example =
    run-processes (unknown_cancel ∷ other_cancel ∷ []) both (answered (answered both 3 9) 5 8) 3
      both-IsValid refl refl (omega arith) both_processed
