-- ===== src/Engine.antt =====
-- `MatchingEngine` of exchange/matcher/matching_engine.h and exchange/matcher/matching_engine.cpp:
-- one order book for each ticker, fed from the queue of client requests. A run of the engine's thread
-- is a sequence of rounds of its loop.
pub mod Rounds
pub mod Tests
use low_latency_trading_engi.Base.{
  ℕ, Bool, true, false, Option, none, some, Fault, Result, ok, err, bind_result, M, ◌>>=◌, ◌>>◌,
  pure, fail, gets, modify, assert, ltb, ◌==◌, if◌then◌else◌, update,
}
use low_latency_trading_engi.Types.{ClientId, OrderId, TickerId, me_max_tickers}
use low_latency_trading_engi.LfQueue
use low_latency_trading_engi.LfQueue.{LfQueue}
use low_latency_trading_engi.Messages.{
  ClientRequestType, MeClientRequest, MeClientResponse, MeMarketUpdate,
}
use low_latency_trading_engi.Book
use low_latency_trading_engi.Book.{MeOrderBook, State, B}
use low_latency_trading_engi.Book.Matching.{Incoming, add, cancel}

pub record MatchingEngine : Type 0 where
  pub ticker_order_book : TickerId → MeOrderBook
  pub incoming_requests : LfQueue MeClientRequest
  pub outgoing_ogw_responses : LfQueue MeClientResponse
  pub outgoing_md_updates : LfQueue MeMarketUpdate
  pub running : Bool

-- The constructor makes a book for each ticker, in memory that holds what it held before.
unfoldable pub make :
    (TickerId → ClientId → OrderId → Option ℕ)
    → (TickerId → ℕ → Option ℕ)
    → LfQueue MeClientRequest
    → LfQueue MeClientResponse
    → LfQueue MeMarketUpdate
    → MatchingEngine
make order_memory level_memory requests responses updates = record {
  ticker_order_book = λ i. Book.make (order_memory i) (level_memory i) i;
  incoming_requests = requests;
  outgoing_ogw_responses = responses;
  outgoing_md_updates = updates;
  running = false;
}

-- `start` has a thread made as well, and asserts that this worked.
unfoldable pub start : (thread_made : Bool) → M MatchingEngine (Unit {0})
start thread_made = do
  modify (λ (e : MatchingEngine). record e { running = true })
  assert thread_made

unfoldable pub stop : MatchingEngine → MatchingEngine
stop e = record e { running = false }

-- The part of the engine that a member function of a book works on.
abbrev pub view : MatchingEngine → TickerId → State
view e t = record {
  book = e.ticker_order_book t;
  outgoing_ogw_responses = e.outgoing_ogw_responses;
  outgoing_md_updates = e.outgoing_md_updates;
}

abbrev pub put_back : MatchingEngine → TickerId → State → MatchingEngine
put_back e t s = record e {
  ticker_order_book = update e.ticker_order_book t s.book;
  outgoing_ogw_responses = s.outgoing_ogw_responses;
  outgoing_md_updates = s.outgoing_md_updates;
}

-- `ticker_order_book_[ticker_id]->…`: the subscript is not checked.
unfoldable pub on_book : TickerId → B (Unit {0}) → M MatchingEngine (Unit {0})
on_book t m e =
    if ltb t me_max_tickers
    then bind_result (m (view e t)) (λ r. ok (tt, put_back e t r.1))
    else err Fault.bad_index

abbrev pub incoming : MeClientRequest → Incoming
incoming r = record {
  client_id = r.client_id;
  client_order_id = r.order_id;
  ticker_id = r.ticker_id;
  side = r.side;
  price = r.price;
  qty = r.qty;
}

abbrev pub book_call : ClientRequestType → MeClientRequest → B (Unit {0})
book_call ClientRequestType.new r = add (incoming r)
book_call ClientRequestType.cancel r = cancel r.client_id r.order_id r.ticker_id
book_call ClientRequestType.invalid r = fail Fault.fatal

unfoldable pub process_client_request : MeClientRequest → M MatchingEngine (Unit {0})
process_client_request r = on_book r.ticker_id (book_call r.kind r)

-- One round of the loop of `run`.
unfoldable pub run_round : M MatchingEngine (Unit {0})
run_round e = elim (LfQueue.get_next_to_read e.incoming_requests) [
  | none ↦ ok (tt, e)
  | some i ↦ bind_result (process_client_request (e.incoming_requests.store i) e) (λ r.
      bind_result (LfQueue.update_read_index r.1.incoming_requests)
        (λ q. ok (tt, record r.1 { incoming_requests = q })))
]

-- The loop, for a given number of rounds: it ends when `run_` is false.
unfoldable pub run : ℕ → M MatchingEngine (Unit {0})
run ℕ.zero e = ok (tt, e)
run (ℕ.suc rounds) e = elim e.running [
  | true ↦ bind_result (run_round e) (λ r. run rounds r.1)
  | false ↦ ok (tt, e)
]
