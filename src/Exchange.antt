-- ===== src/Exchange.antt =====
-- The exchange of exchange/exchange_main.cpp as a whole: its parts work on three queues that they
-- share, each in a thread of its own. A part keeps a pointer to a queue; here it is lent the queue for
-- the time of one round, so that a round of one part sees what the others have written.
pub mod Serving
pub mod Relaying
pub mod Main
pub mod Start
mod Tests
use low_latency_trading_engi.Base.{ℕ, ◌+◌, List, [], ok, bind_result, M, ◌>>=◌, ◌>>◌, pure}
use low_latency_trading_engi.LfQueue.{LfQueue, size}
use low_latency_trading_engi.Messages.{
  MeClientRequest, MeClientResponse, MeMarketUpdate, OmClientRequest,
}
use low_latency_trading_engi.Sequencer.{Nanos, RecvTimeClientRequest}
use low_latency_trading_engi.Engine
use low_latency_trading_engi.Engine.{MatchingEngine}
use low_latency_trading_engi.Server
use low_latency_trading_engi.Server.{OrderServer}
use low_latency_trading_engi.Publisher
use low_latency_trading_engi.Publisher.{MarketDataPublisher}
use low_latency_trading_engi.Synthesizer.Thread
use low_latency_trading_engi.Synthesizer.Thread.{SnapshotThread}

pub record Exchange : Type 0 where
  pub client_requests : LfQueue MeClientRequest
  pub client_responses : LfQueue MeClientResponse
  pub market_updates : LfQueue MeMarketUpdate
  pub matching_engine : MatchingEngine
  pub market_data_publisher : MarketDataPublisher
  pub order_server : OrderServer
  -- made and kept by the publisher
  pub snapshot_thread : SnapshotThread

-- A part with the queues that its pointers lead to.
abbrev pub engine_of : Exchange → MatchingEngine
engine_of x = record x.matching_engine {
  incoming_requests = x.client_requests;
  outgoing_ogw_responses = x.client_responses;
  outgoing_md_updates = x.market_updates;
}

abbrev pub server_of : Exchange → OrderServer
server_of x = record x.order_server {
  outgoing_responses = x.client_responses;
  fifo_sequencer = record x.order_server.fifo_sequencer { incoming_requests = x.client_requests };
}

abbrev pub publisher_of : Exchange → MarketDataPublisher
publisher_of x = record x.market_data_publisher { outgoing_md_updates = x.market_updates }

abbrev pub synthesizer_of : Exchange → SnapshotThread
synthesizer_of x = record x.snapshot_thread { queued = x.market_data_publisher.snapshot_md_updates }

abbrev pub put_engine : Exchange → MatchingEngine → Exchange
put_engine x e = record x {
  matching_engine = e;
  client_requests = e.incoming_requests;
  client_responses = e.outgoing_ogw_responses;
  market_updates = e.outgoing_md_updates;
}

abbrev pub put_server : Exchange → OrderServer → Exchange
put_server x s = record x {
  order_server = s;
  client_responses = s.outgoing_responses;
  client_requests = s.fifo_sequencer.incoming_requests;
}

abbrev pub put_publisher : Exchange → MarketDataPublisher → Exchange
put_publisher x p = record x { market_data_publisher = p; market_updates = p.outgoing_md_updates }

abbrev pub put_synthesizer : Exchange → SnapshotThread → Exchange
put_synthesizer x t = record x {
  snapshot_thread = t;
  market_data_publisher = record x.market_data_publisher { snapshot_md_updates = t.queued };
}

abbrev pub on_engine : {A : Type 0} → M MatchingEngine A → M Exchange A
on_engine m x = bind_result (m (engine_of x)) (λ r. ok (r.0, put_engine x r.1))

abbrev pub on_server : {A : Type 0} → M OrderServer A → M Exchange A
on_server m x = bind_result (m (server_of x)) (λ r. ok (r.0, put_server x r.1))

abbrev pub on_publisher : {A : Type 0} → M MarketDataPublisher A → M Exchange A
on_publisher m x = bind_result (m (publisher_of x)) (λ r. ok (r.0, put_publisher x r.1))

abbrev pub on_synthesizer : {A : Type 0} → M SnapshotThread A → M Exchange A
on_synthesizer m x = bind_result (m (synthesizer_of x)) (λ r. ok (r.0, put_synthesizer x r.1))

-- The threads' loops, one round each.
unfoldable pub engine_round : M Exchange (Unit {0})
engine_round = on_engine Engine.run_round

unfoldable pub publisher_round :
    (encode : MeMarketUpdate → List ℕ) (encode_size : ℕ → List ℕ) → M Exchange (List ℕ)
publisher_round encode encode_size = on_publisher (Publisher.run_round encode encode_size)

unfoldable pub synthesizer_round : (now later : Nanos) → M Exchange (Unit {0})
synthesizer_round now later = on_synthesizer (Thread.run_round now later)

module _ (decode : List ℕ → OmClientRequest)
    (sort : List RecvTimeClientRequest → List RecvTimeClientRequest) where
  -- What the order server does with the bytes that one socket has read: `recvCallback`, and once all
  -- sockets are done `recvFinishedCallback`. The result is what is left of the bytes.
  unfoldable pub receive_round : (socket : ℕ) → Nanos → List ℕ → M Exchange (List ℕ)
  receive_round socket rx_time bytes = on_server (do
    rest ← Server.recv_callback decode socket rx_time bytes
    (λ (s : OrderServer). ok (rest, Server.recv_finished_callback sort s)))

-- The loop over the responses that are there.
unfoldable pub response_round : M Exchange (Unit {0})
response_round =
    on_server (λ (s : OrderServer). Server.send_responses (size s.outgoing_responses + 1) s)

-- `signal_handler`: what deleting the parts does to their marks. Then the process ends.
unfoldable pub signal_handler : Exchange → Exchange
signal_handler x = record x {
  matching_engine = Engine.stop x.matching_engine;
  market_data_publisher = Publisher.stop x.market_data_publisher;
  order_server = Server.stop x.order_server;
  snapshot_thread = Thread.stop x.snapshot_thread;
}
