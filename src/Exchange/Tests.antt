-- ===== src/Exchange/Tests.antt =====
-- An exchange in which client 1 cancels an order that no book has, for the theorems on
-- exchange/exchange_main.cpp.
use low_latency_trading_engi.Base.{
  ℕ, zero, suc, ◌≡◌, refl, ◌*◌, ◌^◌, true, false, none, List, [], ◌∷◌, Fault, ok, err, inl, inr,
  pos, arith,
}
use low_latency_trading_engi.LfQueue.{LfQueue, write, write_all}
use low_latency_trading_engi.LfQueue.Fifo.{IsValid, contents}
use low_latency_trading_engi.Messages.{
  MeClientResponse, OmClientRequest, default_request, MeMarketUpdate, MdpMarketUpdate,
  default_update, MarketUpdateType,
}
use low_latency_trading_engi.Book.{State}
use low_latency_trading_engi.Book.Tests.{two_bids, responses, updates}
use low_latency_trading_engi.Book.Matching.{cancel_rejected}
use low_latency_trading_engi.Book.Cancel.{cancel_rejects}
use low_latency_trading_engi.Engine.{view}
use low_latency_trading_engi.Engine.Tests.{engine, unknown_cancel}
use low_latency_trading_engi.Sequencer.{RecvTimeClientRequest}
use low_latency_trading_engi.Server.Tests.{server}
use low_latency_trading_engi.Synthesizer.Thread.{SnapshotThread, add_all, is_due}
use low_latency_trading_engi.Sockets.Tests.{succeeding}
use low_latency_trading_engi.Exchange.{Exchange, engine_of, publisher_round, synthesizer_round}
use low_latency_trading_engi.Exchange.Main.{Machine, Memory, main}
use low_latency_trading_engi.Synthesizer
use low_latency_trading_engi.Synthesizer.{SnapshotSynthesizer, publish_snapshot}
use low_latency_trading_engi.Publisher.Stream.{numbered_from}
use low_latency_trading_engi.Publisher.{MarketDataPublisher}
use low_latency_trading_engi.Exchange.Relaying.{relayed}
use low_latency_trading_engi.Exchange.Start.{main-fails}
use low_latency_trading_engi.Exchange.Serving.{served, served-answers}

abbrev no_updates : LfQueue MdpMarketUpdate
no_updates = record {
  store = λ _. record { seq_num = 0; me_market_update = default_update };
  store_size = 8;
  next_write_index = 0;
  next_read_index = 0;
  num_elements = 0;
}

abbrev publisher : MarketDataPublisher
publisher = record {
  next_inc_seq_num = 1;
  outgoing_md_updates = updates;
  snapshot_md_updates = no_updates;
  running = false;
  outbound = [];
}

abbrev synthesizer : SnapshotSynthesizer
synthesizer = record Synthesizer.make { last_inc_seq_num = 0 }

abbrev thread : SnapshotThread
thread = record {
  synthesizer = synthesizer;
  queued = no_updates;
  running = false;
  last_snapshot_time = pos 0;
  multicast = [];
}

abbrev exchange : Exchange
exchange = record {
  client_requests = engine.incoming_requests;
  client_responses = responses;
  market_updates = updates;
  matching_engine = engine;
  market_data_publisher = publisher;
  order_server = server;
  snapshot_thread = thread;
}

abbrev decode : List ℕ → OmClientRequest
decode bytes = record { seq_num = 1; me_client_request = unknown_cancel }

-- Sorting as far as one request needs it.
abbrev same_order : List RecvTimeClientRequest → List RecvTimeClientRequest
same_order l = l

abbrev zeros : ℕ → List ℕ
zeros zero = []
zeros (suc n) = 0 ∷ zeros n

abbrev rejected : List MeClientResponse
rejected = cancel_rejected 1 9 3 ∷ []

abbrev after_cancel : State
after_cancel = record (view (engine_of exchange) 3) {
  outgoing_ogw_responses = write responses (cancel_rejected 1 9 3);
}

written_once : write responses (cancel_rejected 1 9 3) ≡ write_all responses rejected
unfolding write_all
written_once = refl

requests-IsValid : IsValid engine.incoming_requests
requests-IsValid = record {
  nonempty_store = omega arith;
  store_bound = omega arith;
  read_in = omega arith;
  count_in = omega arith;
  write_at = refl;
}

responses-IsValid : IsValid responses
responses-IsValid = record {
  nonempty_store = omega arith;
  store_bound = omega arith;
  read_in = omega arith;
  count_in = omega arith;
  write_at = refl;
}

served_example :
    (x' : Exchange) × (served decode same_order 9 (pos 5) (zeros 38) exchange ≡ ok (tt, x'))
    × (x'.order_server.sent
        ≡ (9, record { seq_num = 1; me_client_response = cancel_rejected 1 9 3 }) ∷ [])
    × (x'.matching_engine.ticker_order_book 3 ≡ two_bids)
    × (x'.market_updates ≡ updates)
    × (contents x'.client_requests ≡ [])
    × (contents x'.client_responses ≡ [])
served_example =
    served-answers decode same_order (λ y. refl) exchange 9 (pos 5) (zeros 38) after_cancel rejected
      (λ _. 9) refl
      (record { client = omega arith; own = inl refl; expected = refl; none_pending = refl })
      requests-IsValid refl responses-IsValid refl refl
      (cancel_rejects (view (engine_of exchange) 3) 1 9 3 (inr (refl, refl))) written_once
      (omega arith) refl ((omega arith, inl refl), tt)

abbrev machine : Machine
machine = record {
  main_log = (true, true);
  engine_log = (true, true);
  publisher_log = (true, true);
  synthesizer_log = (true, true);
  server_log = (true, true);
  engine_thread = true;
  publisher_thread = true;
  server_thread = true;
  epoll_made = true;
  listener_watched = true;
}

abbrev memory : Memory
memory = record {
  order_memory = λ _ _ _. none;
  level_memory = λ _ _. none;
  pending_memory = λ _. record { recv_time = pos 0; request = default_request };
}

main_fails_example : main succeeding machine memory 0 ≡ err Fault.assert_failed
main_fails_example =
    main-fails succeeding machine memory 0 (λ fd rp v. refl) (λ host port v. (7, [], refl))

-- One trade waits for the publisher.
abbrev one_trade : MeMarketUpdate
one_trade = record default_update { kind = MarketUpdateType.trade; ticker_id = 3 }

abbrev write_one : LfQueue MeMarketUpdate
write_one = record updates { store = λ _. one_trade; next_write_index = 1; num_elements = 1 }

abbrev trading : Exchange
trading = record exchange { market_updates = write_one }

trade-IsValid : IsValid write_one
trade-IsValid = record {
  nonempty_store = omega arith;
  store_bound = omega arith;
  read_in = omega arith;
  count_in = omega arith;
  write_at = refl;
}

no_updates-IsValid : IsValid no_updates
no_updates-IsValid = record {
  nonempty_store = omega arith;
  store_bound = omega arith;
  read_in = omega arith;
  count_in = omega arith;
  write_at = refl;
}

trade_taken :
    add_all (numbered_from 1 (one_trade ∷ [])) synthesizer
    ≡ ok (tt, record synthesizer { last_inc_seq_num = 1 })
unfolding Synthesizer.add_to_snapshot Synthesizer.apply_update
trade_taken = refl

relayed_example :
    (x1 x' : Exchange) × (publisher_round (λ u. []) (λ n. []) trading ≡ ok ([], x1))
    × (synthesizer_round (pos (70 * 10 ^ 9)) (pos (71 * 10 ^ 9)) x1 ≡ ok (tt, x'))
    × (x'.snapshot_thread.synthesizer ≡ record synthesizer { last_inc_seq_num = 1 })
    × (x'.snapshot_thread.multicast
        ≡ publish_snapshot (record synthesizer { last_inc_seq_num = 1 }))
    × (contents x'.market_updates ≡ [])
    × (contents x'.market_data_publisher.snapshot_md_updates ≡ [])
unfolding is_due
relayed_example =
    relayed (λ u. []) (λ n. []) trading (pos (70 * 10 ^ 9)) (pos (71 * 10 ^ 9)) (one_trade ∷ [])
      (record synthesizer { last_inc_seq_num = 1 }) trade-IsValid refl refl (omega arith)
      no_updates-IsValid refl (omega arith) trade_taken
