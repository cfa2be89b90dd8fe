-- ===== src/Lib.antt =====
-- A verification library for the exchange and its market data client.
--
-- The program. Clients send orders over TCP to the order server (exchange/order_server), which checks
-- their sequence numbers and hands them, sorted by arrival, to the matching engine (exchange/matcher).
-- The engine keeps one order book for each ticker, and answers on two queues: responses, which go back
-- through the order server, and market updates, which the publisher (exchange/market_data) multicasts
-- and also gives to the snapshot synthesizer. The client (trading/market_data) follows the stream of
-- updates, recovers from the snapshot stream when a number is missing, and keeps the best bid and
-- offer (trading/strategy). The parts share queues, memory pools and a logger (common).
--
-- Files and the code they are about:
--   Base             numbers, lists, faults, and the monad of member functions (common/macros.h)
--   Types            common/types.h
--   LfQueue          LFQueue of common/lf_queue.h; LfQueue.Threads is the interleaving of its two threads
--   MemPool          MemPool of common/mem_pool.h; a pointer is the index of its block
--   Messages         the structs of client_request.h, client_response.h and market_update.h, with
--                    the functions that print them
--   Frames           loops over received bytes that hold messages of a fixed size: recvCallback of
--                    order_server.h and of market_data_consumer.cpp
--   Ring             circular doubly linked lists, as functions from a node to its neighbours
--   Book             MEOrderBook: state and pools; Book.Levels is addOrdersAtPrice and
--                    removeOrdersAtPrice, Book.Orders is addOrder and removeOrder, Book.Matching is
--                    match, checkForMatch, add and cancel; Book.Reports and
--                    Book.FillOrder are independent descriptions of the messages and of the
--                    order of fills; Book.Ladder is a side as a whole, and
--                    Book.Text is toString and the destructor
--   Engine           MatchingEngine
--   Sequencer        FIFOSequencer; std::sort is a parameter
--   Server           OrderServer; the decoding of a packed struct is a parameter
--   Publisher        MarketDataPublisher; the encoding of a packed struct is a parameter
--   Synthesizer      SnapshotSynthesizer
--   Consumer         MarketDataConsumer; Consumer.Thread is its construction and the loop of its thread
--   Bbo              MarketOrderBook of trading/strategy
--   Logger           common/logging.h: log and flushQueue
--   Tcp              TCPSocket and TCPServer; what the operating system answers is an argument
--   Sockets          createSocket of common/socket_utils.h, over an interface of system calls
--   Exchange         exchange/exchange_main.cpp: the parts with the queues that they share; Exchange.Main
--                    is main, and a round of each thread is a step on the whole
--
-- Member functions run from a state to a result with a new state, or end in a fault: a failed
-- assertion, FATAL, `at` out of range, a null pointer, or an unchecked index. Unsigned types wrap
-- around at their width. Loops over a list recurse on it; the loops over circular lists and over
-- queues have fuel: one round for each block of the pool, or for each element, and one round more. That
-- this is enough for checkForMatch is shown in Book.Ladder, and for the queues in the modules of their
-- readers.
--
-- Not modelled: threads but for the two at a queue, the clock, files, the printing of a socket
-- configuration, and most destructors. But for the two threads at a queue, an operation is
-- one step. What the operating system does is given: by an argument of each call in Tcp, and by an
-- interface in Sockets.
pub mod Base
pub mod Types
pub mod LfQueue
pub mod MemPool
pub mod Messages
pub mod Frames
pub mod Ring
pub mod Book
pub mod Engine
pub mod Sequencer
pub mod Server
pub mod Publisher
pub mod Synthesizer
pub mod Consumer
pub mod Bbo
pub mod Logger
pub mod Tcp
pub mod Sockets
pub mod Exchange
