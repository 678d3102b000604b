-- ===== src/Lib.antt =====
-- Swirly, a matching engine: limit orders of accounts meet in markets, and what they trade goes to
-- positions and, through a queue, to a journal.
--
-- The parts. A market (swirly/fin/Market.hpp) has two sides of a book (swirly/fin/MarketSide.hpp).
-- A side keeps its orders in one list by price and time, and a set of price levels, each with the
-- pointer to its first order, the sum of the lots and the count of its orders. An account has a
-- session (swirly/lob/Sess.hpp) with its orders, executions, trades and positions. The engine
-- (swirly/lob/App.cpp) takes each call in two phases: it checks, allocates and posts to the queue
-- (swirly/fin/MsgQueue.cpp), all of which may throw, and then commits, which may not. The queue is
-- shared memory between threads (swirly/app/MemQueue.hpp). FIX messages (swirly/fix) are written by a
-- stream, found in the bytes that come in by a parser, and read by a tokeniser.
--
-- The files.
--   Base: the shared names, tests and lists, and Base/Int: signed integers.
--   Util/Date: the conversions of swirly/util/Date.hpp. Date/Days, Calendar and Inverse have the proofs,
--     with a calendar that does not use the formulas of the code.
--   Util/Set: IdSet of swirly/util/Set.hpp. Set/Order and Find have the proofs.
--   Util/Math: the powers of two of swirly/util/Math.hpp.
--   Util/RingBuffer: swirly/util/RingBuffer.hpp. RingBuffer/Bounded has the proofs.
--   App/MemQueue: swirly/app/MemQueue.hpp, the queue that threads share, step by step. Slots, Safe,
--     Keep, KeepRead, Moves, Posts, Fetches and Run keep the queue sound over each step; Fifo is about a
--     queue from its construction on, Accesses and Alone about a thread that runs alone, and Stuck about
--     a capacity that is not a power of two.
--   Fix/Tokeniser, Fix/Parser, Fix/Stream: the FIX protocol of swirly/fix, with the function names of the
--     source. Tokeniser/Fields, Parser/Loop, Rounds, Chunks and Frames and Stream/Frame and Commit have the
--     proofs, and Wire puts the three together.
--   Fin/Date, Fin/MarketId: the cache of business days of swirly/fin/Date.cpp, and MarketId.hpp.
--   Fin/Types, Fin/Order, Fin/Exec, Fin/Posn: BasicTypes.hpp, Order.hpp, Exec.hpp, Posn.hpp and
--     their .cpp files. Exec/Sides and Posn/Net have the proofs.
--   Fin/Level: Level.hpp. compose_key, find_hint, add_order, sub_order, reduce.
--   Fin/MarketSide: MarketSide.cpp and the OrderList of Order.cpp, with the source's function
--     names; the private remove_order(Level&, const Order&) is remove_at. MarketSide/Book says what
--     a valid side is; Hint and Insert, Settle and Remove, Write and Amend, and Undo prove what the
--     operations do to it.
--   Fin/Market: Market.hpp. Market/Valid says what a valid market is; Amends, Book, Take and Undo have the
--     proofs.
--   Fin/MsgQueue: MsgQueue.cpp, and the capacity of swirly/app/MemQueue.hpp. Post and Archive have
--     the proofs.
--   Lob/Sess, Lob/Response: Sess.hpp and Response.cpp.
--   Lob/Engine: the state of App::Impl, new_match and match_orders. Engine/Fills describes what a
--     match takes apart from the code; Liquidity and Matched prove it of the code, and Issued is
--     about the ids of the executions.
--   Lob/Create: create_order and commit_matches. Create/Commit, Uncrossed, Rest, Taker, Finish and
--     Book follow the market through the call, Create/Sums and Balance the positions, Refused is about
--     the checks and Queued about the messages.
--   Lob/Change: revise_order and cancel_order of one order, by id and by reference. Change/Book has
--     the proofs.
--   Lob/Trade: create_trade and archive_trade. Trade/Booked and Balance have the proofs.
--   Lob/Batch: revise_order, cancel_order and archive_trade over several ids. Batch/Action says what
--     the two loops need of a change of an order; Passed, Ends, Book, Cancelled, Gone and Archive have
--     the proofs.
--   Lob/Markets: create_market, update_market and market. Markets/Made has the proofs.
--   The modules named Tests: runs on concrete inputs.
--
-- The state. Lots, ticks and costs are int64_t in the source, whose overflow is undefined there:
-- they are integers here. Ids, times and days are numbers, and a symbol or a reference is the number
-- that its bytes spell, 0 when empty. An order is one object that its market, its session and its
-- level share: here it stands in the list of its side, the session has its market, id and reference,
-- the order has its level by the key, and the level its first order by the id. A write through a
-- pointer is a write in that list. The lists, circular buffers and the set of levels are lists with
-- the same order of elements; the sets of a session, which the engine only searches, are lists with
-- the newest first. An order that is named by its reference is taken to be of the market of the
-- call. An engine has the one market that a call refers to; the others do not change in a call. A
-- call returns an outcome: its error, if it threw, and the engine and the response as they are then,
-- so that what a call changes before it throws is there too. A call of the queue that posts several
-- messages and throws leaves the queue with those that it had posted: a Posting has the queue in both
-- cases. The business day of a time is a field of the engine.
--
-- An id of a market is a signed 64-bit number in the source, and here the number that its bits spell.
-- A response that a call over several ids is given may hold executions, which the call posts and
-- commits with its own: they are a parameter. A set that is searched at the end is an outcome of its
-- own, since the language gives such a call no meaning.
--
-- The queue of several threads. The state of a thread is the access to the shared memory that is its
-- next, with its local variables, and a schedule is a list of threads: each step does one access, in
-- one order for all threads. What a weaker order of memory would allow is not modelled. A
-- compare-and-exchange may fail for no reason, where the schedule says so. The value of a slot is
-- written and read in one step.
--
-- FIX. A text is a list of bytes, and a position in it the list of what follows. What a user of the
-- parser does with a message is not modelled: the messages that it is given are the result. A read
-- beyond the buffer is an outcome of its own. The text of the body is what the stream is given.
--
-- Fuel and bounds. The loop of archive_trade runs on fuel of one more than the number of ids, which
-- is more than its steps, each of 29 ids; the count of the bits of a number runs on 64, its width; the
-- parser and the tokeniser run on fuel of at least the bytes they are given, of which each round takes
-- some; the other loops follow a list or the schedule. The queue of the engine has a capacity and a
-- list of messages; positions in the shared queue do not reach 2^63. The year, month and day of a date are
-- integers, whose overflow is undefined in the source.
--
-- Not modelled: loading, and what surrounds the engine: text, persistence, sockets, timers, the
-- HTTP front end, the client. The time zone is a parameter. Allocation does not fail here.
pub mod Base
pub mod Util
pub mod App
pub mod Fix
pub mod Fin
pub mod Lob
