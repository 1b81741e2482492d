-- ===== src/Lib.antt =====
-- Zero, a flash-loan arbitrage engine for Arbitrum (the package `zero/` of this repository). A swarm
-- of workers scans routes between pools, candidates with a positive expected net are ranked, and a
-- policy decides whether a candidate may be executed. All chain access goes through a pool of RPC
-- endpoints. This library models the parts that decide, and leaves out those that only do
-- input and output.
--
-- The parts, the code of each, and how they interact:
-- - Policy: zero/execution_policy.py. `ExecutionPolicy` is a record, each method a function from it;
--   `Call` and `step` are the calls that a client makes on one object, in any order.
-- - Gate: zero/gate.py, the thresholds that a candidate has to reach before it is recorded.
-- - Swarm.Topology: `build_topology` of zero/swarm.py, from the configuration to managers and workers.
-- - Swarm.Leases: `RouteLeaseRegistry` of zero/swarm.py, a table from (block, route) to the worker
--   that owns it. Every method holds the registry's lock, so concurrent workers make a sequence of
--   whole calls; the theorems are about every such sequence.
-- - Swarm.Allocator: `WorkAllocator` of zero/swarm.py, `__init__` and `next_route`. The queues are an
--   association list in the order of insertion, as in the code's dict.
-- - Swarm.Worker: `WorkAllocator.claim`, `_run_worker` and `_dedupe_routes` of zero/swarm.py. The loop
--   takes routes from the allocator, claims them in the leases and hands them to the engine.
-- - Swarm.Book: `SwarmCandidate`, `_candidate_from_row`, `OpportunityBook`, and the loop of `run_block`
--   that fills the book with the rows of the workers.
-- - Swarm.Discovery: the token registry, the pools and routes of a pair, and the context of a scan, of
--   zero/swarm.py; `build_catalog` makes the routes that the allocator of Swarm.Block hands out.
-- - Swarm.Block: `run_block` of zero/swarm.py, which builds the allocator, collects the outcomes of the
--   workers, writes the ledger, fills the book, has its candidates verified and frees the leases.
-- - RpcPool: zero/rpc_pool.py, the failover of every RPC method, `_invoke`.
-- - Routes: `PoolRef` of zero/venues/base.py and zero/routes.py. A pool can be crossed in both
--   directions; Routes.Graph is `RouteGraph` with the depth-first search of `enumerate_cycles`,
--   Routes.Configs is `build_multihop_route_configs`, which makes the routes that the allocator hands
--   out. The ids are digests of canonical texts; the digest (zero/keccak.py) is any function.
-- - RouteQuote: `quote_leg` and `route_execution_ready` of zero/venues/quotes.py and `quote_route` of
--   zero/route_quote.py, which quotes the legs of a route one after the other. The answer of a
--   venue's adapter comes from the chain and is a function. RouteQuote.Economics is
--   `evaluate_route_economics`, what a quoted route earns.
-- - Rpc: the words of the ABI in zero/rpc.py, encoded and decoded; Rpc.Batch is its client, with the
--   retries of a request and batches in chunks.
-- - Calldata: zero/calldata.py, which turns a candidate into the calls that a fork executes, with the
--   selectors of Keccak and the words of Rpc. Calldata.Layout reads the data of a call back, argument by
--   argument, for the theorems on the steps.
-- - Liquidation: zero/liquidations.py, the state of a borrower and how much of a debt may be repaid;
--   Liquidation.Quote is zero/liquidation_quote.py, which sizes a liquidation and unwinds the
--   collateral over the legs of a route with the `quote_leg` of RouteQuote; Liquidation.Calls is
--   zero/liquidation_calldata.py, which encodes the calls with the words of Calldata; Liquidation.Scan
--   is the search of zero/liquidation_swarm.py for the best candidate of a borrower.
--   Liquidation.Promise states what a candidate of a quote promises, and why there may be none.
-- - LiveExecutor: zero/live_executor.py, the last gate before a live trade, its log of gas and the
--   calldata of the executor contract.
-- - Reserve: zero/reserve.py, the reserve against adverse errors of the forecasts.
-- - Monitor: zero/runtime.py, the status that the process writes for its observers.
-- - Keccak: zero/keccak.py, the hash behind all ids and selectors. The lanes are natural numbers with
--   the mask written out; the operations on binary digits are those of the language's numbers.
-- - Prelude holds what they share: tests, lists, dictionaries, a stable sort and permutations.
--
-- Conventions. Python's unbounded integers that cannot be negative are natural numbers (blocks,
-- counts, raw token amounts), others are integers. Strings are lists of character codes. A
-- Python float is a field of the interface `FloatOps` of Float, with the laws that a theorem
-- needs (an order without NaN, addition of what is not negative) as hypotheses; tests run the
-- code on whole numbers. A `Decimal` is likewise a field of `DecimalOps` of Decimal, run on
-- thousandths. An exception is a constructor of the result, or `none` where only one kind
-- can occur.
--
-- Fuel. `run_worker` recurses on fuel since its loop is a `while True`; more fuel than there are
-- pending routes is enough, as its theorem shows. The search for cycles recurses on the hops that
-- are left, as its guard on the number of legs does. The loop over the chunks of a batch has a round for
-- each call as fuel. All other loops are structural.
--
-- Parameters. The engine's scans are functions of the route, what the client of an endpoint does
-- is a function of the endpoint, the answer of an adapter is a function of the pool, the token, the
-- amount and the block, a clock is an argument.
--
-- Not modelled: the HTTP transport, threads below the level of locked calls (a call of the monitor is
-- one step, its reads before the lock included), the
-- SQLite ledger, the Foundry subprocess, the command line and the terminal UI, and the contracts,
-- which are Solidity.
pub mod Prelude
pub mod Float
pub mod Policy
pub mod Swarm
pub mod RpcPool
pub mod Rpc
pub mod Calldata
pub mod Gate
pub mod Routes
pub mod RouteQuote
pub mod Keccak
pub mod Monitor
pub mod Reserve
pub mod Liquidation
pub mod Decimal
pub mod LiveExecutor
