-- ===== src/Lib.antt =====
-- The off-chain part of the TAOP protocol: the indexer, its SQLite index and the webhook dispatcher of
-- packages/backend/src with the HTTP server and the start of its contract clients, and the reputation
-- mechanisms and the collusion detectors of packages/benchmark/src.
--
-- How the parts fit. The indexer polls a node for the logs of two contracts, derives tables from them
-- (capabilities, score components, receipts, identities, alerts) and answers discovery from these. The
-- dispatcher reads the alerts above its cursor and posts each to a subscriber. Both share one database.
-- The benchmark keeps its own state, and computes the same scores for simulated agents.
--
-- Which file models what.
-- Prelude, Table and Sort are shared: native numbers, lists, texts as lists of character codes
--   (toLowerCase on ASCII), integers; a SQLite table with a primary key as the list of its rows, with the
--   statements that the source writes as operations (find, put, delete, update, upsert,
--   insert_or_ignore); a stable sort for ORDER BY and Array.prototype.sort.
-- Index is packages/backend/src/index_db.ts and the tables of db.ts: a record with one field for each
--   table and one function for each exported function, by its name in snake_case, from the tables to the
--   tables. Index/Alerts (recordAlert, listAlerts, listAlertsAfter, pruneAlerts), Index/Logs (cursor,
--   markers, reset), Index/Capabilities, Index/Scores, Index/Receipts, Index/Cache (the functions of db.ts).
--   Index/Sound holds the invariant.
-- Indexer is packages/backend/src/indexer.ts: Indexer/Decay (decayedScore), Indexer/Events
--   (applyRegistryEvent, applyRonEvent), Indexer/Range (indexRange), Indexer/Poll (pollOnce and the poll of
--   startIndexer), Indexer/Start (envInt, the probes, startIndexer up to its first poll), Indexer/Discovery
--   (queryIndexedDiscovery, indexedCount). Indexer/Progress says how far a poll gets, Indexer/Replay what
--   indexing a range again does, and Indexer/Undelivered what a poll leaves of the alerts. The record Chain is what the
--   node, ethers and the clock answer during one pass; every call may fail.
-- Webhooks is packages/backend/src/webhooks.ts: Webhooks/Hosts (isPrivateHost), Webhooks/Config
--   (validateWebhookUrl, loadWebhookConfig), Webhooks/Status, Webhooks/Signature (signPayload,
--   verifySignature, the dispatcher's timer), Webhooks/Dispatch (deliverAlert, pollWebhooksOnce). The
--   record Platform is new URL, Number of a text and the HMAC; the subscriber is an
--   argument.
-- System puts the two background tasks and the demo server's writes together, in any order, over one
--   database.
-- Server is packages/backend/src/server.ts and contracts.ts: Server/Io is code that may throw, over a
--   state; Server/Contracts is what the node answers (each call may throw and may change a state of the
--   node) and the state of the backend; Server/Gate is the check at the start, the middlewares and the
--   parsing of parameters; Server/Timelock is executeViaTimelock and ownerTx; Server/Bootstrap is the
--   keys, ensureCapability and ensureAgentStake; Server/Replies and Server/Completions are the POST
--   routes with the status of each error; Server/Routes is the routes as one function, with what each
--   may do to the database; Server/Discover is GET /discover with its fallback on the contracts.
-- Metrics is packages/backend/src/metrics.ts: the counters of responses, and the text of a scrape.
-- Benchmark is packages/benchmark/src: Benchmark/Economics (economics.ts) and Benchmark/Mechanisms
--   (mechanisms.ts). The classes are the data type Kind, an overridden method is a function by clauses
--   over it, and a mutated agent is a row of the state; Benchmark/Mechanisms/Histories runs sequences of
--   operations, and Benchmark/Mechanisms/Funds follows a challenger's money.
--   Benchmark/Collusion is scenarios/collusion.ts: buildGraph, the three detectors, and the ring's ratings.
--   Benchmark/Random is the generator rng of economics.ts.
--   Benchmark/SlowBurn is scenarios/slowBurn.ts: the days of the attack, the slash and the metrics.
-- Tests holds concrete runs.
--
-- Conventions. An operation that throws gives a Result, and the tables that it leaves with it. The
-- cursor of pollOnce may be -1 in the source; the model keeps the cursor plus one, and the head less the
-- confirmations plus one, so that both are natural numbers. A count that the source clips at 0 is a
-- subtraction of natural numbers. The lookup of
-- a capability has no ORDER BY: which of the matching rows SQLite gives first is a parameter. The
-- registration of a capability takes the key that signs it.
--
-- Fuel. The recursion of isPrivateHost is on fuel; the model gives it two more levels than the host
-- name has characters, and the recursion ends within these. The loop of pollOnce is structural in
-- maxChunks, and the waits of the Timelock and of a new capability in their ten rounds. The peeling loop
-- of detectByKCore has one round more than there are nodes: each round but the last removes a node. The
-- digits of a number n are written on fuel n + 1, of which a division by ten uses one.
--
-- Bounds. The products of the decay stay below 2^53, where doubles are exact; the amounts of the
-- benchmark are multiples of 512 wei below 2^62. Ids stay below 2^53.
--
-- Not modelled: the interleaving of two polls at their awaits (a poll is one step of System); errors of
-- SQLite; the encoding of an alert's payload to JSON and back (taken to be the
-- identity); the cache of block timestamps within a range; the firing of timers; the GET routes that copy the fields
-- of one call, the counters of express-rate-limit, and static files; the SDK, the MCP server and the user
-- interfaces; the random choices of the attack scenarios, their ratios and texts, and the reports of the
-- benchmark; the contracts themselves, which are seen through their events and the answers of the node.
pub mod Prelude
pub mod Table
pub mod Sort
pub mod Index
pub mod Indexer
pub mod Webhooks
pub mod Benchmark
pub mod System
pub mod Metrics
pub mod Server
pub mod Tests
