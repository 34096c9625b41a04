-- ===== src/Lib.antt =====
-- A verification library for the peer-to-peer ledger: a node that takes transactions from clients and
-- peers into a pool, mines them into blocks, keeps one chain in a file, and agrees with its peers on
-- the chain.
--
-- The parts and the files that model them, with the Go code they follow:
--   Models.Transaction  internal/models/transactions.go: Transaction, ValidateTransaction.
--   Models.Block        internal/models/block.go: Block, CalculateHash, CheckDifficulty,
--                       CreateGenesisBlock, ValidateBlock.
--   Models.Chain        internal/models/block.go: ValidateChain, BetterChain; the JSON of a chain.
--   Mempool             internal/mempool/mempool.go: TryAdd, Add, Exists, GetPending, Remove, Size,
--                       PrepareReorg, Replace.
--   Storage             internal/storage/chainstorage.go: FileChainStorage with AddBlock,
--                       ReplaceChain, GetChain, GetLatestBlock, TransactionExists,
--                       indexTransactions; Storage.ChainFile: saveUnlocked; Storage.Start:
--                       NewFileChainStorage; Storage.Durable: what a later start finds.
--   Gossip              Gossip_Engine/gossip.go: GossipEngine with SubmitTransaction,
--                       HandleIncomingBlock, MiningWork, adopt, ResolveConflicts, ReadState, Status,
--                       broadcast, selectRandomPeers, RequestSync; Gossip.Trace: runs of all of them;
--                       Gossip.Http: get; Gossip.Agreement: two nodes that sync with each other;
--                       Gossip.Peers: NewGossipEngine; Gossip.Worker: the attempts of worker.
--   Miner               internal/miner/miner.go: Solve, MineOnce.
--   Api                 internal/api/handler.go: decode, accept, ReceiveBlock and the queries;
--                       Api.Router: NewRouter.
--   Node.Flags          internal/node/node.go: the command line of ParseConfig, as the package flag
--                       reads it; Node.Config: ParseConfig; Node.Startup: Run and Main.
--   Node.Process        a running node: the HTTP server, the loop Run of Gossip_Engine/gossip.go, the
--                       loop Start of internal/miner/miner.go and the workers on one engine.
--   TestUtil            internal/testutil/blocks.go: Block, which mines the blocks of the Go tests.
--   Ledger              what all this promises, without its representation: pending IDs, and blocks of
--                       IDs.
-- Base, Text, Json and Sha hold what the code uses of Go and its standard library: machine integers,
-- strings, slices and maps; strings.TrimSpace, strings.TrimRight and utf8.ValidString; strconv.Atoi; json.Marshal;
-- SHA-256 and hexadecimal. They can be run, and tests check them against known values. Examples is a
-- small network on which the theorems are applied.
--
-- How the code is read. A method that may fail returns a `Result`, with one constructor of `Error`
-- for each error that the code makes, and the new state beside it. Everything that a method does under
-- its lock is one step; engine, store and pool are one state that is passed on. Strings are lists of
-- bytes. An int or int64 is an integer whose sums wrap at 64 bits; the nonce wraps at 2^64. A nil slice
-- is not an empty one. A Go map is an association list. sort.Slice is an insertion sort.
--
-- Goroutines. A node's events are what one of its goroutines does under the engine's lock, and a list
-- of events is an interleaving of all of them. A sync asks one peer after the other, each response and
-- each submission being an event of its own; the miner reads its work in one event and hands its block
-- over in another. The theorems are about all lists of events. A worker is taken to end once its context
-- is canceled, and need not end before.
--
-- Arguments stand for what the code asks its environment: `now` is the clock in Unix seconds; `Faults`
-- and `StartFaults` are the results of the calls of the package os; `perm` is the permutation of
-- rand.Perm; the JSON decoders are `Decoder` and `JsonDecoder`; the answers of peers are `Response`,
-- and `Answer` what a sync reads of them; `Parsers` are net.ParseIP, time.ParseDuration and url.Parse;
-- `World` is all that a node meets from its start to its end. The `horizon` of an invariant is a time
-- that no clock reading has passed, so that a block that was valid stays valid. The channel `changed`
-- is the number of times it was closed, `syncNeeded` is a Boolean and `jobs` a list of at most 128.
--
-- Fuel: the two searches for a nonce, of Solve and of the test helper, are the only loops that are not
-- structural. They have one turn for each nonce from the block's own to 2^64 - 1.
--
-- Not modelled: when tickers fire and which goroutine goes first, since every order is allowed; the
-- HTTP client and server, URLs, IP addresses and durations, whose parsers are arguments; the decoding
-- of JSON; routing and logging by gin; the JavaScript simulator under docs.
pub mod Base
pub mod Text
pub mod Sha
pub mod Json
pub mod Models
pub mod Mempool
pub mod Storage
pub mod TestUtil
pub mod Gossip
pub mod Miner
pub mod Api
pub mod Examples
pub mod Ledger
pub mod Node
