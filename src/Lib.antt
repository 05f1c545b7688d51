-- ===== src/Lib.antt =====
-- The signing relayer of relayer/src: a service that pays, through an ERC-4337 paymaster, for user
-- operations that withdraw from Tornado Cash pools, if the withdrawal's fee covers the gas.
--
-- A request goes through these parts. `sign` (relayer/src/service.ts) decodes the account's calls
-- and finds the one sponsored withdrawal (relayer/src/validate.ts), asks for a fee that covers the
-- operation (relayer/src/fee.ts), reserves the note in the store (relayer/src/service.ts and
-- relayer/src/store.ts), checks the account's code, the deposit, the registry, the pool and the
-- bundler's simulation, hashes the operation with the terms (relayer/src/userop.ts), signs, and
-- records the note as signed before the signature leaves.
--
-- Base: names of the libraries, lists, results, text as character codes, decimals and JavaScript's
--   Map as an association list.
-- Errors: what the code throws; codes stand by their absolute value.
-- Viem: the functions of the viem library, as a record of parameters. Viem/Sample is a concrete
--   one for the examples.
-- Fee: relayer/src/fee.ts. UserOp: relayer/src/userop.ts. Validate: relayer/src/validate.ts.
-- Store: `SponsoredNote`, `MemorySponsorshipStore` and `committedGasCost` of
--   relayer/src/service.ts, and the writing of relayer/src/store.ts; Store/File: the start-up from
--   the file. One record is both classes: `file` is `none` in memory and the file's entries else.
-- Price: relayer/src/price.ts; Price/Fixed is `FixedPriceSource` with `parseDecimal`.
-- Config: relayer/src/config.ts. `Env` is `process.env`; Config/Number is `BigInt` on a text,
--   Config/ForSetup is `setupConfigFromEnv`, ForService `configFromEnv`, and Prices
--   `priceSourceFromEnv`. Server: relayer/src/server.ts, which sets the paymaster up and starts the
--   service, both from one environment.
-- Service: `RelayerService` of relayer/src/service.ts. Service/Act is the monad of a method that
--   reads and writes the store and may throw; Service/Prepare, Checks, Bundler, Estimate, Stub and
--   Sign are `sign` and what it calls; Service/Quote is `quote`.
--   Service/Registry is `probeRegistry`, Service/Start is `create`, and Service/Status is `status`
--   and `liveState`. A `Chain`, `Dao` or `Answers` is what the node answers there; `Read` keeps
--   apart a value, the contract's revert and a failure of the node.
-- Setup: relayer/src/setup.ts, before the service starts: Setup/Contract is
--   `ensureStandaloneContract`, Compatible `assertPaymasterCompatible`, Registered
--   `ensureRegistered` and Ensure `ensurePaymasterSetup`. The state is the list of the transactions
--   sent and the state file; a `Node` may answer otherwise at each moment of the set-up.
-- Leaves: `syncLeaves` and `leafCacheFromTornadoCli` of client/src/merkle.ts. `LeafCache.scanned` is
--   `lastBlock + 1`, and a decimal string of the cache is its number.
-- Flow: `sponsoredWithdraw` of client/src/flow.ts, with `merklePath` of client/src/merkle.ts and the
--   words of `prove` of client/src/prover.ts. The state is the list of what the client has asked
--   for, and `Outside` is what it is answered. Flow/Transport is the rewriting of a request in
--   `strictHexTransport`.
-- NoteString: client/src/note.ts. `Codec` is what it calls of the libraries on bytes and digits.
-- Rpc: relayer/src/rpc.ts, from a request to its reply. `Methods` are the service's methods as the
--   surface calls them, and the cast of a JSON object to an operation is a parameter.
-- A module below one of these proves what its name says; Examples and Failures hold the examples.
--
-- Numbers are natural: amounts, seconds and milliseconds of the code are never negative, and bigint
-- has no width; the stake to add and a JSON number, which may be negative, are a `ℤ`. A loop over a
-- list is structural recursion. Four run on fuel: the printing of a number, in decimal and in hex,
-- on one more than the number and so on more than its digits; the ranges of blocks, on the number of
-- blocks, which is enough since each round moves on by a positive chunk; and the wait for the
-- registration, whose fuel is any number of rounds, and whose theorem says how many are enough.
-- A call of the chain, the bundler, the price source or the key is a field of `World`, which also
-- says what the other requests do to the store at each `await` (`meanwhile`); a theorem that has no
-- hypothesis on it holds for any interleaving.
--
-- Not modelled: log output and the wording of messages, the HTTP routes, arrays among the parameters
-- of a request, `Number(s)` on a setting, which is a parameter, the client's JSON, the writing of
-- its cache file, its deployment and command line, and the contracts, whose answers are parameters.
-- A setting that is a negative integer is an error of the model, since the configurations hold
-- natural numbers.
pub mod Base
pub mod Config
pub mod Errors
pub mod Fee
pub mod Flow
pub mod Leaves
pub mod NoteString
pub mod Price
pub mod Rpc
pub mod Server
pub mod Service
pub mod Setup
pub mod Store
pub mod UserOp
pub mod Validate
pub mod Viem
