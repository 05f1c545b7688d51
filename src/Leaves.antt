-- ===== src/Leaves.antt =====
-- `syncLeaves` and `leafCacheFromTornadoCli` of client/src/merkle.ts. A decimal string of the cache
-- is its number here.
pub mod Ranges
pub mod Spans
pub mod Arrival
pub mod Extended
pub mod Synced
pub mod Forgets
mod Examples
use tornado_4337_relayer.Base.{
  ℕ, zero, suc, ◌+◌, ◌-◌, Bool, true, false, not, ◌&&◌, Option, none, some, List, [], ◌∷◌, ◌++◌,
  map, ltb, leb, ◌==◌, length, take, Result, ok, err, ◌>>=◌, ◌>>◌, or_throw, throw_if,
  if◌then◌else◌,
}
use tornado_4337_relayer.Viem.{Address}
use tornado_4337_relayer.UserOp.{or_else}

-- `LeafCache`. `scanned` is `lastBlock + 1`, the first block that is not in the cache: `lastBlock`
-- is -1 where a scan is to start at block 0.
pub record LeafCache : Type 0 where
  pub pool : Address
  pub chain_id : ℕ
  pub scanned : ℕ
  pub leaves : List ℕ
  pub leaf_blocks : Option (List ℕ)

pub record Event : Type 0 where
  pub leaf_index : ℕ
  pub commitment : ℕ
  pub block : ℕ

-- the file at `cacheFile`, or the one at `seedFile`: not named or not there, not JSON, or with a
-- value in it
pub data File (A : Type 0) : Type 0 where
  no_file unreadable : File A
  contents : A → File A

pub record SyncOptions : Type 0 where
  pub from_block : ℕ
  pub chunk : Option ℕ
  pub cache_file : File LeafCache
  pub seed_file : File (List Event)
  pub to_block : Option ℕ

pub data SyncError : Type 0 where
  thrown no_blocks_to_rewind : SyncError
  gap : (expected got : ℕ) → SyncError

-- What the node answers; `none` is a request that throws.
pub record Client : Type 0 where
  pub chain_id : Option ℕ
  pub block_number : Option ℕ
  pub get_logs : ℕ → ℕ → Option (List Event)

-- `sort((a, b) => a.leafIndex - b.leafIndex)`, which is stable
unfoldable pub insert_event : Event → List Event → List Event
insert_event a [] = a ∷ []
insert_event a (b ∷ l) =
    let rest = insert_event a l in if leb a.leaf_index b.leaf_index then a ∷ (b ∷ l) else b ∷ rest

unfoldable pub sort_events : List Event → List Event
sort_events [] = []
sort_events (a ∷ l) = insert_event a (sort_events l)

-- The loop that appends the events, or throws at a gap.
unfoldable pub append_events : List Event → List ℕ → List ℕ → Result SyncError (List ℕ × List ℕ)
append_events [] leaves blocks = ok (leaves, blocks)
append_events (e ∷ rest) leaves blocks = do
  throw_if (not (e.leaf_index == length leaves)) (gap (length leaves) e.leaf_index)
  append_events rest (leaves ++ (e.commitment ∷ [])) (blocks ++ (e.block ∷ []))

abbrev pub max_block : List Event → ℕ
max_block [] = 0
max_block (e ∷ l) = let m = max_block l in if ltb m e.block then e.block else m

-- `leafCacheFromTornadoCli`
unfoldable pub cache_from_tornado_cli : List Event → Address → ℕ → Result SyncError LeafCache
cache_from_tornado_cli deposits pool chain_id = do
  (leaves, blocks) ← append_events (sort_events deposits) [] []
  ok (record {
    pool = pool;
    chain_id = chain_id;
    scanned = max_block deposits + 1;
    leaves = leaves;
    leaf_blocks = some blocks;
  })

-- `{ instance, chainId, lastBlock: fromBlock - 1, leaves: [] }`
abbrev pub fresh_cache : Address → ℕ → ℕ → LeafCache
fresh_cache pool chain_id from_block = record {
  pool = pool;
  chain_id = chain_id;
  scanned = from_block;
  leaves = [];
  leaf_blocks = none;
}

from_seed : Address → ℕ → SyncOptions → File (List Event) → Result SyncError LeafCache
from_seed pool chain_id opts no_file = ok (fresh_cache pool chain_id opts.from_block)
from_seed pool chain_id opts unreadable = err thrown
from_seed pool chain_id opts (contents deposits) = cache_from_tornado_cli deposits pool chain_id

-- the cache to start from: a file of another pool or chain is passed over, and the seed with it
unfoldable pub start_cache : Address → ℕ → SyncOptions → File LeafCache → Result SyncError LeafCache
unfolding from_seed
start_cache pool chain_id opts no_file = from_seed pool chain_id opts opts.seed_file
start_cache pool chain_id opts unreadable = err thrown
start_cache pool chain_id opts (contents loaded) = ok (
    if loaded.pool == pool && loaded.chain_id == chain_id
    then loaded
    else fresh_cache pool chain_id opts.from_block)

-- `while (keep < leafBlocks.length && leafBlocks[keep] <= head) keep++`
abbrev pub keep_until : ℕ → List ℕ → ℕ
keep_until head [] = 0
keep_until head (b ∷ l) = let rest = keep_until head l in if leb b head then suc rest else 0

-- A cache built past `head` is cut back.
unfoldable pub rewind : ℕ → LeafCache → Result SyncError LeafCache
rewind head cache =
    if ltb (head + 1) cache.scanned
    then (do
      blocks ← or_throw cache.leaf_blocks no_blocks_to_rewind
      ok (record cache {
        leaves = take (keep_until head blocks) cache.leaves;
        leaf_blocks = some (take (keep_until head blocks) blocks);
        scanned = head + 1;
      }))
    else ok cache

-- `for (let from = lastBlock + 1n; from <= head; from += chunk)`, for as many rounds as `fuel`; with
-- a chunk of 0 the loop does not end.
unfoldable pub ranges : (fuel from head chunk : ℕ) → List (ℕ × ℕ)
ranges zero from head chunk = []
ranges (suc fuel) from head chunk =
    let rest = ranges fuel (from + chunk) head chunk in
    if leb from head
    then (from, if ltb head (from + chunk - 1) then head else from + chunk - 1) ∷ rest
    else []

-- The answers to the requests, in the order in which they come: that of the list.
unfoldable pub fetch : Client → List (ℕ × ℕ) → Result SyncError (List Event)
fetch client [] = ok []
fetch client ((from, to) ∷ rest) = do
  logs ← or_throw (client.get_logs from to) thrown
  more ← fetch client rest
  ok (logs ++ more)

-- `cache.leaves.map(() => cache.lastBlock)`, where the cache has no blocks
abbrev pub blocks_or_last : LeafCache → List ℕ
blocks_or_last cache = or_else cache.leaf_blocks (map (λ leaf. cache.scanned - 1) cache.leaves)

-- From the cut-back cache on. `arrival` is the order in which the workers end.
unfoldable pub extend :
    Client
    → (List (ℕ × ℕ) → List (ℕ × ℕ))
    → SyncOptions
    → ℕ
    → LeafCache
    → Result SyncError LeafCache
extend client arrival opts head cache = do
  events ←
      fetch client
        (arrival (ranges (head + 1 - cache.scanned) cache.scanned head (or_else opts.chunk 5000)))
  (leaves, blocks) ← append_events (sort_events events) cache.leaves (blocks_or_last cache)
  ok (record cache { leaves = leaves; leaf_blocks = some blocks; scanned = head + 1 })

-- `opts.toBlock ?? (await client.getBlockNumber())`
abbrev pub head_of : Client → SyncOptions → Result SyncError ℕ
head_of client opts = elim opts.to_block [
  | some b ↦ ok b
  | none ↦ or_throw client.block_number thrown
]

unfoldable pub sync_leaves :
    Client → (List (ℕ × ℕ) → List (ℕ × ℕ)) → Address → SyncOptions → Result SyncError LeafCache
sync_leaves client arrival pool opts = do
  chain_id ← or_throw client.chain_id thrown
  cache ← start_cache pool chain_id opts opts.cache_file
  head ← head_of client opts
  cut ← rewind head cache
  extend client arrival opts head cut
