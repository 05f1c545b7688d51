-- ===== src/Leaves/Synced.antt =====
-- A synchronised cache is complete, from whatever cache it started.
use tornado_4337_relayer.Base.{
  ℕ, ◌+◌, ◌≤◌, ◌<◌, ◌≡◌, inl, inr, ◌∙◌, sym, ap, refl, arith, true, false, some, List, [], ltb, ok,
  or_throw, Bool-cases, >>=-known,
}
use tornado_4337_relayer.UserOp.{or_else}
use tornado_4337_relayer.Leaves.{
  LeafCache, Event, no_file, contents, SyncOptions, thrown, Client, fresh_cache, from_seed,
  start_cache, rewind, head_of, sync_leaves,
}
use tornado_4337_relayer.Leaves.Spans.{Emitted, span, take-keep_until}
use tornado_4337_relayer.Leaves.Arrival.{Finishes}
use tornado_4337_relayer.Leaves.Extended.{
  commitments, complete, AnswersLogs, Synced, extend-complete,
}

module _ (emitted : List Event) (client : Client) where
  complete-Synced : (pool chain_id b : ℕ) → Synced emitted client (complete pool chain_id b emitted)
  complete-Synced pool chain_id b = record { leaves_are = refl; blocks_are = inl refl }

  -- A start whose cache, cut back, can be extended to `head`.
  record Extends (pool chain_id head : ℕ) (start : LeafCache) : Type 0 where
    cut : LeafCache
    rewound : rewind head start ≡ ok cut
    synced : Synced emitted client cut
    below : cut.scanned ≤ head + 1
    same_pool : cut.pool ≡ pool
    same_chain : cut.chain_id ≡ chain_id

  fresh-Extends :
      (pool chain_id head from : ℕ)
      → span 0 from emitted ≡ []
      → from ≤ head + 1
      → Extends pool chain_id head (fresh_cache pool chain_id from)
  unfolding rewind
  fresh-Extends pool chain_id head from empty below =
      let stays : ltb (head + 1) from ≡ false = ground arith in
      record {
        cut = fresh_cache pool chain_id from;
        rewound = rw stays refl;
        synced = record { leaves_are = sym (ap commitments empty); blocks_are = inr (refl, refl) };
        below = below;
        same_pool = refl;
        same_chain = refl;
      }

  cut_back :
      (pool chain_id head b : ℕ)
      → Emitted 0 0 emitted
      → head < b
      → rewind head (complete pool chain_id b emitted) ≡ ok (complete pool chain_id head emitted)
  unfolding rewind
  cut_back pool chain_id head b e past =
      let ahead : ltb (head + 1) (b + 1) ≡ true = ground arith in
      rw ahead (
        rw
          (
            take-keep_until (λ x. x.commitment) emitted 0 0 head (b + 1) e (omega arith),
            take-keep_until (λ x. x.block) emitted 0 0 head (b + 1) e (omega arith),
          )
          refl)

  complete-Extends :
      (pool chain_id head b : ℕ)
      → Emitted 0 0 emitted
      → Extends pool chain_id head (complete pool chain_id b emitted)
  unfolding rewind
  complete-Extends pool chain_id head b e = elim (Bool-cases (ltb head b)) [
    | inl past ↦ record {
      cut = complete pool chain_id head emitted;
      rewound = cut_back pool chain_id head b e (ground arith);
      synced = complete-Synced pool chain_id head;
      below = omega arith;
      same_pool = refl;
      same_chain = refl;
    }
    | inr within ↦
        let stays : ltb (head + 1) (b + 1) ≡ false = ground arith in
        record {
          cut = complete pool chain_id b emitted;
          rewound = rw stays refl;
          synced = complete-Synced pool chain_id b;
          below = ground arith;
          same_pool = refl;
          same_chain = refl;
        }
  ]

  -- No file, and a first block that no deposit comes before; or the file that an earlier
  -- synchronisation has left, to whatever block.
  pub data Start (pool chain_id head : ℕ) (opts : SyncOptions) : Type 0 where
    from_scratch :
        opts.cache_file ≡ no_file
        → opts.seed_file ≡ no_file
        → span 0 opts.from_block emitted ≡ []
        → opts.from_block ≤ head + 1
        → Start pool chain_id head opts
    resumed :
        (b : ℕ)
        → opts.cache_file ≡ contents (complete pool chain_id b emitted)
        → Start pool chain_id head opts

  started :
      (pool chain_id head : ℕ) (opts : SyncOptions)
      → Emitted 0 0 emitted
      → Start pool chain_id head opts
      → (start : LeafCache) × (start_cache pool chain_id opts opts.cache_file ≡ ok start)
        × Extends pool chain_id head start
  unfolding start_cache from_seed
  started pool chain_id head opts e (from_scratch no_cache no_seed empty below) = (
    fresh_cache pool chain_id opts.from_block,
    ap (start_cache pool chain_id opts) no_cache ∙ ap (from_seed pool chain_id opts) no_seed,
    fresh-Extends pool chain_id head opts.from_block empty below,
  )
  started pool chain_id head opts e (resumed b is) = (
    complete pool chain_id b emitted,
    ap (start_cache pool chain_id opts) is ∙ ground arith,
    complete-Extends pool chain_id head b e,
  )

  -- Where the node answers each request with the deposits of its blocks, a synchronisation returns
  -- the cache of all deposits up to the head, the same one from scratch as from the file of any
  -- earlier synchronisation, behind the head or past it, for every positive chunk and every order
  -- in which the requests end.
  pub sync_leaves-complete :
      (arrival : List (ℕ × ℕ) → List (ℕ × ℕ)) (pool chain_id head : ℕ) (opts : SyncOptions)
      → Emitted 0 0 emitted
      → AnswersLogs emitted client
      → ((l : List (ℕ × ℕ)) → Finishes l (arrival l))
      → client.chain_id ≡ some chain_id
      → head_of client opts ≡ ok head
      → 0 < or_else opts.chunk 5000
      → Start pool chain_id head opts
      → sync_leaves client arrival pool opts ≡ ok (complete pool chain_id head emitted)
  unfolding sync_leaves
  sync_leaves-complete arrival pool chain_id head opts e answers finishes known to_head moves
        start =
      let (first, begins, x) = started pool chain_id head opts e start in
      let last =
        extend-complete emitted client arrival opts head x.cut e answers finishes moves x.synced
          x.below in
      >>=-known (or_throw client.chain_id thrown) _ (ap (λ o. or_throw o thrown) known)
      ∙ >>=-known (start_cache pool chain_id opts opts.cache_file) _ begins
      ∙ >>=-known (head_of client opts) _ to_head
      ∙ >>=-known (rewind head first) _ x.rewound
      ∙ last
      ∙ ap (λ p. ok (complete p x.cut.chain_id head emitted)) x.same_pool
      ∙ ap (λ c. ok (complete pool c head emitted)) x.same_chain
