-- ===== src/Leaves/Extended.antt =====
-- What a cache that can be extended becomes.
use tornado_4337_relayer.Base.{
  ℕ, suc, ◌+◌, ◌-◌, ◌≤◌, ◌<◌, ◌≡◌, ◌⊎◌, inl, inr, ◌∙◌, sym, ap, refl, arith, true, none, some, List,
  [], ◌∷◌, ◌++◌, map, length, length-append, ◌==◌, ok,
}
use mathlib.Core.List.{append_assoc, append-nil}
use tornado_4337_relayer.Viem.{Address}
use tornado_4337_relayer.UserOp.{or_else}
use tornado_4337_relayer.Leaves.{
  LeafCache, Event, SyncOptions, Client, sort_events, append_events, ranges, fetch, blocks_or_last,
  extend,
}
use tornado_4337_relayer.Leaves.Ranges.{Tiles, ranges-Tiles}
use tornado_4337_relayer.Leaves.Spans.{Emitted, Indexed, renumber, span, span-append, span-Indexed}
use tornado_4337_relayer.Leaves.Arrival.{
  Finishes, logs_of, Emitted-Known, sort_events-Finishes, sort_events-Indexed,
}

abbrev pub commitments : List Event → List ℕ
commitments l = map (λ e. e.commitment) l

abbrev pub blocks : List Event → List ℕ
blocks l = map (λ e. e.block) l

-- the cache of all deposits up to `head`
abbrev pub complete : Address → ℕ → ℕ → List Event → LeafCache
complete pool chain_id head emitted = record {
  pool = pool;
  chain_id = chain_id;
  scanned = head + 1;
  leaves = commitments (span 0 (head + 1) emitted);
  leaf_blocks = some (blocks (span 0 (head + 1) emitted));
}

span-past : (l : List Event) (a c : ℕ) → c ≤ a → span a c l ≡ []
span-past [] a c past = refl
span-past (e ∷ l) a c past = ground (arith, span-past l a c past)

map-append : {A B : Type 0} (f : A → B) (l m : List A) → map f (l ++ m) ≡ map f l ++ map f m
map-append f [] m = refl
map-append f (x ∷ l) m = ap (λ r. f x ∷ r) (map-append f l m)

length-map : {A B : Type 0} (f : A → B) (l : List A) → length (map f l) ≡ length l
length-map f [] = refl
length-map f (x ∷ l) = ap suc (length-map f l)

append_events-Indexed :
    (l : List Event) (leaves found : List ℕ)
    → Indexed (length leaves) l
    → append_events l leaves found ≡ ok (leaves ++ commitments l, found ++ blocks l)
unfolding append_events
append_events-Indexed [] leaves found h = simp append-nil refl
append_events-Indexed (e ∷ l) leaves found (i, h) =
    let fits : (e.leaf_index == length leaves) ≡ true = ground arith in
    let one_more : length leaves + 1 ≡ length (leaves ++ (e.commitment ∷ [])) =
      omega (arith, length-append leaves (e.commitment ∷ [])) in
    rw fits (
      append_events-Indexed l (leaves ++ (e.commitment ∷ [])) (found ++ (e.block ∷ []))
        (renumber _ _ l one_more h)
      ∙ simp append_assoc refl)

no_blocks : (l : List Event) → commitments l ≡ [] → blocks l ≡ []
no_blocks [] e = refl
no_blocks (x ∷ l) e = cc

module _ (emitted : List Event) (client : Client) where
  -- `getLogs` answers with the deposits of the blocks that it is asked for.
  abbrev pub AnswersLogs : Type 0
  AnswersLogs = (a b : ℕ) → client.get_logs a b ≡ some (span a (b + 1) emitted)

  fetch-logs_of : AnswersLogs → (l : List (ℕ × ℕ)) → fetch client l ≡ ok (logs_of emitted l)
  unfolding fetch
  fetch-logs_of answers [] = refl
  fetch-logs_of answers ((a, b) ∷ l) = rw (answers a b) (rw (fetch-logs_of answers l) refl)

  Tiles-span :
      (chunk from head : ℕ) (l : List (ℕ × ℕ))
      → Emitted 0 0 emitted
      → Tiles chunk from head l
      → logs_of emitted l ≡ span from (head + 1) emitted
  Tiles-span chunk from head [] e past = sym (span-past emitted from (head + 1) (omega arith))
  Tiles-span chunk from head ((a, b) ∷ l) e (is, ab, bh, short, rest) =
      ap (λ x. span a (b + 1) emitted ++ x) (Tiles-span chunk (b + 1) head l e rest)
      ∙ span-append emitted 0 0 a (b + 1) (head + 1) e (omega arith) (omega arith)
      ∙ ap (λ x. span x (head + 1) emitted) is

  -- what a cache is that can be extended or cut back
  pub record Synced (cache : LeafCache) : Type 0 where
    pub leaves_are : cache.leaves ≡ commitments (span 0 cache.scanned emitted)
    pub blocks_are :
        (cache.leaf_blocks ≡ some (blocks (span 0 cache.scanned emitted)))
        ⊎ ((cache.leaf_blocks ≡ none) × (cache.leaves ≡ []))

  blocks_or_last-are :
      (cache : LeafCache)
      → Synced cache
      → blocks_or_last cache ≡ blocks (span 0 cache.scanned emitted)
  blocks_or_last-are cache s = elim s.blocks_are [
    | inl is ↦ ap (λ o. or_else o (map (λ leaf. cache.scanned - 1) cache.leaves)) is
    | inr (without, empty) ↦
        ap (λ o. or_else o (map (λ leaf. cache.scanned - 1) cache.leaves)) without
        ∙ ap (map (λ leaf. cache.scanned - 1)) empty
        ∙ sym (no_blocks (span 0 cache.scanned emitted) (sym s.leaves_are ∙ empty))
  ]

  joined :
      {A : Type 0} (f : Event → A) (a c : ℕ)
      → Emitted 0 0 emitted
      → a ≤ c
      → map f (span 0 a emitted) ++ map f (span a c emitted) ≡ map f (span 0 c emitted)
  joined f a c e below =
      sym (map-append f (span 0 a emitted) (span a c emitted))
      ∙ ap (map f) (span-append emitted 0 0 0 a c e (omega arith) below)

  pub extend-complete :
      (arrival : List (ℕ × ℕ) → List (ℕ × ℕ)) (opts : SyncOptions) (head : ℕ) (cache : LeafCache)
      → Emitted 0 0 emitted
      → AnswersLogs
      → ((l : List (ℕ × ℕ)) → Finishes l (arrival l))
      → 0 < or_else opts.chunk 5000
      → Synced cache
      → cache.scanned ≤ head + 1
      → extend client arrival opts head cache ≡ ok (complete cache.pool cache.chain_id head emitted)
  unfolding extend
  extend-complete arrival opts head cache e answers finishes moves s below =
      let chunk = or_else opts.chunk 5000 in
      let from = cache.scanned in
      let asked = ranges (head + 1 - from) from head chunk in
      let tiles = ranges-Tiles (head + 1 - from) from head chunk moves (omega arith) in
      let new = span from (head + 1) emitted in
      let old = span 0 from emitted in
      let indexed : Indexed (length cache.leaves) new =
        renumber (0 + length old) (length cache.leaves) new
          (omega (arith, ap length s.leaves_are, length-map (λ (x : Event). x.commitment) old))
          (span-Indexed emitted 0 0 from (head + 1) e) in
      let sorted : sort_events (logs_of emitted (arrival asked)) ≡ new =
        sort_events-Finishes emitted (Emitted-Known emitted e) (finishes asked)
        ∙ ap sort_events (Tiles-span chunk from head asked e tiles)
        ∙ sort_events-Indexed new _ indexed in
      let appended : append_events (sort_events (logs_of emitted (arrival asked))) cache.leaves
            (blocks_or_last cache)
          ≡ ok (commitments (span 0 (head + 1) emitted), blocks (span 0 (head + 1) emitted)) =
        ap (λ l. append_events l cache.leaves (blocks_or_last cache)) sorted
        ∙ append_events-Indexed new cache.leaves (blocks_or_last cache) indexed
        ∙ ap (λ l. ok (l ++ commitments new, blocks_or_last cache ++ blocks new)) s.leaves_are
        ∙ ap (λ l. ok (commitments old ++ commitments new, l ++ blocks new))
            (blocks_or_last-are cache s)
        ∙ ap (λ l. ok (l, blocks old ++ blocks new))
            (joined (λ x. x.commitment) from (head + 1) e below)
        ∙ ap (λ l. ok (commitments (span 0 (head + 1) emitted), l))
            (joined (λ x. x.block) from (head + 1) e below) in
      rw (fetch-logs_of answers (arrival asked)) (rw appended refl)
