-- ===== src/Leaves/Forgets.antt =====
-- A cache from before `leafBlocks`, extended and then cut back.
use tornado_4337_relayer.Base.{
  ℕ, ◌+◌, ◌-◌, ◌≤◌, ◌<◌, ◌≡◌, refl, sym, ap, ◌∙◌, arith, true, false, not, none, some, List, [],
  ◌∷◌, ◌++◌, map, length, ltb, leb, ◌==◌, ok, err, >>=-eq-ok, throws-eq-ok, ok_injective,
}
use tornado_4337_relayer.UserOp.{or_else}
use tornado_4337_relayer.Leaves.{
  LeafCache, Event, SyncOptions, no_blocks_to_rewind, gap, Client, sort_events, append_events,
  rewind, fetch, blocks_or_last, extend,
}

-- What is appended to stays in front.
append_events-first :
    (l : List Event) (leaves rest found : List ℕ) (b : ℕ) {ls bs : List ℕ}
    → append_events l leaves (b ∷ rest) ≡ ok (ls, bs)
    → (more : List ℕ) × (bs ≡ b ∷ more)
unfolding append_events
append_events-first [] leaves rest found b e = (rest, ap (λ x. x.1) (sym (ok_injective _ _ e)))
append_events-first (x ∷ l) leaves rest found b e =
    let (passed, e1) =
      throws-eq-ok (not (x.leaf_index == length leaves)) (gap (length leaves) x.leaf_index) _ e in
    append_events-first l (leaves ++ (x.commitment ∷ [])) (rest ++ (x.block ∷ [])) found b e1

refuses :
    (earlier : ℕ) (c : LeafCache)
    → earlier + 1 < c.scanned
    → c.leaf_blocks ≡ none
    → rewind earlier c ≡ err no_blocks_to_rewind
unfolding rewind
refuses earlier c past without =
    let ahead : ltb (earlier + 1) c.scanned ≡ true = ground arith in simp (ahead, without) refl

empties :
    (earlier : ℕ) (c : LeafCache) (b : ℕ) (more : List ℕ)
    → c.leaf_blocks ≡ some (b ∷ more)
    → earlier + 1 < c.scanned
    → earlier < b
    → (cut : LeafCache) × (rewind earlier c ≡ ok cut)
      × (cut.leaves ≡ [])
      × (cut.scanned ≡ earlier + 1)
unfolding rewind
empties earlier c b more is past later =
    let ahead : ltb (earlier + 1) c.scanned ≡ true = ground arith in
    let dropped : leb b earlier ≡ false = ground arith in
    (
      record c { leaves = []; leaf_blocks = some []; scanned = earlier + 1 },
      simp (ahead, is, dropped) refl,
      refl,
      refl,
    )

-- A cache with leaves and without their blocks refuses to be cut back; but once it has been extended
-- it is cut back, without an error, to a cache that has no leaf at all.
pub extend-forgets :
    (client : Client) (arrival : List (ℕ × ℕ) → List (ℕ × ℕ)) (opts : SyncOptions)
    (head earlier leaf : ℕ) (leaves : List ℕ) (cache extended : LeafCache)
    → cache.leaves ≡ leaf ∷ leaves
    → cache.leaf_blocks ≡ none
    → earlier + 1 < cache.scanned
    → cache.scanned ≤ head + 1
    → extend client arrival opts head cache ≡ ok extended
    → (rewind earlier cache ≡ err no_blocks_to_rewind)
      × ((cut : LeafCache) × (rewind earlier extended ≡ ok cut)
          × (cut.leaves ≡ [])
          × (cut.scanned ≡ earlier + 1))
unfolding extend
extend-forgets client arrival opts head earlier leaf leaves cache extended has without past within
      e =
    let (events, fetched, e1) = >>=-eq-ok (fetch client _) _ e in
    let ((ls, bs), appended, e2) =
      >>=-eq-ok (append_events (sort_events events) cache.leaves (blocks_or_last cache)) _ e1 in
    let first : blocks_or_last cache ≡ (cache.scanned - 1) ∷ map (λ l. cache.scanned - 1) leaves =
      ap (λ o. or_else o (map (λ l. cache.scanned - 1) cache.leaves)) without
      ∙ ap (map (λ l. cache.scanned - 1)) has in
    let (more, starts) =
      append_events-first (sort_events events) cache.leaves (map (λ l. cache.scanned - 1) leaves)
        leaves (cache.scanned - 1)
        (ap (append_events (sort_events events) cache.leaves) (sym first) ∙ appended) in
    let done = ok_injective _ extended e2 in
    (
      refuses earlier cache past without,
      empties earlier extended (cache.scanned - 1) more
          (ap (λ (c : LeafCache). c.leaf_blocks) (sym done) ∙ ap some starts)
          (omega (arith, ap (λ (c : LeafCache). c.scanned) done)) (omega arith),
    )
