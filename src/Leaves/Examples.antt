-- ===== src/Leaves/Examples.antt =====
-- Three deposits, scanned two blocks at a time by two workers.
use tornado_4337_relayer.Base.{ℕ, ◌+◌, ◌≡◌, refl, arith, none, some, List, [], ◌∷◌, ok, err}
use tornado_4337_relayer.Leaves.{
  LeafCache, Event, SyncOptions, Client, no_file, no_blocks_to_rewind, insert_event, sort_events,
  append_events, rewind, ranges, fetch, extend, sync_leaves,
}
use tornado_4337_relayer.Leaves.Ranges.{Tiles, ranges-Tiles}
use tornado_4337_relayer.Leaves.Spans.{Emitted, span}
use tornado_4337_relayer.Leaves.Arrival.{Finishes, done, next}
use tornado_4337_relayer.Leaves.Extended.{complete}
use tornado_4337_relayer.Leaves.Synced.{from_scratch, sync_leaves-complete}
use tornado_4337_relayer.Leaves.Forgets.{extend-forgets}

abbrev deposits : List Event
deposits =
    record { leaf_index = 0; commitment = 70; block = 3 }
    ∷ (record { leaf_index = 1; commitment = 71; block = 5 }
        ∷ (record { leaf_index = 2; commitment = 72; block = 6 } ∷ []))

abbrev node : Client
node = record {
  chain_id = some 1;
  block_number = some 7;
  get_logs = λ a b. some (span a (b + 1) deposits);
}

-- the second request ends before the first
abbrev second_first : List (ℕ × ℕ) → List (ℕ × ℕ)
second_first [] = []
second_first (x ∷ []) = x ∷ []
second_first (x ∷ (y ∷ l)) = y ∷ (x ∷ l)

in_order-Finishes : (l : List (ℕ × ℕ)) → Finishes l l
in_order-Finishes [] = done
in_order-Finishes (x ∷ l) = next [] l x refl (in_order-Finishes l)

second_first-Finishes : (l : List (ℕ × ℕ)) → Finishes l (second_first l)
second_first-Finishes [] = done
second_first-Finishes (x ∷ []) = in_order-Finishes (x ∷ [])
second_first-Finishes (x ∷ (y ∷ l)) =
    next (x ∷ []) l y refl (next [] l x refl (in_order-Finishes l))

abbrev options : SyncOptions
options = record {
  from_block = 3;
  chunk = some 2;
  cache_file = no_file;
  seed_file = no_file;
  to_block = none;
}

deposits-Emitted : Emitted 0 0 deposits
deposits-Emitted = omega arith

ranges-Tiles_example : Tiles 2 3 7 (ranges 5 3 7 2)
ranges-Tiles_example = ranges-Tiles 5 3 7 2 (omega arith) (omega arith)

splits : ranges 5 3 7 2 ≡ (3, 4) ∷ ((5, 6) ∷ ((7, 7) ∷ []))
unfolding ranges
splits = refl

sync_leaves-complete_example :
    sync_leaves node second_first 9 options ≡ ok (complete 9 1 7 deposits)
sync_leaves-complete_example =
    sync_leaves-complete deposits node second_first 9 1 7 options deposits-Emitted (λ a b. refl)
      second_first-Finishes refl refl (omega arith) (from_scratch refl refl refl (omega arith))

abbrev old_cache : LeafCache
old_cache = record {
  pool = 9;
  chain_id = 1;
  scanned = 6;
  leaves = 70 ∷ (71 ∷ []);
  leaf_blocks = none;
}

abbrev extended_cache : LeafCache
extended_cache = record {
  pool = 9;
  chain_id = 1;
  scanned = 8;
  leaves = 70 ∷ (71 ∷ (72 ∷ []));
  leaf_blocks = some (5 ∷ (5 ∷ (6 ∷ [])));
}

extends_old : extend node second_first options 7 old_cache ≡ ok extended_cache
unfolding extend fetch ranges sort_events insert_event append_events
extends_old = refl

-- Block 3 has a deposit, but the cache that is cut back to block 3 has none.
extend-forgets_example :
    (rewind 3 old_cache ≡ err no_blocks_to_rewind)
    × ((cut : LeafCache) × (rewind 3 extended_cache ≡ ok cut)
        × (cut.leaves ≡ [])
        × (cut.scanned ≡ 4))
extend-forgets_example =
    extend-forgets node second_first options 7 3 70 (71 ∷ []) old_cache extended_cache refl refl
      (omega arith) (omega arith) extends_old
