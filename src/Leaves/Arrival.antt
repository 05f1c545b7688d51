-- ===== src/Leaves/Arrival.antt =====
-- The order in which the workers' answers come does not matter.
use mathlib.Core.List.{append_assoc}
use tornado_4337_relayer.Base.{
  ℕ, ◌+◌, ◌≡◌, ◌∙◌, sym, ap, refl, arith, Bool, some, List, [], ◌∷◌, ◌++◌, All, filter, length,
  length-append, get_elem?, get_elem?_middle, inl, inr, Bool-cases,
}
use tornado_4337_relayer.Leaves.{Event, insert_event, sort_events}
use tornado_4337_relayer.Leaves.Spans.{Emitted, Indexed, span}

-- Of the requests that are pending, one ends first, then another, until none is left.
pub data Finishes {A : Type 0} : List A → List A → Type 0 where
  done : Finishes [] []
  next :
      {pending order : List A} (before after : List A) (x : A)
      → pending ≡ before ++ (x ∷ after)
      → Finishes (before ++ after) order
      → Finishes pending (x ∷ order)

-- `l` inserted into a list
abbrev onto : List Event → List Event → List Event
onto [] acc = acc
onto (a ∷ l) acc = insert_event a (onto l acc)

sort_events-append : (l m : List Event) → sort_events (l ++ m) ≡ onto l (sort_events m)
unfolding sort_events
sort_events-append [] m = refl
sort_events-append (a ∷ l) m = ap (insert_event a) (sort_events-append l m)

-- the events of the ranges, one range after the other
abbrev pub logs_of : List Event → List (ℕ × ℕ) → List Event
logs_of emitted [] = []
logs_of emitted ((from, to) ∷ rest) = span from (to + 1) emitted ++ logs_of emitted rest

logs_of-append :
    (emitted : List Event) (l m : List (ℕ × ℕ))
    → logs_of emitted (l ++ m) ≡ logs_of emitted l ++ logs_of emitted m
logs_of-append emitted [] m = refl
logs_of-append emitted ((from, to) ∷ l) m = simp (logs_of-append emitted l m, append_assoc) refl

All-append : {A : Type 0} (P : A → Type 0) (l m : List A) → All P l → All P m → All P (l ++ m)
All-append P [] m hl hm = hm
All-append P (x ∷ l) m (h, hl) hm = (h, All-append P l m hl hm)

All-filter :
    {A : Type 0} (P : A → Type 0) (q : A → Bool) (l : List A) → All P l → All P (filter q l)
All-filter P q [] h = tt
All-filter P q (x ∷ l) (h, hl) = elim (Bool-cases (q x)) [
  | inl is ↦ rw is (h, All-filter P q l hl)
  | inr other ↦ rw other (All-filter P q l hl)
]

-- An event stands in the list at its own index.
module _ (emitted : List Event) where
  abbrev pub Known : Event → Type 0
  Known e = get_elem? emitted e.leaf_index ≡ some e

  agree : (a b : Event) → Known a → Known b → a.leaf_index ≡ b.leaf_index → a ≡ b
  agree a b ka kb e = cc

  insert_comm :
      (a b : Event) (l : List Event)
      → Known a
      → Known b
      → insert_event a (insert_event b l) ≡ insert_event b (insert_event a l)
  unfolding insert_event
  insert_comm a b [] ka kb = ground (arith, agree a b ka kb)
  insert_comm a b (x ∷ l) ka kb = ground (arith, agree a b ka kb, insert_comm a b l ka kb)

  insert-onto :
      (a : Event) (l acc : List Event)
      → Known a
      → All Known l
      → insert_event a (onto l acc) ≡ onto l (insert_event a acc)
  insert-onto a [] acc ka h = refl
  insert-onto a (b ∷ l) acc ka (kb, h) =
      insert_comm a b (onto l acc) ka kb ∙ ap (insert_event b) (insert-onto a l acc ka h)

  onto_comm :
      (l m acc : List Event) → All Known l → All Known m → onto l (onto m acc) ≡ onto m (onto l acc)
  onto_comm [] m acc hl hm = refl
  onto_comm (a ∷ l) m acc (ka, hl) hm =
      ap (insert_event a) (onto_comm l m acc hl hm) ∙ insert-onto a m (onto l acc) ka hm

  logs_of-Known : All Known emitted → (l : List (ℕ × ℕ)) → All Known (logs_of emitted l)
  logs_of-Known h [] = tt
  logs_of-Known h ((from, to) ∷ l) =
      All-append Known (span from (to + 1) emitted) _ (All-filter Known _ emitted h)
        (logs_of-Known h l)

  -- Sorted by index, the events are the same in whatever order the requests end.
  pub sort_events-Finishes :
      {pending order : List (ℕ × ℕ)}
      → All Known emitted
      → Finishes pending order
      → sort_events (logs_of emitted order) ≡ sort_events (logs_of emitted pending)
  sort_events-Finishes known done = refl
  sort_events-Finishes known (next {pending} {order} before after (from, to) is rest) =
      let here = span from (to + 1) emitted in
      let b = logs_of emitted before in
      let a = logs_of emitted after in
      sort_events-append here (logs_of emitted order)
      ∙ ap (onto here) (sort_events-Finishes known rest)
      ∙ ap (λ x. onto here (sort_events x)) (logs_of-append emitted before after)
      ∙ ap (onto here) (sort_events-append b a)
      ∙ onto_comm here b (sort_events a) (All-filter Known _ emitted known)
          (logs_of-Known known before)
      ∙ ap (onto b) (sym (sort_events-append here a))
      ∙ sym (sort_events-append b (here ++ a))
      ∙ ap sort_events (sym (logs_of-append emitted before ((from, to) ∷ after)))
      ∙ ap (λ x. sort_events (logs_of emitted x)) (sym is)

  rest-Known :
      (before l : List Event) (n low : ℕ)
      → n ≡ length before
      → emitted ≡ before ++ l
      → Emitted n low l
      → All Known l
  rest-Known before [] n low c e h = tt
  rest-Known before (x ∷ l) n low c e (i, o, h) =
      let rest =
        rest-Known (before ++ (x ∷ [])) l (n + 1) x.block
          (omega (arith, length-append before (x ∷ []))) (e ∙ sym (append_assoc before (x ∷ []) l))
          h in
      (
        ap (λ y. get_elem? y x.leaf_index) e
            ∙ ap (get_elem? (before ++ (x ∷ l))) (i ∙ c)
            ∙ get_elem?_middle before x l,
        rest,
      )

  pub Emitted-Known : Emitted 0 0 emitted → All Known emitted
  Emitted-Known h = rest-Known [] emitted 0 0 refl refl h

-- What counts up is sorted.
pub sort_events-Indexed : (l : List Event) (n : ℕ) → Indexed n l → sort_events l ≡ l
unfolding sort_events insert_event
sort_events-Indexed [] n h = refl
sort_events-Indexed (a ∷ []) n h = refl
sort_events-Indexed (a ∷ (b ∷ l)) n (i, (j, h)) =
    ap (insert_event a) (sort_events-Indexed (b ∷ l) (n + 1) (j, h)) ∙ ground arith
