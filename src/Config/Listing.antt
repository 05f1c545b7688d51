-- ===== src/Config/Listing.antt =====
-- A list of addresses as the settings spell it.
use tornado_4337_relayer.Base.{
  ◌≡◌, ◌≢◌, refl, ap, ◌∙◌, Bool, true, false, some, List, [], ◌∷◌, ◌++◌, ◌==◌, ok, All, map, filter,
  ℕ,
}
use tornado_4337_relayer.Base.Text.{Text}
use tornado_4337_relayer.Base.Trim.{is_space, trim, split_text, NoSpace, trim-NoSpace}
use tornado_4337_relayer.Viem.{Viem, Address}
use tornado_4337_relayer.Config.{checked_address, addresses_of, entries_of}

-- no comma and no white space
pub record IsPlain (c : ℕ) : Type 0 where
  pub no_comma : (c == b',') ≡ false
  pub no_space : is_space c ≡ false

pub comma_separated : List Text → Text
comma_separated [] = []
comma_separated (w ∷ []) = w
comma_separated (w ∷ v ∷ ws) = w ++ (b',' ∷ comma_separated (v ∷ ws))

IsPlain-NoSpace : (w : Text) → All IsPlain w → NoSpace w
IsPlain-NoSpace [] h = tt
IsPlain-NoSpace (c ∷ w) (p, h) = (p.no_space, IsPlain-NoSpace w h)

split_last : (w : Text) → All IsPlain w → split_text b',' w ≡ w ∷ []
unfolding split_text
split_last [] h = refl
split_last (c ∷ w) (p, h) = rw (p.no_comma, split_last w h) refl

split_text-comma :
    (w rest : Text)
    → All IsPlain w
    → split_text b',' (w ++ (b',' ∷ rest)) ≡ w ∷ split_text b',' rest
unfolding split_text
split_text-comma [] rest h = refl
split_text-comma (c ∷ w) rest (p, h) = rw (p.no_comma, split_text-comma w rest h) refl

abbrev Word : Text → Type 0
Word w = All IsPlain w × (w ≢ [])

split_text-comma_separated :
    (w : Text) (ws : List Text)
    → All Word (w ∷ ws)
    → split_text b',' (comma_separated (w ∷ ws)) ≡ w ∷ ws
unfolding comma_separated
split_text-comma_separated w [] h = split_last w h.0.0
split_text-comma_separated w (v ∷ ws) (p, h) =
    split_text-comma w (comma_separated (v ∷ ws)) p.0
    ∙ ap (λ l. w ∷ l) (split_text-comma_separated v ws h)

abbrev is_filled : Text → Bool
is_filled s = elim s [ [] ↦ false | _ ∷ _ ↦ true ]

kept_word :
    (w : Text) (l : List Text)
    → w ≢ []
    → trim w ≡ w
    → filter is_filled (trim w ∷ l) ≡ w ∷ filter is_filled l
kept_word [] l ne e = absurd (ne refl)
kept_word (c ∷ w) l ne e = rw e refl

kept_words : (ws : List Text) → All Word ws → filter is_filled (map trim ws) ≡ ws
kept_words [] h = refl
kept_words (w ∷ ws) (p, h) =
    kept_word w (map trim ws) p.1 (trim-NoSpace w (IsPlain-NoSpace w p.0))
    ∙ ap (λ l. w ∷ l) (kept_words ws h)

entries_of-comma_separated : (ws : List Text) → All Word ws → entries_of (comma_separated ws) ≡ ws
unfolding entries_of
entries_of-comma_separated [] h = unfold comma_separated split_text trim in refl
entries_of-comma_separated (w ∷ ws) h =
    ap (λ l. filter is_filled (map trim l)) (split_text-comma_separated w ws h)
    ∙ kept_words (w ∷ ws) h

-- The library writes the address with neither a comma nor a space, and reads it back.
pub record IsSpelled (viem : Viem) (a : Address) : Type 0 where
  pub plain : All IsPlain (viem.address_text a)
  pub not_empty : viem.address_text a ≢ []
  pub is_address : viem.is_address (viem.address_text a) ≡ true
  pub read_back : viem.parse_address (viem.address_text a) ≡ some a

addresses-AreWords :
    (viem : Viem) (l : List Address) → All (IsSpelled viem) l → All Word (map viem.address_text l)
addresses-AreWords viem [] h = tt
addresses-AreWords viem (a ∷ l) (p, h) = ((p.plain, p.not_empty), addresses-AreWords viem l h)

addresses_of-map :
    (viem : Viem) (name : Text) (l : List Address)
    → All (IsSpelled viem) l
    → addresses_of viem name (map viem.address_text l) ≡ ok l
unfolding addresses_of checked_address
addresses_of-map viem name [] h = refl
addresses_of-map viem name (a ∷ l) (p, h) =
    rw (p.is_address, p.read_back, addresses_of-map viem name l h) refl

-- A list of addresses, written with commas between them, is read back as it was, entry by entry and
-- in its order; this is how the pools and the allowlist are set.
pub addresses_of-comma_separated :
    (viem : Viem) (name : Text) (l : List Address)
    → All (IsSpelled viem) l
    → addresses_of viem name (entries_of (comma_separated (map viem.address_text l))) ≡ ok l
addresses_of-comma_separated viem name l h =
    ap (addresses_of viem name)
      (entries_of-comma_separated (map viem.address_text l) (addresses-AreWords viem l h))
    ∙ addresses_of-map viem name l h
