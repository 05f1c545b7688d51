-- ===== src/Config/Chosen.antt =====
-- Which setting `env` returns.
use tornado_4337_relayer.Base.{
  ◌≡◌, ◌≢◌, ◌↔◌, refl, ap, ◌∙◌, or_throw, or_throw-eq-ok, Option, none, some, [], ◌∷◌, ok,
}
use tornado_4337_relayer.Base.Text.{Text}
use tornado_4337_relayer.Config.{Env, missing_env, alias_of, filled, alias_value, env_or, env}

-- unset or empty
pub data Blank : Option Text → Type 0 where
  unset : Blank none
  empty : Blank (some [])

-- the alias, where there is one, is blank
pub data NoAlias (process : Env) : Option Text → Type 0 where
  no_alias : NoAlias process none
  blank_alias : {alias : Text} → Blank (process alias) → NoAlias process (some alias)

pub data Chosen (process : Env) (name : Text) (fallback : Option Text) (v : Text) : Type 0 where
  named : process name ≡ some v → v ≢ [] → Chosen process name fallback v
  aliased :
      (alias : Text)
      → Blank (process name)
      → alias_of name ≡ some alias
      → process alias ≡ some v
      → v ≢ []
      → Chosen process name fallback v
  default :
      Blank (process name)
      → NoAlias process (alias_of name)
      → fallback ≡ some v
      → Chosen process name fallback v

filled-Blank : (o : Option Text) → filled o ≡ none → Blank o
unfolding filled
filled-Blank none e = unset
filled-Blank (some []) e = empty
filled-Blank (some (c ∷ s)) e = cc

Blank-filled : (o : Option Text) → Blank o → filled o ≡ none
unfolding filled
Blank-filled none b = refl
Blank-filled (some []) b = refl
Blank-filled (some (c ∷ s)) b = elim b [ ]

filled-eq-some : (o : Option Text) (v : Text) → filled o ≡ some v → (o ≡ some v) × (v ≢ [])
unfolding filled
filled-eq-some none v e = cc
filled-eq-some (some []) v e = cc
filled-eq-some (some (c ∷ s)) v e = (e, λ no. cc)

some-filled : (o : Option Text) (v : Text) → o ≡ some v → v ≢ [] → filled o ≡ some v
unfolding filled
some-filled none v e ne = cc
some-filled (some []) v e ne = absurd (ne (cc))
some-filled (some (c ∷ s)) v e ne = e

alias-NoAlias : (process : Env) (o : Option Text) → alias_value process o ≡ none → NoAlias process o
unfolding alias_value
alias-NoAlias process none e = no_alias
alias-NoAlias process (some alias) e = blank_alias (filled-Blank (process alias) e)

NoAlias-alias : (process : Env) (o : Option Text) → NoAlias process o → alias_value process o ≡ none
unfolding alias_value
NoAlias-alias process none h = refl
NoAlias-alias process (some alias) (blank_alias b) = Blank-filled (process alias) b

alias-eq-some :
    (process : Env) (o : Option Text) (v : Text)
    → alias_value process o ≡ some v
    → (alias : Text) × (o ≡ some alias) × (process alias ≡ some v) × (v ≢ [])
unfolding alias_value
alias-eq-some process none v e = cc
alias-eq-some process (some alias) v e =
    let (is, ne) = filled-eq-some (process alias) v e in (alias, refl, is, ne)

module _ (process : Env) (name : Text) (fallback : Option Text) (v : Text) where
  -- from the two lookups
  chosen :
      (first aliased_value : Option Text)
      → filled (process name) ≡ first
      → alias_value process (alias_of name) ≡ aliased_value
      → env_or name first aliased_value fallback ≡ ok v
      → Chosen process name fallback v
  unfolding env_or
  chosen (some w) second f a e =
      let (is, ne) = filled-eq-some (process name) v (f ∙ cc) in named is ne
  chosen none (some w) f a e =
      let (alias, known, is, ne) = alias-eq-some process (alias_of name) v (a ∙ cc) in
      aliased alias (filled-Blank (process name) f) known is ne
  chosen none none f a e =
      default (filled-Blank (process name) f) (alias-NoAlias process (alias_of name) a)
        (or_throw-eq-ok fallback (missing_env name) e)

  found : Chosen process name fallback v → env process name fallback ≡ ok v
  unfolding env env_or alias_value
  found (named is ne) =
      ap (λ o. env_or name o (alias_value process (alias_of name)) fallback)
        (some-filled (process name) v is ne)
  found (aliased alias b known is ne) =
      ap (λ o. env_or name o (alias_value process (alias_of name)) fallback)
        (Blank-filled (process name) b)
      ∙ ap (λ o. env_or name none (alias_value process o) fallback) known
      ∙ ap (λ o. env_or name none o fallback) (some-filled (process alias) v is ne)
  found (default b none_there is) =
      ap (λ o. env_or name o (alias_value process (alias_of name)) fallback)
        (Blank-filled (process name) b)
      ∙ ap (λ o. env_or name none o fallback) (NoAlias-alias process (alias_of name) none_there)
      ∙ ap (λ o. or_throw o (missing_env name)) is

  -- `env` returns a value exactly when it is the first of these that is there and, but for the
  -- fallback, not empty: the variable, the alias of its name in the classic relayer, the fallback.
  pub env_iff : (env process name fallback ≡ ok v) ↔ Chosen process name fallback v
  unfolding env
  env_iff =
      (λ e. chosen (filled (process name)) (alias_value process (alias_of name)) refl refl e, found)
