-- ===== src/Config/Startable.antt =====
-- What `create` demands of its configuration, and one from the environment gives.
use tornado_4337_relayer.Base.{
  ◌≡◌, ◌≢◌, ◌⊎◌, inl, inr, refl, sym, ap, ◌∙◌, true, false, not, Option, none, some, List, [], ◌∷◌,
  ok, or_throw, ◌>>=◌, throw_if, Option-cases, >>=-eq-ok, >>=-known, Bool-cases, ok_injective,
}
use tornado_4337_relayer.Base.Text.{Text, codes, text_eq, text_eq_iff}
use tornado_4337_relayer.Errors.{
  failure, no_implementations, bundler_url_missing, simulation_disabled,
}
use tornado_4337_relayer.Viem.{Address}
use tornado_4337_relayer.UserOp.{truthy, or_else}
use tornado_4337_relayer.Service.Start.{RelayerConfig, check_config}
use tornado_4337_relayer.Config.{Env, Host, empty_allowlist, env, addresses_of, entries_of}
use tornado_4337_relayer.Config.ForService.{
  Settings, simple_7702_account, refused_simulation, listed_implementations,
  allowed_sender_implementations_from_env, config_from_env,
}
use tornado_4337_relayer.Config.Chosen.{named, aliased, default, env_iff}
use tornado_4337_relayer.Config.Read.{config-Read}

-- the list is the default one, or what the setting names
abbrev pub FromSetting : Host → Env → List Address → Type 0
FromSetting host process list =
    ((process (codes "ALLOWED_SENDER_IMPLEMENTATIONS") ≡ none) × (list ≡ simple_7702_account ∷ []))
    ⊎ ((raw : Text) × (process (codes "ALLOWED_SENDER_IMPLEMENTATIONS") ≡ some raw)
        × (addresses_of host.viem (codes "ALLOWED_SENDER_IMPLEMENTATIONS") (entries_of raw)
            ≡ ok list))

abbrev pub NotAskedToSkip : Option Text → Type 0
NotAskedToSkip simulate =
    (simulate ≡ none) ⊎ ((simulate ≡ some []) ⊎ (simulate ≡ some (codes "true")))

pub record Startable (host : Host) (process : Env) (s : Settings) : Type 0 where
  pub list : List Address
  pub not_empty : list ≢ []
  pub from_setting : FromSetting host process list
  pub not_asked : NotAskedToSkip (process (codes "SIMULATE_WITH_BUNDLER"))
  pub passes : check_config s.config ≡ ok list

refused-NotAskedToSkip : (o : Option Text) → refused_simulation o ≡ none → NotAskedToSkip o
unfolding refused_simulation
refused-NotAskedToSkip none e = inl refl
refused-NotAskedToSkip (some []) e = inr (inl refl)
refused-NotAskedToSkip (some (c ∷ s)) e = elim (Bool-cases (text_eq (c ∷ s) (codes "true"))) [
  | inl same ↦ inr (inr (ap some ((text_eq_iff (c ∷ s) (codes "true")).0 same)))
  | inr other ↦ cc (rw other at e)
]

-- A setting with no fallback is not empty.
env-truthy : (process : Env) (name v : Text) → env process name none ≡ ok v → truthy (some v) ≡ true
env-truthy process name v e = elim ((env_iff process name none v).0 e) [
  | named is ne ↦ not_empty v ne
  | aliased alias b known is ne ↦ not_empty v ne
  | default b n is ↦ cc
]
  where
    not_empty : (v : Text) → v ≢ [] → truthy (some v) ≡ true
    not_empty [] ne = absurd (ne refl)
    not_empty (c ∷ s) ne = refl

listed :
    (host : Host) (raw : Text) (list : List Address)
    → listed_implementations host.viem raw ≡ ok list
    → (list ≢ [])
      × (addresses_of host.viem (codes "ALLOWED_SENDER_IMPLEMENTATIONS") (entries_of raw) ≡ ok list)
unfolding listed_implementations
listed host raw list e =
    let (l, read, e1) =
      >>=-eq-ok (addresses_of host.viem (codes "ALLOWED_SENDER_IMPLEMENTATIONS") (entries_of raw)) _
        e in
    some_listed l read e1
  where
    some_listed :
        (l : List Address)
        → addresses_of host.viem (codes "ALLOWED_SENDER_IMPLEMENTATIONS") (entries_of raw) ≡ ok l
        → (throw_if (elim l [ [] ↦ true | _ ∷ _ ↦ false ]) empty_allowlist >>= λ u. ok l) ≡ ok list
        → (list ≢ [])
          × (addresses_of host.viem (codes "ALLOWED_SENDER_IMPLEMENTATIONS") (entries_of raw)
              ≡ ok list)
    some_listed [] read e1 = cc
    some_listed (a ∷ l) read e1 = (λ no_entry. cc, read ∙ e1)

allowed-FromSetting :
    (host : Host) (process : Env) (list : List Address)
    → allowed_sender_implementations_from_env host process ≡ ok list
    → (list ≢ []) × FromSetting host process list
unfolding allowed_sender_implementations_from_env
allowed-FromSetting host process list e =
    elim (Option-cases (process (codes "ALLOWED_SENDER_IMPLEMENTATIONS"))) [
      | inl unset ↦
          let default_list =
            ok_injective (simple_7702_account ∷ []) list
              (rw (unset, allowed_sender_implementations_from_env) at e) in
          (λ none_there. cc, inl (unset, sym default_list))
      | inr (raw, is) ↦
          let (ne, read) =
            listed host raw list (rw (is, allowed_sender_implementations_from_env) at e) in
          (ne, inr (raw, is, read))
    ]

passes-check :
    (cfg : RelayerConfig) (list : List Address)
    → cfg.allowed_sender_implementations ≡ some list
    → list ≢ []
    → cfg.has_bundler_url ≡ true
    → cfg.simulate_with_bundler ≡ none
    → check_config cfg ≡ ok list
unfolding check_config
passes-check cfg [] given ne bundler simulates = absurd (ne refl)
passes-check cfg (a ∷ l) given ne bundler simulates =
    >>=-known (or_throw cfg.allowed_sender_implementations (failure no_implementations)) _
      (ap (λ o. or_throw o (failure no_implementations)) given)
    ∙ >>=-known (throw_if (not cfg.has_bundler_url) (failure bundler_url_missing)) _
        (ap (λ b. throw_if (not b) (failure bundler_url_missing)) bundler)
    ∙ >>=-known
        (throw_if (not (or_else cfg.simulate_with_bundler true)) (failure simulation_disabled)) _
        (ap (λ o. throw_if (not (or_else o true)) (failure simulation_disabled)) simulates)

-- A configuration from the environment passes every check that `create` makes before it reads the
-- chain. What it restricts the senders to is never empty: it is the canonical account if the setting
-- is not there, and otherwise the addresses that the setting lists; and an environment that asks to
-- skip the simulation gives no configuration.
pub config_from_env-Startable :
    (host : Host) (process : Env) (paymaster : Address) (s : Settings)
    → config_from_env host process paymaster ≡ ok s
    → Startable host process s
config_from_env-Startable host process paymaster s e =
    let r = config-Read host process paymaster s e in
    let (ne, from) = allowed-FromSetting host process r.list r.list_read in
    record {
      list = r.list;
      not_empty = ne;
      from_setting = from;
      not_asked = refused-NotAskedToSkip _ r.simulate_read;
      passes =
          passes-check s.config r.list r.list_is ne
            (r.bundler_is ∙ env-truthy process (codes "BUNDLER_URL") s.bundler_url r.bundler_read)
            r.simulates;
    }
