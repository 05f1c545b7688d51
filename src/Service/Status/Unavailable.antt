-- ===== src/Service/Status/Unavailable.antt =====
-- Which values of the status are null, and that `unavailable` names them.
use tornado_4337_relayer.Base.{
  ℕ, ◌≡◌, sym, ◌∙◌, ◌⊎◌, ◌↔◌, inl, inr, refl, arith, true, false, ◌||◌, Option, none, some, List,
  [], any, Bool-cases,
}
use tornado_4337_relayer.Base.Text.{Text, text_key}
use tornado_4337_relayer.Base.Dict
use tornado_4337_relayer.Store.{Store, GasCost, outstanding, committed_gas_cost, prune}
use tornado_4337_relayer.Service.{Mode, master, worker, unregistered, no_router}
use tornado_4337_relayer.Service.Registry.{RegistryInfo}
use tornado_4337_relayer.Service.Start.{Started}
use tornado_4337_relayer.Service.Status.Parts.{
  is_price, eth_prices-Unnamed, attempt-other, committed-other, parts, attempt-own, committed-own,
  attempt-unpriced, unpriced_parts,
}
use tornado_4337_relayer.Service.Status.Prices.{
  same_field, Names, any-append, is_some, lacks_price, has_price, named-eth_prices,
  shown-eth_prices,
}
use tornado_4337_relayer.Service.Status.{
  Answers, Field, checked_at_block, deposit_wei, stake_wei, registry, committed_wei, eth_price,
  attempt, committed_field, option_map, is_no_router, registry_read, registry_now, live_state,
  eth_prices, status_of, Status, status,
}

module _ (s : Started) (now : Answers) (time : ℕ) (store : Store) where
  abbrev st : Status
  st = (status s now time store).0

  -- A value of the registry that is null, and why.
  abbrev pub RegistryNull : {A : Type 0} → Option A → List Field → Type 0
  RegistryNull value unavailable =
      (value ≡ none) ↔ (Names unavailable registry ⊎ (s.registry.mode ≡ no_router))

  -- Each null is named, and what is named is null; but where the start has seen no router, the
  -- values of the registry are null and not named.
  pub record Explained (st : Status) : Type 0 where
    pub block : (st.checked_at_block ≡ none) ↔ Names st.unavailable checked_at_block
    pub deposit : (st.wei ≡ none) ↔ Names st.unavailable deposit_wei
    pub stake : (st.stake_wei ≡ none) ↔ Names st.unavailable stake_wei
    pub committed : (st.committed_wei ≡ none) ↔ Names st.unavailable committed_wei
    pub mode : RegistryNull st.mode st.unavailable
    pub master : RegistryNull st.master st.unavailable
    pub registry_stake : RegistryNull st.stake st.unavailable
    pub min_stake : RegistryNull st.min_stake st.unavailable
    pub burn_per_withdraw : RegistryNull st.burn_per_withdraw st.unavailable
    pub registered : RegistryNull st.registered st.unavailable
    -- a price is named exactly if a token pool of its symbol has none, and is there exactly if one has
    pub price_named :
        (symbol : Text)
        → Names st.unavailable (eth_price symbol)
          ↔ (any (lacks_price now symbol) (Dict.values s.service.instances) ≡ true)
    pub price_shown :
        (symbol : Text)
        → is_some (Dict.get st.eth_prices symbol)
          ≡ any (has_price now symbol) (Dict.values s.service.instances)

  missing : List Field
  missing = (registry_read s now).1

  missing-other :
      (f : Field)
      → is_price f ≡ false
      → same_field f registry ≡ false
      → any (same_field f) missing ≡ false
  unfolding missing
  missing-other f other e = elim (Bool-cases (is_no_router s.registry.mode)) [
    | inl off ↦ rw (missing, off) refl
    | inr on ↦ rw (missing, on) (attempt-other f other registry (registry_now s now) e)
  ]

  no_router_iff : (m : Mode) → (is_no_router m ≡ true) ↔ (m ≡ no_router)
  no_router_iff no_router = ((λ h. refl), λ h. refl)
  no_router_iff unregistered = ((λ h. cc), λ h. cc)
  no_router_iff master = ((λ h. cc), λ h. cc)
  no_router_iff worker = ((λ h. cc), λ h. cc)

  missing-own :
      ((registry_read s now).0 ≡ none) ↔ (Names missing registry ⊎ (s.registry.mode ≡ no_router))
  unfolding missing
  missing-own = elim (Bool-cases (is_no_router s.registry.mode)) [
    | inl off ↦ ((λ h. inr ((no_router_iff s.registry.mode).0 off)), λ h. rw off refl)
    | inr on ↦
        let own = attempt-own registry (registry_now s now) refl in
        rw (missing, on)
          (
            (λ h. inl (own.0 h)),
            (λ h. elim h [
              | inl named ↦ own.1 named
              | inr is ↦ absurd (cc ((no_router_iff s.registry.mode).1 is))
            ]),
          )
  ]

  mapped_none :
      {A : Type 0} (f : RegistryInfo → A) (o : Option RegistryInfo)
      → (option_map f o ≡ none) ↔ (o ≡ none)
  mapped_none f none = ((λ h. refl), λ h. refl)
  mapped_none f (some r) = ((λ h. cc), λ h. cc)

  live_committed : GasCost
  live_committed = committed_gas_cost (outstanding (now.meanwhile (prune store time)) time)

  -- one test of `unavailable`
  named_in :
      (f : Field)
      → is_price f ≡ false
      → any (same_field f) st.unavailable ≡ (
          any (same_field f) (attempt checked_at_block now.block_number)
          || (any (same_field f) (attempt deposit_wei now.deposit_wei)
              || (any (same_field f) (attempt stake_wei now.stake_wei)
                  || (any (same_field f) missing
                      || any (same_field f) (committed_field live_committed)))))
  unfolding status status_of live_state missing live_committed
  named_in f other =
      parts f other (attempt checked_at_block now.block_number)
        (attempt deposit_wei now.deposit_wei) (attempt stake_wei now.stake_wei) missing
        (committed_field live_committed) _
        (eth_prices-Unnamed f other now (Dict.values s.service.instances)
          (record { prices = []; failed = [] }) refl)

  registry_null :
      {A : Type 0} (f : RegistryInfo → A)
      → RegistryNull (option_map f ((registry_read s now).0)) st.unavailable
  registry_null f = ground (
    arith,
    named_in registry refl,
    mapped_none f ((registry_read s now).0),
    missing-own,
    attempt-other registry refl checked_at_block now.block_number refl,
    attempt-other registry refl deposit_wei now.deposit_wei refl,
    attempt-other registry refl stake_wei now.stake_wei refl,
    committed-other registry refl live_committed refl,
  )

  missing-unpriced : (symbol : Text) → any (same_field (eth_price symbol)) missing ≡ false
  unfolding missing
  missing-unpriced symbol = elim (Bool-cases (is_no_router s.registry.mode)) [
    | inl off ↦ rw (missing, off) refl
    | inr on ↦ rw (missing, on) (attempt-unpriced symbol registry (registry_now s now) refl)
  ]

  -- none of the values that are not prices is taken for one
  live-unpriced :
      (symbol : Text)
      → any
          (same_field (eth_price symbol))
          (live_state s now time (now.meanwhile (prune store time))).unavailable
        ≡ false
  unfolding live_state live_committed missing
  live-unpriced symbol =
      unpriced_parts symbol now.block_number now.deposit_wei now.stake_wei missing live_committed
        (missing-unpriced symbol)

  named_price :
      (symbol : Text)
      → any (same_field (eth_price symbol)) st.unavailable
        ≡ any (lacks_price now symbol) (Dict.values s.service.instances)
  unfolding status status_of
  named_price symbol = ground (
    arith,
    any-append (same_field (eth_price symbol))
        (live_state s now time (now.meanwhile (prune store time))).unavailable
        (eth_prices now (Dict.values s.service.instances)
          (record { prices = []; failed = [] })).failed,
    live-unpriced symbol,
    named-eth_prices now symbol (Dict.values s.service.instances)
        (record { prices = []; failed = [] }),
  )

  -- Each null is named in `unavailable`, and what is named there is null; only where the start has
  -- seen no router are the values of the registry null and not named. A price is named there exactly
  -- if some served token pool of its symbol could not be priced, and is shown exactly if some could.
  pub status-Explained : Explained st
  unfolding status status_of live_state live_committed missing Dict.get
  status-Explained = record {
    block = ground (
      arith,
      named_in checked_at_block refl,
      attempt-own checked_at_block now.block_number refl,
      attempt-other checked_at_block refl deposit_wei now.deposit_wei refl,
      attempt-other checked_at_block refl stake_wei now.stake_wei refl,
      missing-other checked_at_block refl refl,
      committed-other checked_at_block refl live_committed refl,
    );
    deposit = ground (
      arith,
      named_in deposit_wei refl,
      attempt-own deposit_wei now.deposit_wei refl,
      attempt-other deposit_wei refl checked_at_block now.block_number refl,
      attempt-other deposit_wei refl stake_wei now.stake_wei refl,
      missing-other deposit_wei refl refl,
      committed-other deposit_wei refl live_committed refl,
    );
    stake = ground (
      arith,
      named_in stake_wei refl,
      attempt-own stake_wei now.stake_wei refl,
      attempt-other stake_wei refl checked_at_block now.block_number refl,
      attempt-other stake_wei refl deposit_wei now.deposit_wei refl,
      missing-other stake_wei refl refl,
      committed-other stake_wei refl live_committed refl,
    );
    committed = ground (
      arith,
      named_in committed_wei refl,
      committed-own live_committed,
      attempt-other committed_wei refl checked_at_block now.block_number refl,
      attempt-other committed_wei refl deposit_wei now.deposit_wei refl,
      attempt-other committed_wei refl stake_wei now.stake_wei refl,
      missing-other committed_wei refl refl,
    );
    mode = registry_null (λ (r : RegistryInfo). r.mode);
    master = registry_null (λ (r : RegistryInfo). r.master_of);
    registry_stake = registry_null (λ (r : RegistryInfo). r.stake);
    min_stake = registry_null (λ (r : RegistryInfo). r.min_stake);
    burn_per_withdraw = registry_null (λ (r : RegistryInfo). r.burn_per_withdraw);
    price_named = λ symbol. (λ h. sym (named_price symbol) ∙ h, λ h. named_price symbol ∙ h);
    price_shown = λ symbol.
        shown-eth_prices now symbol (Dict.values s.service.instances)
          (record { prices = []; failed = [] });
    registered = registry_null (λ (r : RegistryInfo).
        (live_state s now time (now.meanwhile (prune store time))).registration_current);
  }
