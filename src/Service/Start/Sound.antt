-- ===== src/Service/Start/Sound.antt =====
-- What a service that has started is.
use tornado_4337_relayer.Base.{
  ℕ, ◌≡◌, ◌≢◌, inl, refl, ap, ◌∙◌, arith, Bool, true, false, not, Option, none, some, List, [], ◌∷◌,
  ◌==◌, ok, or_throw, or_throw-eq-ok, throw_if, >>=-eq-ok, ok_injective, address_key,
}
use mathlib.Core.Path.{subst}
use tornado_4337_relayer.Base.Dict
use tornado_4337_relayer.Base.Dict.{Dict}
use tornado_4337_relayer.Errors.{
  Error, failure, thrown, no_implementations, bundler_url_missing, simulation_disabled, wrong_chain,
  wrong_entry_point, wrong_signer,
}
use tornado_4337_relayer.Viem.{Address}
use tornado_4337_relayer.UserOp.{or_else}
use tornado_4337_relayer.Service.{
  Service, InstanceInfo, Mode, master, worker, unregistered, no_router,
}
use tornado_4337_relayer.Service.Registry.{RegistryInfo, probe_registry}
use tornado_4337_relayer.Service.Registry.Probed.{Listed, Probed, probe_registry-Probed}
use tornado_4337_relayer.Service.Start.{
  RelayerConfig, Chain, Started, check_config, check_paymaster_contract, read_instances, check_mode,
  service_of, create,
}
use tornado_4337_relayer.Service.Start.Pools.{
  AllPools, Served, empty-AllPools, served-Listed, read_instances-AllPools, read_instances-Served,
}

module _ (cfg : RelayerConfig) (chain : Chain) where
  -- the two configurations that would widen what is sponsored are refused
  pub record Restricted (list : List Address) : Type 0 where
    pub given : cfg.allowed_sender_implementations ≡ some list
    pub not_empty : list ≢ []
    pub has_bundler : cfg.has_bundler_url ≡ true
    pub simulates : cfg.simulate_with_bundler ≢ some false

  pub record Bound (margin : ℕ) (router : Address) : Type 0 where
    pub same_chain : chain.chain_id ≡ some cfg.chain_id
    pub same_entry_point : chain.entry_point ≡ some cfg.entry_point
    pub same_signer : chain.verifying_signer ≡ some cfg.signer
    pub margin_read : chain.gas_margin_bps ≡ some margin
    pub overhead : ℕ
    pub overhead_read : chain.post_op_gas_overhead ≡ some overhead
    pub router_read : chain.router ≡ some router

  abbrev pub reward_account : Address
  reward_account = or_else cfg.reward_account cfg.paymaster

  -- Without a router the reward account is the paymaster; an unregistered paymaster is allowed on
  -- request only; a registered one is resolved to the reward account.
  abbrev pub Fits : RegistryInfo → Mode → Type 0
  Fits registry no_router = reward_account ≡ cfg.paymaster
  Fits registry unregistered = cfg.allow_unregistered ≡ true
  Fits registry master = registry.master_of ≡ reward_account
  Fits registry worker = registry.master_of ≡ reward_account

  listed :
      (l : List Address)
      → throw_if (elim l [ [] ↦ true | _ ∷ _ ↦ false ]) (failure no_implementations) ≡ ok tt
      → l ≢ []
  listed [] e = λ same. cc
  listed (a ∷ l) e = λ same. cc

  on_by :
      (o : Option Bool)
      → throw_if (not (or_else o true)) (failure simulation_disabled) ≡ ok tt
      → o ≢ some false
  on_by none e = λ same. cc
  on_by (some b) e = λ same. ground arith

  config-Restricted : (list : List Address) → check_config cfg ≡ ok list → Restricted list
  unfolding check_config
  config-Restricted list e =
      let (l, given, e1) =
        >>=-eq-ok (or_throw cfg.allowed_sender_implementations (failure no_implementations)) _ e in
      let (u, some_listed, e2) =
        >>=-eq-ok (throw_if (elim l [ [] ↦ true | _ ∷ _ ↦ false ]) (failure no_implementations)) _
          e1 in
      let (u1, bundler, e3) =
        >>=-eq-ok (throw_if (not cfg.has_bundler_url) (failure bundler_url_missing)) _ e2 in
      let (u2, simulates, e4) =
        >>=-eq-ok
          (throw_if (not (or_else cfg.simulate_with_bundler true)) (failure simulation_disabled)) _
          e3 in
      subst Restricted (ok_injective l list e4) (record {
        given = or_throw-eq-ok _ (failure no_implementations) given;
        not_empty = listed l some_listed;
        has_bundler = ground arith;
        simulates = on_by cfg.simulate_with_bundler simulates;
      })

  same : (a b : ℕ) (e : Error) {u : Unit {0}} → throw_if (not (a == b)) e ≡ ok u → a ≡ b
  same a b e h = ground arith

  contract-Bound :
      (margin : ℕ) (router : Address)
      → check_paymaster_contract cfg chain ≡ ok (margin, router)
      → Bound margin router
  unfolding check_paymaster_contract
  contract-Bound margin router e =
      let (c, read1, e1) = >>=-eq-ok (or_throw chain.chain_id (failure thrown)) _ e in
      let (u, g1, e2) =
        >>=-eq-ok (throw_if (not (c == cfg.chain_id)) (failure (wrong_chain c))) _ e1 in
      let (p, read2, e3) = >>=-eq-ok (or_throw chain.entry_point (failure thrown)) _ e2 in
      let (v, read3, e4) = >>=-eq-ok (or_throw chain.verifying_signer (failure thrown)) _ e3 in
      let (g, read4, e5) = >>=-eq-ok (or_throw chain.gas_margin_bps (failure thrown)) _ e4 in
      let (o, read5, e6) = >>=-eq-ok (or_throw chain.post_op_gas_overhead (failure thrown)) _ e5 in
      let (r, read6, e7) = >>=-eq-ok (or_throw chain.router (failure thrown)) _ e6 in
      let (u1, g2, e8) =
        >>=-eq-ok (throw_if (not (p == cfg.entry_point)) (failure (wrong_entry_point p))) _ e7 in
      let (u2, g3, e9) =
        >>=-eq-ok (throw_if (not (v == cfg.signer)) (failure (wrong_signer v))) _ e8 in
      let both = ok_injective (g, r) (margin, router) e9 in
      record {
        same_chain = or_throw-eq-ok _ (failure thrown) read1 ∙ ap some (same c _ _ g1);
        same_entry_point = or_throw-eq-ok _ (failure thrown) read2 ∙ ap some (same p _ _ g2);
        same_signer = or_throw-eq-ok _ (failure thrown) read3 ∙ ap some (same v _ _ g3);
        margin_read = or_throw-eq-ok _ (failure thrown) read4 ∙ ap (λ x. some (x.0)) both;
        overhead = o;
        overhead_read = or_throw-eq-ok _ (failure thrown) read5;
        router_read = or_throw-eq-ok _ (failure thrown) read6 ∙ ap (λ x. some (x.1)) both;
      }

  mode-Fits :
      (registry : RegistryInfo) (mode : Mode)
      → check_mode cfg registry reward_account mode ≡ ok tt
      → Fits registry mode
  unfolding check_mode
  mode-Fits registry no_router e = ground arith
  mode-Fits registry unregistered e = ground arith
  mode-Fits registry master e = ground arith
  mode-Fits registry worker e = ground arith

  pub record Sound (s : Started) : Type 0 where
    pub list : List Address
    pub margin : ℕ
    pub router : Address
    pub restricted : Restricted list
    pub bound : Bound margin router
    pub service_is : s.service ≡ record {
      chain_id = cfg.chain_id;
      has_bundler = cfg.has_bundler_url;
      entry_point = cfg.entry_point;
      paymaster = cfg.paymaster;
      reward_account = reward_account;
      allowed_sender_implementations = list;
      instances = s.service.instances;
      service_fee_bps = cfg.service_fee_bps;
      signature_ttl_sec = cfg.signature_ttl_sec;
      min_deposit_wei = cfg.min_deposit_wei;
      max_sponsorship_gas_wei = cfg.max_sponsorship_gas_wei;
      gas_price_margin_bps = cfg.gas_price_margin_bps;
      gas_margin_bps = margin;
      mode = s.registry.mode;
    }
    pub pools : AllPools cfg chain s.service.instances
    pub served : (a : Address) → Listed a cfg.instances → Served cfg chain s.service.instances a
    pub only_configured :
        (a : Address) (info : InstanceInfo)
        → Dict.get s.service.instances a ≡ some info
        → Listed a cfg.instances
    pub probed : Probed chain.dao cfg.paymaster router (Dict.keys s.service.instances) s.registry
    pub fits : Fits s.registry s.registry.mode

  -- A start that returns has had an allowlist with an entry, a bundler and no request to skip the
  -- simulation; the chain, the EntryPoint and the key are the configured ones; exactly the
  -- configured pools are served, each an ETH pool only if its `token()` reverted or answered zero,
  -- and a token pool with a price; every value of the registry was answered (the paymaster's master,
  -- its stake and ENS hash, the minimum stake, the fee manager and, where there is one, each burn);
  -- the registration fits the reward account; and the service
  -- has the other values of the configuration, the list and the paymaster's gas margin.
  pub create-Sound : (s : Started) → create cfg chain ≡ ok s → Sound s
  unfolding create service_of
  create-Sound s e =
      let (list, checked, e1) = >>=-eq-ok (check_config cfg) _ e in
      let ((margin, router), bound, e2) = >>=-eq-ok (check_paymaster_contract cfg chain) _ e1 in
      let (instances, read, e3) = >>=-eq-ok (read_instances cfg chain cfg.instances []) _ e2 in
      let (registry, probed, e4) =
        >>=-eq-ok (probe_registry chain.dao cfg.paymaster router (Dict.keys instances)) _ e3 in
      let (u, fits, e5) = >>=-eq-ok (check_mode cfg registry reward_account registry.mode) _ e4 in
      subst Sound (ok_injective _ s e5) (record {
        list = list;
        margin = margin;
        router = router;
        restricted = config-Restricted list checked;
        bound = contract-Bound margin router bound;
        service_is = refl;
        pools =
            read_instances-AllPools cfg chain cfg.instances [] instances read
              (empty-AllPools cfg chain);
        served = λ a h. read_instances-Served cfg chain cfg.instances [] instances a read (inl h);
        only_configured =
            λ a info is. served-Listed cfg chain cfg.instances instances a info read is;
        probed =
            probe_registry-Probed chain.dao cfg.paymaster router (Dict.keys instances) registry
              probed;
        fits = mode-Fits registry registry.mode fits;
      })

  pub same_mode : (s : Started) → Sound s → s.service.mode ≡ s.registry.mode
  same_mode s x = ap (λ (v : Service). v.mode) x.service_is

  pub same_reward_account : (s : Started) → Sound s → s.service.reward_account ≡ reward_account
  same_reward_account s x = ap (λ (v : Service). v.reward_account) x.service_is

  pub same_paymaster : (s : Started) → Sound s → s.service.paymaster ≡ cfg.paymaster
  same_paymaster s x = ap (λ (v : Service). v.paymaster) x.service_is

  pub same_chain_id : (s : Started) → Sound s → s.service.chain_id ≡ cfg.chain_id
  same_chain_id s x = ap (λ (v : Service). v.chain_id) x.service_is

  pub service_entry_point : (s : Started) → Sound s → s.service.entry_point ≡ cfg.entry_point
  service_entry_point s x = ap (λ (v : Service). v.entry_point) x.service_is

  pub same_allowlist :
      (s : Started) (x : Sound s) → s.service.allowed_sender_implementations ≡ x.list
  same_allowlist s x = ap (λ (v : Service). v.allowed_sender_implementations) x.service_is
