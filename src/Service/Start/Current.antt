-- ===== src/Service/Start/Current.antt =====
-- The registration check of `sign`, right after a start.
use tornado_4337_relayer.Base.{
  ◌≡◌, ◌⊎◌, inl, inr, refl, sym, ap, ◌∙◌, arith, false, Option, some, List, ok, Bool-cases,
  address_key,
}
use tornado_4337_relayer.Viem.{Address}
use tornado_4337_relayer.Service.{Service, World, Mode, master, worker, unregistered, no_router}
use tornado_4337_relayer.Store.{Store}
use tornado_4337_relayer.Service.Checks.{has_registration, assert_registration_current}
use tornado_4337_relayer.Service.Registry.{RegistryInfo}
use tornado_4337_relayer.Service.Registry.Probed.{Probed}
use tornado_4337_relayer.Service.Start.{RelayerConfig, Chain, Started, create}
use tornado_4337_relayer.Service.Start.Sound.{
  reward_account, Fits, create-Sound, same_mode, same_reward_account,
}

module _ (cfg : RelayerConfig) (chain : Chain) where
  current :
      (svc : Service) (w : World) (store : Store)
      → (has_registration svc.mode ≡ false) ⊎ (w.worker_master ≡ some svc.reward_account)
      → (assert_registration_current svc w store).0 ≡ ok tt
  unfolding assert_registration_current
  current svc w store h = elim (Bool-cases (has_registration svc.mode)) [
    | inr off ↦ rw (off, assert_registration_current) refl
    | inl on ↦ elim h [
      | inl off ↦ cc
      | inr is ↦ rw (on, assert_registration_current) (rw is (ground arith))
    ]
  ]

  Fits-cases :
      (r : RegistryInfo) (mode : Mode)
      → Fits cfg chain r mode
      → (has_registration mode ≡ false) ⊎ (r.master_of ≡ reward_account cfg chain)
  Fits-cases r no_router h = inl refl
  Fits-cases r unregistered h = inl refl
  Fits-cases r master h = inr h
  Fits-cases r worker h = inr h

  registered :
      (router : Address) (l : List Address) (r : RegistryInfo) (found : Option Address)
      → Probed chain.dao cfg.paymaster router l r
      → Fits cfg chain r r.mode
      → found ≡ chain.dao.workers r.relayer_registry
      → (has_registration r.mode ≡ false) ⊎ (found ≡ some (reward_account cfg chain))
  registered router l r found (inl (off, is)) fits answer =
      inl (ap (λ (x : RegistryInfo). has_registration x.mode) is)
  registered router l r found (inr probed) fits answer = elim (Fits-cases r r.mode fits) [
    | inl off ↦ inl off
    | inr is ↦ inr (answer ∙ probed.resolved ∙ ap some is)
  ]

  -- A service that has just started passes the registration check that `sign` makes, as long as the
  -- registry still resolves the paymaster as it did; and without a registration there is no check.
  pub create-passes_registration :
      (s : Started) (w : World) (store : Store)
      → create cfg chain ≡ ok s
      → w.worker_master ≡ chain.dao.workers s.registry.relayer_registry
      → (assert_registration_current s.service w store).0 ≡ ok tt
  create-passes_registration s w store e same_answer =
      let x = create-Sound cfg chain s e in
      let mode_is = same_mode cfg chain s x in
      let reward_is = same_reward_account cfg chain s x in
      elim (registered x.router _ s.registry w.worker_master x.probed x.fits same_answer) [
        | inl off ↦ current s.service w store (inl (ap has_registration mode_is ∙ off))
        | inr is ↦ current s.service w store (inr (is ∙ ap some (sym reward_is)))
      ]
