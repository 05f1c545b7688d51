-- ===== src/Service/Status/Registered.antt =====
-- `registered` of the status, against the registration check of `sign`.
use tornado_4337_relayer.Base.{
  ℕ, ◌≡◌, ◌↔◌, refl, sym, ap, ◌∙◌, arith, Bool, true, false, Option, none, some, ◌==◌, ok,
}
use tornado_4337_relayer.Viem.{Address}
use tornado_4337_relayer.Store.{Store}
use tornado_4337_relayer.Service.{Service, World, Mode, master, worker, unregistered, no_router}
use tornado_4337_relayer.Service.Checks.{has_registration, assert_registration_current}
use tornado_4337_relayer.Service.Registry.{RegistryInfo}
use tornado_4337_relayer.Service.Start.{RelayerConfig, Chain, Started, create}
use tornado_4337_relayer.Service.Start.Sound.{create-Sound, same_mode}
use tornado_4337_relayer.Service.Status.{
  Answers, is_current, registry_read, live_state, status_of, option_map, status,
}

-- the check, with the mode and the answer as variables
checked :
    (svc : Service) (w : World) (t : Store) (mode : Mode) (m : Address)
    → svc.mode ≡ mode
    → w.worker_master ≡ some m
    → ((has_registration mode ≡ false) → (assert_registration_current svc w t).0 ≡ ok tt)
      × ((has_registration mode ≡ true)
          → ((m == svc.reward_account) ≡ true) ↔ ((assert_registration_current svc w t).0 ≡ ok tt))
unfolding assert_registration_current
checked svc w t mode m is answered = (
  (λ off. rw (ap has_registration is ∙ off, assert_registration_current) refl),
  (λ on.
      rw (ap has_registration is ∙ on, assert_registration_current)
        (rw answered ((λ e. ground arith), λ e. ground arith))),
)

current_iff :
    (svc : Service) (w : World) (t : Store) (mode : Mode) (r : RegistryInfo)
    → svc.mode ≡ mode
    → w.worker_master ≡ some r.master_of
    → (is_current mode svc.reward_account (some r) ≡ true)
      ↔ ((assert_registration_current svc w t).0 ≡ ok tt)
unfolding is_current
current_iff svc w t no_router r is answered =
    ((λ e. (checked svc w t _ _ is answered).0 refl), λ e. refl)
current_iff svc w t unregistered r is answered =
    ((λ e. (checked svc w t _ _ is answered).0 refl), λ e. refl)
current_iff svc w t master r is answered = (checked svc w t _ _ is answered).1 refl
current_iff svc w t worker r is answered = (checked svc w t _ _ is answered).1 refl

module _ (cfg : RelayerConfig) (chain : Chain) (s : Started) where
  found_by :
      (mode : Mode) (reward : Address) (found : Option RegistryInfo) (b : Bool) (m : Address)
      → option_map (λ (r : RegistryInfo). is_current mode reward found) found ≡ some b
      → option_map (λ (r : RegistryInfo). r.master_of) found ≡ some m
      → (r : RegistryInfo) × (r.master_of ≡ m) × (is_current mode reward (some r) ≡ b)
  found_by mode reward none b m e f = cc
  found_by mode reward (some r) b m e f = (r, cc, cc)

  -- For a service that has started: where the status could read the registry, it says `registered`
  -- exactly if the check that `sign` makes of the registration would pass on the master that the
  -- status shows. Where the paymaster was unregistered at the start, `sign` makes no check and the
  -- status says `registered`, whatever master it shows, the zero address included.
  pub status-registered_iff :
      (now : Answers) (time : ℕ) (store t : Store) (w : World) (b : Bool) (m : Address)
      → create cfg chain ≡ ok s
      → (status s now time store).0.registered ≡ some b
      → (status s now time store).0.master ≡ some m
      → w.worker_master ≡ some m
      → ((b ≡ true) ↔ ((assert_registration_current s.service w t).0 ≡ ok tt))
        × (s.registry.mode ≡ unregistered → b ≡ true)
  unfolding status status_of live_state is_current
  status-registered_iff now time store t w b m e registered master_is answered =
      let x = create-Sound cfg chain s e in
      let (r, is, current) =
        found_by s.registry.mode s.service.reward_account ((registry_read s now).0) b m registered
          master_is in
      (
        rw (← current) (
            current_iff s.service w t s.registry.mode r (same_mode cfg chain s x)
              (answered ∙ ap some (sym is))),
        λ mode. sym current ∙ ap (λ m. is_current m s.service.reward_account (some r)) mode,
      )
