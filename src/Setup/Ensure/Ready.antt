-- ===== src/Setup/Ensure/Ready.antt =====
-- What a set-up that has returned vouches for.
use tornado_4337_relayer.Base.{
  ℕ, ◌≡◌, ◌⊎◌, inl, inr, true, false, throw_if, throw_if-eq-ok, Bool-cases, ok,
}
use tornado_4337_relayer.Base.Step.{lift->>=-eq-ok, act->>=-eq-ok, pure-eq-ok}
use mathlib.Core.Path.{subst}
use tornado_4337_relayer.Viem.{Address}
use tornado_4337_relayer.UserOp.{or_else}
use tornado_4337_relayer.Setup.{PaymasterSetupConfig, mode_not_supported, Node, Machine}
use tornado_4337_relayer.Setup.Contract.{ensure_standalone_contract}
use tornado_4337_relayer.Setup.Compatible.{assert_paymaster_compatible}
use tornado_4337_relayer.Setup.Compatible.Checked.{Compatible, assert_paymaster_compatible_iff}
use tornado_4337_relayer.Setup.Registered.Settled.{Registered, ensure_registered_iff}
use tornado_4337_relayer.Setup.Ensure.{is_7702, fund, registration_step, ensure_paymaster_setup}

module _ (cfg : PaymasterSetupConfig) (node : Node) (fuel : ℕ) where
  pub record Ready (p : Address) : Type 0 where
    pub supported : is_7702 cfg.mode ≡ false
    pub compatible : Compatible cfg node p
    pub registered : (or_else cfg.require_registration true ≡ false) ⊎ Registered cfg node p fuel

  registration_step-Registered :
      (p : Address)
      → registration_step cfg node fuel p ≡ ok tt
      → (or_else cfg.require_registration true ≡ false) ⊎ Registered cfg node p fuel
  unfolding registration_step
  registration_step-Registered p e = elim (Bool-cases (or_else cfg.require_registration true)) [
    | inr off ↦ inl off
    | inl on ↦ inr ((ensure_registered_iff cfg node p fuel).0 (rw (on, registration_step) at e))
  ]

  -- The address that a set-up returns is that of a paymaster that has passed the compatibility
  -- check, in the supported mode, and that the registry resolves to the expected master, unless
  -- there is no router or the registration is not required.
  pub ensure_paymaster_setup-Ready :
      (p : Address) (m t : Machine) → ensure_paymaster_setup cfg node fuel m ≡ (ok p, t) → Ready p
  unfolding ensure_paymaster_setup
  ensure_paymaster_setup-Ready p m t e =
      let (u, mode, e1) = lift->>=-eq-ok (throw_if (is_7702 cfg.mode) mode_not_supported) _ e in
      let (q, m1, found, e2) = act->>=-eq-ok (ensure_standalone_contract cfg node) _ e1 in
      let (u1, checked, e3) = lift->>=-eq-ok (assert_paymaster_compatible cfg node q) _ e2 in
      let (u2, m2, funded, e4) = act->>=-eq-ok (fund cfg node q) _ e3 in
      let (u3, done, e5) = lift->>=-eq-ok (registration_step cfg node fuel q) _ e4 in
      let (same, last) = pure-eq-ok q p e5 in
      subst Ready same (record {
        supported = throw_if-eq-ok _ mode_not_supported mode;
        compatible = (assert_paymaster_compatible_iff cfg node q).0 checked;
        registered = registration_step-Registered q done;
      })
