-- ===== src/Setup/Contract/Warranted.antt =====
-- What `ensureStandaloneContract` sends.
use tornado_4337_relayer.Base.{
  ◌≡◌, refl, true, not, Option, none, some, ◌==◌, ok, or_throw, throw_if, inl, inr, Option-cases,
  arith,
}
use tornado_4337_relayer.Base.Text.{Text}
use tornado_4337_relayer.Viem.{Address}
use tornado_4337_relayer.Setup.{
  PaymasterSetupConfig, no_paymaster_address, no_contract, wrong_signer, thrown, set_router, Node,
  Machine, on_candidate, configured_router, send,
}
use tornado_4337_relayer.Setup.Contract.{
  remembered, check_candidate, deployed, deployment, wire_router, remember, deploy, use_or_deploy,
  first_of, ensure_standalone_contract, without_code,
}
use tornado_4337_relayer.Setup.Kept.{Kept, >>=-Kept, lift-Kept, pure-Kept, send-Kept}

module _ (cfg : PaymasterSetupConfig) (node : Node) where
  on_of :
      {u : Unit {0}}
      → throw_if (not cfg.auto_setup) no_paymaster_address ≡ ok u
      → cfg.auto_setup ≡ true
  on_of e = ground arith

  check_candidate-Kept : (a : Address) → Kept cfg node (check_candidate cfg node a)
  unfolding check_candidate
  check_candidate-Kept a =
      lift-Kept cfg node (or_throw (node.get_code on_candidate a) thrown) _ (λ code e.
        lift-Kept cfg node (throw_if (without_code code) (no_contract a)) _ (λ u e1.
          lift-Kept cfg node (or_throw (node.verifying_signer on_candidate a) thrown) _ (λ s e2.
            lift-Kept cfg node (throw_if (not (s == cfg.signer)) (wrong_signer s)) _
              (λ u' e3. pure-Kept cfg node a))))

  wire_router-Kept : cfg.auto_setup ≡ true → (p : Address) → Kept cfg node (wire_router cfg node p)
  unfolding wire_router
  wire_router-Kept on p = elim (Option-cases (configured_router cfg)) [
    | inl free ↦ rw (wire_router, free) (pure-Kept cfg node tt)
    | inr (router, is) ↦
        rw (wire_router, is)
          (>>=-Kept cfg node (send node (set_router p router)) _
            (send-Kept cfg node (set_router p router) (on, is)) (λ receipt. pure-Kept cfg node tt))
  ]

  sent-remember :
      (p : Address) (tx : Text) (m : Machine) → ((remember cfg node p tx m).1).sent ≡ m.sent
  unfolding remember
  sent-remember p tx m = ground arith

  remember-Kept : (p : Address) (tx : Text) → Kept cfg node (remember cfg node p tx)
  remember-Kept p tx = record { kept = λ m h. rw (sent-remember p tx m) h }

  deploy-Kept : cfg.paymaster ≡ none → Kept cfg node (deploy cfg node)
  unfolding deploy
  deploy-Kept fresh =
      lift-Kept cfg node (throw_if (not cfg.auto_setup) no_paymaster_address) _ (λ u allowed.
        >>=-Kept cfg node (send node (deployment cfg)) _
          (send-Kept cfg node (deployment cfg) (on_of allowed, (fresh, refl, refl)))
          (λ receipt. lift-Kept cfg node (deployed receipt) _ (λ p e.
            >>=-Kept cfg node (wire_router cfg node p) _ (wire_router-Kept (on_of allowed) p) (λ u'.
              >>=-Kept cfg node (remember cfg node p receipt.hash) _ (remember-Kept p receipt.hash)
                (λ u''. pure-Kept cfg node p)))))

  found-Kept :
      cfg.paymaster ≡ none → (state : Option Address) → Kept cfg node (use_or_deploy cfg node state)
  unfolding use_or_deploy
  found-Kept absent none = deploy-Kept absent
  found-Kept absent (some a) = check_candidate-Kept a

  use_or_deploy-Kept :
      (given state : Option Address)
      → cfg.paymaster ≡ given
      → Kept cfg node (use_or_deploy cfg node (first_of given state))
  unfolding use_or_deploy
  use_or_deploy-Kept none state is = found-Kept is state
  use_or_deploy-Kept (some a) state is = check_candidate-Kept a

  pub ensure_standalone_contract-Kept : Kept cfg node (ensure_standalone_contract cfg node)
  unfolding ensure_standalone_contract
  ensure_standalone_contract-Kept = record {
    kept = λ m h.
        (lift-Kept cfg node (remembered cfg m.file) _
            (λ state e. use_or_deploy-Kept cfg.paymaster state refl)).kept
          m h;
  }
