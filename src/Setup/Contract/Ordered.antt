-- ===== src/Setup/Contract/Ordered.antt =====
-- The order of what `ensureStandaloneContract` sends.
use tornado_4337_relayer.Base.{
  ◌≡◌, arith, not, Option, none, some, ◌==◌, or_throw, throw_if, inl, inr, Option-cases,
}
use tornado_4337_relayer.Base.Text.{Text}
use tornado_4337_relayer.Viem.{Address}
use tornado_4337_relayer.Setup.{
  PaymasterSetupConfig, no_paymaster_address, no_contract, wrong_signer, thrown, set_router, Node,
  Machine, on_candidate, configured_router, send,
}
use tornado_4337_relayer.Setup.Contract.{
  remembered, check_candidate, deployed, deployment, wire_router, remember, deploy, use_or_deploy,
  first_of, ensure_standalone_contract, without_code,
}
use tornado_4337_relayer.Setup.Once.{
  Climbs, >>=-Climbs, lift-Climbs, pure-Climbs, send-Climbs, sending-Climbs,
}

module _ (cfg : PaymasterSetupConfig) (node : Node) where
  check_candidate-Climbs : (a : Address) → Climbs 0 2 (check_candidate cfg node a)
  unfolding check_candidate
  check_candidate-Climbs a =
      lift-Climbs 0 2 (or_throw (node.get_code on_candidate a) thrown) _ (omega arith) (λ code.
        lift-Climbs 0 2 (throw_if (without_code code) (no_contract a)) _ (omega arith) (λ u.
          lift-Climbs 0 2 (or_throw (node.verifying_signer on_candidate a) thrown) _ (omega arith)
            (λ s.
              lift-Climbs 0 2 (throw_if (not (s == cfg.signer)) (wrong_signer s)) _ (omega arith)
                (λ u'. pure-Climbs 0 2 a (omega arith)))))

  wire_router-Climbs : (p : Address) → Climbs 1 2 (wire_router cfg node p)
  unfolding wire_router
  wire_router-Climbs p = elim (Option-cases (configured_router cfg)) [
    | inl free ↦ rw (wire_router, free) (pure-Climbs 1 2 tt (omega arith))
    | inr (router, is) ↦
        rw (wire_router, is)
          (send-Climbs node 1 2 (set_router p router) tt (omega arith) (omega arith))
  ]

  remember_sends_nothing :
      (p : Address) (tx : Text) (m : Machine) → ((remember cfg node p tx m).1).sent ≡ m.sent
  unfolding remember
  remember_sends_nothing p tx m = ground arith

  remember-Climbs : (p : Address) (tx : Text) → Climbs 2 2 (remember cfg node p tx)
  remember-Climbs p tx = record { climbs = λ m h. rw (remember_sends_nothing p tx m) h }

  deploy-Climbs : Climbs 0 2 (deploy cfg node)
  unfolding deploy
  deploy-Climbs =
      lift-Climbs 0 2 (throw_if (not cfg.auto_setup) no_paymaster_address) _ (omega arith) (λ u.
        >>=-Climbs 0 1 2 (send node (deployment cfg)) _ (omega arith)
          (sending-Climbs node 0 1 (deployment cfg) (omega arith) (omega arith))
          (λ receipt. lift-Climbs 1 2 (deployed receipt) _ (omega arith) (λ p.
            >>=-Climbs 1 2 2 (wire_router cfg node p) _ (omega arith) (wire_router-Climbs p) (λ u'.
              >>=-Climbs 2 2 2 (remember cfg node p receipt.hash) _ (omega arith)
                (remember-Climbs p receipt.hash) (λ u''. pure-Climbs 2 2 p (omega arith))))))

  use_or_deploy-Climbs : (found : Option Address) → Climbs 0 2 (use_or_deploy cfg node found)
  unfolding use_or_deploy
  use_or_deploy-Climbs none = deploy-Climbs
  use_or_deploy-Climbs (some a) = check_candidate-Climbs a

  pub ensure_standalone_contract-Climbs : Climbs 0 2 (ensure_standalone_contract cfg node)
  unfolding ensure_standalone_contract
  ensure_standalone_contract-Climbs = record {
    climbs = λ m h.
        (lift-Climbs 0 2 (remembered cfg m.file) _ (omega arith)
            (λ state. use_or_deploy-Climbs (first_of cfg.paymaster state))).climbs
          m h;
  }
