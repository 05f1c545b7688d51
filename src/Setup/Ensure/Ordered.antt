-- ===== src/Setup/Ensure/Ordered.antt =====
-- The order of what `ensurePaymasterSetup` sends.
use tornado_4337_relayer.Base.{
  ℕ, Bool, arith, not, ◌&&◌, ◌||◌, ltb, ◌==◌, or_throw, throw_if, inl, inr, Bool-cases,
}
use tornado_4337_relayer.Viem.{Address}
use tornado_4337_relayer.Setup.{PaymasterSetupConfig, mode_not_supported, thrown, DepositInfo, Node}
use tornado_4337_relayer.Setup.Contract.{ensure_standalone_contract}
use tornado_4337_relayer.Setup.Contract.Ordered.{ensure_standalone_contract-Climbs}
use tornado_4337_relayer.Setup.Compatible.{assert_paymaster_compatible}
use tornado_4337_relayer.Setup.Once.{Climbs, >>=-Climbs, lift-Climbs, pure-Climbs, send-Climbs}
use tornado_4337_relayer.Setup.Ensure.{
  is_7702, stake_tx, deposit_tx, fund_stake, fund_deposit, fund, registration_step,
  ensure_paymaster_setup,
}

module _ (cfg : PaymasterSetupConfig) (node : Node) where
  fund_stake-Climbs :
      (p : Address) (info : DepositInfo) (admin : Bool)
      → Climbs 2 3 (fund_stake cfg node p info admin)
  unfolding fund_stake
  fund_stake-Climbs p info admin =
      elim (Bool-cases (ltb 0 cfg.stake_wei && (not info.staked || ltb info.stake cfg.stake_wei))) [
        | inr full ↦ rw (fund_stake, full) (pure-Climbs 2 3 tt (omega arith))
        | inl short ↦ elim (Bool-cases (not cfg.auto_setup || not admin)) [
          | inl off ↦ rw (fund_stake, short) (rw off (pure-Climbs 2 3 tt (omega arith)))
          | inr on ↦
              rw (fund_stake, short)
                (rw on (send-Climbs node 2 3 (stake_tx cfg p info) tt (omega arith) (omega arith)))
        ]
      ]

  fund_deposit-Climbs :
      (p : Address) (info : DepositInfo) → Climbs 3 4 (fund_deposit cfg node p info)
  unfolding fund_deposit
  fund_deposit-Climbs p info = elim (Bool-cases (ltb info.deposit cfg.deposit_wei)) [
    | inr full ↦ rw (fund_deposit, full) (pure-Climbs 3 4 tt (omega arith))
    | inl short ↦ elim (Bool-cases (not cfg.auto_setup)) [
      | inl off ↦ rw (fund_deposit, short) (rw off (pure-Climbs 3 4 tt (omega arith)))
      | inr on ↦
          rw (fund_deposit, short)
            (rw on (send-Climbs node 3 4 (deposit_tx cfg p info) tt (omega arith) (omega arith)))
    ]
  ]

  fund-Climbs : (p : Address) → Climbs 2 4 (fund cfg node p)
  unfolding fund
  fund-Climbs p = lift-Climbs 2 4 (or_throw (node.deposit_info p) thrown) _ (omega arith) (λ info.
      lift-Climbs 2 4 (or_throw (node.owner p) thrown) _ (omega arith) (λ owner.
        >>=-Climbs 2 3 4 (fund_stake cfg node p info (owner == cfg.signer)) _ (omega arith)
          (fund_stake-Climbs p info (owner == cfg.signer)) (λ u. fund_deposit-Climbs p info)))

  pub setup-Climbs : (fuel : ℕ) → Climbs 0 4 (ensure_paymaster_setup cfg node fuel)
  unfolding ensure_paymaster_setup
  setup-Climbs fuel =
      lift-Climbs 0 4 (throw_if (is_7702 cfg.mode) mode_not_supported) _ (omega arith) (λ u.
        >>=-Climbs 0 2 4 (ensure_standalone_contract cfg node) _ (omega arith)
          (ensure_standalone_contract-Climbs cfg node)
          (λ p. lift-Climbs 2 4 (assert_paymaster_compatible cfg node p) _ (omega arith) (λ u1.
            >>=-Climbs 2 4 4 (fund cfg node p) _ (omega arith) (fund-Climbs p) (λ u2.
              lift-Climbs 4 4 (registration_step cfg node fuel p) _ (omega arith)
                (λ u3. pure-Climbs 4 4 p (omega arith))))))
