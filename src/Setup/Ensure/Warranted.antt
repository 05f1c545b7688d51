-- ===== src/Setup/Ensure/Warranted.antt =====
-- What `ensurePaymasterSetup` sends.
use tornado_4337_relayer.Base.{
  ℕ, ◌-◌, ◌≡◌, refl, arith, true, not, ◌&&◌, ◌||◌, some, ltb, ◌==◌, [], All, or_throw,
  or_throw-eq-ok, throw_if, inl, inr, Bool-cases, ◌∙◌, ap,
}
use tornado_4337_relayer.Viem.{Address}
use tornado_4337_relayer.Setup.{
  PaymasterSetupConfig, mode_not_supported, thrown, DepositInfo, Disk, Node, send,
}
use tornado_4337_relayer.Setup.Contract.{ensure_standalone_contract}
use tornado_4337_relayer.Setup.Contract.Warranted.{ensure_standalone_contract-Kept}
use tornado_4337_relayer.Setup.Compatible.{assert_paymaster_compatible}
use tornado_4337_relayer.Setup.Compatible.Checked.{Compatible, assert_paymaster_compatible_iff}
use tornado_4337_relayer.Setup.Once.{InOrder}
use tornado_4337_relayer.Setup.Ensure.Ordered.{setup-Climbs}
use tornado_4337_relayer.Base.Integer.{pos, difference}
use tornado_4337_relayer.Setup.Kept.{
  StakeOf, Fundable, Warranted, Kept, >>=-Kept, lift-Kept, pure-Kept, send-Kept,
}
use tornado_4337_relayer.Setup.Ensure.{
  is_7702, stake_tx, deposit_tx, fund_stake, fund_deposit, fund, registration_step,
  ensure_paymaster_setup,
}

module _ (cfg : PaymasterSetupConfig) (node : Node) where
  is_owner : (owner : Address) → (owner == cfg.signer) ≡ true → owner ≡ cfg.signer
  is_owner owner e = ground arith

  difference-pos : (a b : ℕ) → ltb b a ≡ true → difference a b ≡ pos (a - b)
  difference-pos a b h = ground arith

  stake_tx-StakeOf :
      (info : DepositInfo)
      → (ltb 0 cfg.stake_wei && (not info.staked || ltb info.stake cfg.stake_wei)) ≡ true
      → StakeOf cfg node info (difference cfg.stake_wei info.stake)
  stake_tx-StakeOf info short = elim (Bool-cases (ltb info.stake cfg.stake_wei)) [
    | inl less ↦
        inl (cfg.stake_wei - info.stake, difference-pos cfg.stake_wei info.stake less, ground arith)
    | inr enough ↦ inr (ground arith, ground arith, refl)
  ]

  module _ (p : Address) (info : DepositInfo) (fundable : Fundable cfg node p info) where
    fund_stake-Kept :
        (owner : Address)
        → node.owner p ≡ some owner
        → Kept cfg node (fund_stake cfg node p info (owner == cfg.signer))
    unfolding fund_stake
    fund_stake-Kept owner read =
        elim (Bool-cases
          (ltb 0 cfg.stake_wei && (not info.staked || ltb info.stake cfg.stake_wei))) [
            | inr full ↦ rw (fund_stake, full) (pure-Kept cfg node tt)
            | inl short ↦ elim (Bool-cases (not cfg.auto_setup || not (owner == cfg.signer))) [
              | inl off ↦ rw (fund_stake, short) (rw off (pure-Kept cfg node tt))
              | inr on ↦
                  let tx = stake_tx cfg p info in
                  let allowed : Warranted cfg node tx = (
                    ground arith,
                    (
                      info,
                      fundable,
                      read ∙ ap some (is_owner owner (ground arith)),
                      stake_tx-StakeOf info short,
                    ),
                  ) in
                  rw (fund_stake, short)
                    (rw on (
                      >>=-Kept cfg node (send node tx) _ (send-Kept cfg node tx allowed)
                        (λ r. pure-Kept cfg node tt)))
            ]
          ]

    fund_deposit-Kept : Kept cfg node (fund_deposit cfg node p info)
    unfolding fund_deposit
    fund_deposit-Kept = elim (Bool-cases (ltb info.deposit cfg.deposit_wei)) [
      | inr full ↦ rw (fund_deposit, full) (pure-Kept cfg node tt)
      | inl short ↦ elim (Bool-cases (not cfg.auto_setup)) [
        | inl off ↦ rw (fund_deposit, short) (rw off (pure-Kept cfg node tt))
        | inr on ↦
            let tx = deposit_tx cfg p info in
            let allowed : Warranted cfg node tx = (ground arith, (info, fundable, ground arith)) in
            rw (fund_deposit, short)
              (rw on (
                >>=-Kept cfg node (send node tx) _ (send-Kept cfg node tx allowed)
                  (λ r. pure-Kept cfg node tt)))
      ]
    ]

  fund-Kept : (p : Address) → Compatible cfg node p → Kept cfg node (fund cfg node p)
  unfolding fund
  fund-Kept p compatible = lift-Kept cfg node (or_throw (node.deposit_info p) thrown) _ (λ info e.
      lift-Kept cfg node (or_throw (node.owner p) thrown) _ (λ owner e'.
        let f : Fundable cfg node p info = record {
          compatible = compatible;
          read = or_throw-eq-ok _ thrown e;
        } in
        >>=-Kept cfg node (fund_stake cfg node p info (owner == cfg.signer)) _
          (fund_stake-Kept p info f owner (or_throw-eq-ok _ thrown e'))
          (λ u. fund_deposit-Kept p info f)))

  setup-Kept : (fuel : ℕ) → Kept cfg node (ensure_paymaster_setup cfg node fuel)
  unfolding ensure_paymaster_setup
  setup-Kept fuel = lift-Kept cfg node (throw_if (is_7702 cfg.mode) mode_not_supported) _ (λ u e.
      >>=-Kept cfg node (ensure_standalone_contract cfg node) _
        (ensure_standalone_contract-Kept cfg node)
        (λ p. lift-Kept cfg node (assert_paymaster_compatible cfg node p) _ (λ u1 checked.
          >>=-Kept cfg node (fund cfg node p) _
            (fund-Kept p ((assert_paymaster_compatible_iff cfg node p).0 checked))
            (λ u2.
              lift-Kept cfg node (registration_step cfg node fuel p) _
                (λ u3 done. pure-Kept cfg node p)))))

  -- However the set-up ends, and whatever the node answers at each moment, every transaction that it
  -- has sent is warranted: `autoSetup` is on; a contract is deployed only where none is configured,
  -- for the configured EntryPoint and this key; a router is wired only as configured; stake and
  -- deposit go only to a paymaster that has passed the compatibility check, stake only where its
  -- owner is this key; a deposit is exactly what is missing from the configured amount, and so is a
  -- stake, unless the stake that is there is unlocked and as large as configured, when the
  -- difference is not positive. No kind of transaction is sent twice: there is at most one
  -- deployment, one router, one stake and one deposit, in this order.
  pub ensure_paymaster_setup-Warranted :
      (fuel : ℕ) (file : Disk)
      → All
          (Warranted cfg node)
          ((ensure_paymaster_setup cfg node fuel (record { sent = []; file = file })).1).sent
        × InOrder
            ((ensure_paymaster_setup cfg node fuel (record { sent = []; file = file })).1).sent
  ensure_paymaster_setup-Warranted fuel file =
      ((setup-Kept fuel).kept _ tt, (setup-Climbs cfg node fuel).climbs _ tt)
