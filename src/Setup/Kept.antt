-- ===== src/Setup/Kept.antt =====
-- Why each transaction of the set-up may be sent, and how a chain of steps keeps to that.
use tornado_4337_relayer.Base.{
  ℕ, ◌+◌, ◌≡◌, ◌≤◌, ◌⊎◌, refl, true, false, none, some, ◌∷◌, All, Result, ok, err,
}
use tornado_4337_relayer.Base.Integer.{ℤ, pos, difference}
use tornado_4337_relayer.Base.Step.{pure, lift, continue, ◌>>=◌}
use tornado_4337_relayer.Viem.{Address}
use tornado_4337_relayer.Setup.{
  PaymasterSetupConfig, SetupError, thrown, Tx, deploy_contract, set_router, add_stake, deposit,
  Receipt, rejected, lost, mined, DepositInfo, Node, Machine, Setup, configured_router, send,
}
use tornado_4337_relayer.Setup.Compatible.Checked.{Compatible}

module _ (cfg : PaymasterSetupConfig) (node : Node) where
  -- a paymaster that has passed the check, with what the EntryPoint holds for it
  pub record Fundable (paymaster : Address) (info : DepositInfo) : Type 0 where
    pub compatible : Compatible cfg node paymaster
    pub read : node.deposit_info paymaster ≡ some info

  -- The stake added is what is missing; or the stake is unlocked and as large as configured, and
  -- the difference is not positive.
  abbrev pub StakeOf : DepositInfo → ℤ → Type 0
  StakeOf info value =
      ((n : ℕ) × (value ≡ pos n) × (n + info.stake ≡ cfg.stake_wei))
      ⊎ ((info.staked ≡ false)
          × (cfg.stake_wei ≤ info.stake)
          × (value ≡ difference cfg.stake_wei info.stake))

  abbrev Reason : Tx → Type 0
  Reason (deploy_contract entry_point signer margin overhead) =
      (cfg.paymaster ≡ none) × (entry_point ≡ cfg.entry_point) × (signer ≡ cfg.signer)
  Reason (set_router paymaster router) = configured_router cfg ≡ some router
  Reason (add_stake paymaster delay value) =
      (info : DepositInfo) × Fundable paymaster info
      × (node.owner paymaster ≡ some cfg.signer)
      × StakeOf info value
  Reason (deposit paymaster value) =
      (info : DepositInfo) × Fundable paymaster info × (value + info.deposit ≡ cfg.deposit_wei)

  -- Only with `autoSetup` is anything sent. A contract is deployed and wired as configured; a stake
  -- or a deposit goes to a compatible paymaster only, and is the difference between the configured
  -- amount and the one that is there.
  abbrev pub Warranted : Tx → Type 0
  Warranted tx = (cfg.auto_setup ≡ true) × Reason tx

  -- nothing is sent that is not allowed, however `act` ends
  pub record Kept {A : Type 0} (act : Setup A) : Type 0 where
    pub kept : (m : Machine) → All Warranted m.sent → All Warranted ((act m).1).sent

  continued :
      {A B : Type 0} (r : Result SetupError A × Machine) (f : A → Setup B)
      → ((a : A) → r.0 ≡ ok a → Kept (f a))
      → All Warranted (r.1).sent
      → All Warranted ((continue (r.0) f (r.1)).1).sent
  continued (ok a, m) f next h = (next a refl).kept m h
  continued (err e, m) f next h = h

  pub >>=-Kept :
      {A B : Type 0} (act : Setup A) (f : A → Setup B)
      → Kept act
      → ((a : A) → Kept (f a))
      → Kept (act >>= f)
  >>=-Kept act f first next = record {
    kept = λ m h. continued (act m) f (λ a e. next a) (first.kept m h);
  }

  pub lift-Kept :
      {A B : Type 0} (r : Result SetupError A) (f : A → Setup B)
      → ((a : A) → r ≡ ok a → Kept (f a))
      → Kept (lift r >>= f)
  lift-Kept r f next = record { kept = λ m h. continued (r, m) f next h }

  pub pure-Kept : {A : Type 0} (a : A) → Kept {A = A} (pure a)
  pure-Kept a = record { kept = λ m h. h }

  sent_by :
      (tx : Tx) (m : Machine)
      → Warranted tx
      → All Warranted m.sent
      → All Warranted ((send node tx m).1).sent
  unfolding send
  sent_by tx m allowed h =
      elim (node.outcome tx)
        as (λ o.
          All Warranted
            ((elim o as (λ _. Result SetupError Receipt × Machine) [
              | rejected ↦ (err thrown, m)
              | lost ↦ (err thrown, record m { sent = tx ∷ m.sent })
              | mined receipt ↦ (ok receipt, record m { sent = tx ∷ m.sent })
            ]).1
              ).sent) [ rejected ↦ h | lost ↦ (allowed, h) | mined r ↦ (allowed, h) ]

  pub send-Kept : (tx : Tx) → Warranted tx → Kept (send node tx)
  send-Kept tx allowed = record { kept = λ m h. sent_by tx m allowed h }
