-- ===== src/Setup/Ensure.antt =====
-- `ensurePaymasterSetup` of relayer/src/setup.ts.
pub mod Warranted
pub mod Ordered
pub mod Ready
use tornado_4337_relayer.Base.{
  ℕ, Bool, true, false, not, ◌&&◌, ◌||◌, Option, none, some, ltb, ◌==◌, ◌-◌, or_throw, Result, err,
  ok, if◌then◌else◌, throw_if,
}
use tornado_4337_relayer.Base.Integer.{difference}
use tornado_4337_relayer.Base.Step.{pure, lift, ◌>>=◌, ◌>>◌}
use tornado_4337_relayer.Viem.{Address}
use tornado_4337_relayer.UserOp.{or_else}
use tornado_4337_relayer.Setup.{
  PaymasterMode, standalone, mode_7702, PaymasterSetupConfig, SetupError, mode_not_supported,
  thrown, Tx, add_stake, deposit, DepositInfo, Node, Setup, send,
}
use tornado_4337_relayer.Setup.Contract.{ensure_standalone_contract}
use tornado_4337_relayer.Setup.Compatible.{assert_paymaster_compatible}
use tornado_4337_relayer.Setup.Registered.{ensure_registered}

pub is_7702 : PaymasterMode → Bool
is_7702 mode_7702 = true
is_7702 standalone = false

abbrev stake_tx : PaymasterSetupConfig → Address → DepositInfo → Tx
stake_tx cfg paymaster info =
    add_stake paymaster cfg.unstake_delay_sec (difference cfg.stake_wei info.stake)

abbrev deposit_tx : PaymasterSetupConfig → Address → DepositInfo → Tx
deposit_tx cfg paymaster info = deposit paymaster (cfg.deposit_wei - info.deposit)

-- The stake, added by the owner's key only. Neither receipt's status is read.
fund_stake : PaymasterSetupConfig → Node → Address → DepositInfo → Bool → Setup (Unit {0})
fund_stake cfg node paymaster info can_admin =
    if ltb 0 cfg.stake_wei && (not info.staked || ltb info.stake cfg.stake_wei)
    then (if not cfg.auto_setup || not can_admin
        then pure tt
        else (send node (stake_tx cfg paymaster info) >> pure tt))
    else pure tt

fund_deposit : PaymasterSetupConfig → Node → Address → DepositInfo → Setup (Unit {0})
fund_deposit cfg node paymaster info =
    if ltb info.deposit cfg.deposit_wei
    then (if not cfg.auto_setup
        then pure tt
        else (send node (deposit_tx cfg paymaster info) >> pure tt))
    else pure tt

-- the two top-ups, with what they read first
pub fund : PaymasterSetupConfig → Node → Address → Setup (Unit {0})
unfolding fund_stake fund_deposit
fund cfg node paymaster = do
  info ← lift (or_throw (node.deposit_info paymaster) thrown)
  owner ← lift (or_throw (node.owner paymaster) thrown)
  fund_stake cfg node paymaster info (owner == cfg.signer)
  fund_deposit cfg node paymaster info

-- `if (cfg.requireRegistration !== false)`
registration_step : PaymasterSetupConfig → Node → ℕ → Address → Result SetupError (Unit {0})
registration_step cfg node fuel paymaster =
    if or_else cfg.require_registration true
    then ensure_registered cfg node fuel paymaster
    else ok tt

-- `fuel` bounds the rounds of the wait for the registration.
unfoldable pub ensure_paymaster_setup : PaymasterSetupConfig → Node → ℕ → Setup Address
unfolding is_7702 fund registration_step
ensure_paymaster_setup cfg node fuel = do
  lift (throw_if (is_7702 cfg.mode) mode_not_supported)
  paymaster ← ensure_standalone_contract cfg node
  lift (assert_paymaster_compatible cfg node paymaster)
  fund cfg node paymaster
  lift (registration_step cfg node fuel paymaster)
  pure paymaster
