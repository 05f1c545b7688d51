-- ===== src/Setup/Registered.antt =====
-- `ensureRegistered` of relayer/src/setup.ts.
pub mod Waits
pub mod Settled
use tornado_4337_relayer.Base.{
  ℕ, zero, suc, ◌+◌, Bool, true, false, not, Option, none, some, ◌==◌, Result, ok, err, or_throw,
  ◌>>=◌, if◌then◌else◌,
}
use tornado_4337_relayer.Viem.{Address, zero_address}
use tornado_4337_relayer.UserOp.{or_else}
use tornado_4337_relayer.Setup.{
  PaymasterSetupConfig, SetupError, thrown, other_master, not_registered, still_waiting, Node,
  on_registration, on_poll,
}

-- One round of the loop: it ends with a result, or with `none` it sleeps and comes back.
unfoldable pub round :
    PaymasterSetupConfig → Address → Option Address → Option (Result SetupError (Unit {0}))
round cfg master none = some (err thrown)
round cfg master (some resolved) =
    if not (resolved == zero_address)
    then (if not (resolved == master) then some (err (other_master resolved)) else some (ok tt))
    else if not cfg.wait_for_registration
    then some (err not_registered)
    else none

-- `for (let attempt = 0; ; attempt++)`, for as many rounds as `fuel`
unfoldable pub poll :
    PaymasterSetupConfig
    → Address
    → (ℕ → Option Address)
    → (fuel attempt : ℕ) → Result SetupError (Unit {0})
unfolding round
poll cfg master workers zero attempt = err still_waiting
poll cfg master workers (suc fuel) attempt =
    let rest = poll cfg master workers fuel (attempt + 1) in
    or_else (round cfg master (workers attempt)) rest

unfoldable pub ensure_registered :
    PaymasterSetupConfig → Node → ℕ → Address → Result SetupError (Unit {0})
ensure_registered cfg node fuel paymaster = do
  router ← or_throw (node.router on_registration paymaster) thrown
  elim (router == zero_address) [
    | true ↦ ok tt
    | false ↦ do
      registry ← or_throw (node.relayer_registry on_registration router) thrown
      poll cfg (or_else cfg.reward_account paymaster)
          (λ attempt. node.workers (on_poll attempt) registry paymaster) fuel 0
  ]
