-- ===== src/Service/Bundler.antt =====
-- `assertBundlerSimulates` of relayer/src/service.ts, and `delegationCode` of relayer/src/setup.ts.
pub mod Simulated
use tornado_4337_relayer.Base.{
  Bool, true, false, not, ◌&&◌, Option, none, some, List, [], ◌∷◌, ◌++◌, take, drop, Result, ok,
  err, or_throw, throw_if, if◌then◌else◌,
}
use tornado_4337_relayer.Base.Text.{Text, codes, text_eq}
use tornado_4337_relayer.Fee.{UserOpGas, default_gas}
use tornado_4337_relayer.Errors.{
  Error, validation_error, failure, thrown, no_bundler, bundler_failed, no_usable_estimate,
  estimate_does_not_fit,
}
use tornado_4337_relayer.Viem.{Viem, Address}
use tornado_4337_relayer.UserOp.{
  RpcUserOperation, or_else, truthy, to_lower_case, starts_with, dummy_signature, pack_init_code,
  read_gas,
}
use tornado_4337_relayer.Service.{
  Service, World, SponsorContext, Fetched, RpcResult, for_sender_code, for_bundler,
}
use tornado_4337_relayer.Service.Act.{Act, lift, await, ◌>>=◌, ◌>>◌}
use tornado_4337_relayer.Service.Stub.{stub_data, sender_implementation_from_op}
use tornado_4337_relayer.Service.Estimate.{judge_estimate}

-- `toHex(DEFAULT_GAS.paymasterVerificationGasLimit)` and `toHex(DEFAULT_GAS.paymasterPostOpGasLimit)`
abbrev stub_verification_gas : Text
stub_verification_gas = codes "0xea60"

abbrev stub_post_op_gas : Text
stub_post_op_gas = codes "0x15f90"

-- `initCode.startsWith('0x7702') ? '0x7702' : '0x' + initCode.slice(2, 42)`
abbrev factory_of : Text → Text
factory_of init_code =
    if starts_with init_code (codes "0x7702")
    then codes "0x7702"
    else codes "0x" ++ take 40 (drop 2 init_code)

abbrev factory_data_of : Text → Text
factory_data_of init_code =
    if starts_with init_code (codes "0x7702")
    then codes "0x" ++ drop 6 init_code
    else codes "0x" ++ drop 42 init_code

module _ (v : Viem) where
  with_factory : RpcUserOperation → Text → RpcUserOperation → RpcUserOperation
  with_factory op init_code simulated =
      if text_eq init_code (codes "0x") then simulated else record simulated {
        factory = some (factory_of init_code);
        factory_data = some (factory_data_of init_code);
      }

  -- the operation that the bundler is asked to estimate
  pub simulated_op : Service → Text → RpcUserOperation → RpcUserOperation
  simulated_op svc paymaster_data op =
      let simulated = record op {
        paymaster = some (v.address_text svc.paymaster);
        paymaster_data = some paymaster_data;
        paymaster_verification_gas_limit =
            some (or_else op.paymaster_verification_gas_limit stub_verification_gas);
        paymaster_post_op_gas_limit =
            some (or_else op.paymaster_post_op_gas_limit stub_post_op_gas);
        signature = some (or_else op.signature dummy_signature);
        init_code = none;
      } in
      elim op.init_code [
        | none ↦ simulated
        | some init_code ↦
            if truthy op.factory then simulated else with_factory op (pack_init_code v op) simulated
      ]

  -- `0xef0100 || implementation`
  unfoldable pub delegation_code : Address → Text
  delegation_code implementation =
      to_lower_case (v.concat_hex (codes "0xef0100" ∷ v.address_text implementation ∷ []))

  -- the code that the bundler is shown for a sender which has none yet
  state_override : Option Address → Option Text → Option Text
  state_override none sender_code = none
  state_override (some authorized) sender_code =
      if text_eq (or_else sender_code (codes "0x")) (codes "0x")
      then some (delegation_code authorized)
      else none

  -- `getCode` is asked only where the operation carries an authorization
  pub read_override : World → RpcUserOperation → Result Error (Option Text)
  read_override w op = elim (sender_implementation_from_op v op) [
    | none ↦ ok none
    | some authorized ↦ elim (w.get_sender_code op.sender) [
      | none ↦ err (failure thrown)
      | some sender_code ↦ ok (state_override (some authorized) sender_code)
    ]
  ]

  unfoldable pub assert_bundler_simulates :
      Service → World → RpcUserOperation → SponsorContext → Act (Unit {0})
  unfolding simulated_op read_override state_override with_factory
  assert_bundler_simulates svc w op context = do
    lift (throw_if (not svc.has_bundler) (validation_error no_bundler 32007))
    paymaster_data ← lift (stub_data v svc w.now op context)
    await w for_sender_code
    override ← lift (read_override w op)
    await w for_bundler
    lift (
        judge_estimate v op
          (w.estimate_user_operation_gas (simulated_op svc paymaster_data op) override))
