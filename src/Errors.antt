-- ===== src/Errors.antt =====
-- What the relayer throws. `ValidationError` carries a JSON-RPC code, `Error` does not; the codes
-- are negative in the program, and here stand by their absolute value. A message is a constructor
-- of `Reason` with the values printed in it that a caller could act on.
use tornado_4337_relayer.Base.{ℕ}

pub data Status : Type 0 where
  pending signed : Status

pub data GasField : Type 0 where
  call_gas_limit verification_gas_limit pre_verification_gas : GasField
  paymaster_verification_gas_limit paymaster_post_op_gas_limit : GasField
  max_fee_per_gas max_priority_fee_per_gas nonce_field : GasField

pub data Reason : Type 0 where
  -- validate.ts
  not_account_calls no_withdraw only_relay_withdraw no_relay_withdraw one_withdrawal : Reason
  wrong_relayer wrong_recipient instance_not_served carries_value : Reason
  -- userop.ts
  not_hex_quantity : GasField → Reason
  signature_not_65_bytes implementation_needed : Reason
  -- store.ts and the store of service.ts
  reservation_lost write_failed not_a_store malformed_nullifier_hash malformed_entry : Reason
  -- service.ts, `sign` and its checks
  wrong_paymaster refund_to_not_address fee_exceeds_denomination priority_exceeds_max : Reason
  cannot_price : Reason
  fee_below_minimum : ℕ → ℕ → Reason
  note_held : Status → ℕ → Reason
  sender_has_no_code sender_is_contract implementation_not_sponsored : Reason
  above_cap : ℕ → ℕ → Reason
  deposit_unreadable : Reason
  unknown_costs : ℕ → ℕ → Reason
  deposit_short : ℕ → ℕ → ℕ → Reason
  registry_unreadable registration_moved : Reason
  already_spent unknown_root simulation_failed simulation_did_not_revert would_revert : Reason
  no_bundler bundler_failed no_usable_estimate : Reason
  estimate_does_not_fit : Reason
  could_not_record : Reason
  quoted_fee_not_below_denomination : ℕ → ℕ → Reason
  -- service.ts, `create`
  no_implementations bundler_url_missing simulation_disabled : Reason
  wrong_chain wrong_entry_point wrong_signer : ℕ → Reason
  token_unreadable no_price_source symbol_unreadable : ℕ → Reason
  reward_account_needs_router not_registered : Reason
  wrong_master : ℕ → Reason
  -- an error of a library or of the node, passed on as it is
  thrown : Reason

pub data Error : Type 0 where
  validation_error : Reason → ℕ → Error
  failure : Reason → Error

-- `new ValidationError(message)`
abbrev pub default_code : ℕ
default_code = 32001
