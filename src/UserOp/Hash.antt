-- ===== src/UserOp/Hash.antt =====
-- relayer/src/userop.ts: the hashes that the relayer signs, and the paymaster's data.
pub mod Fields
pub mod Binds
pub mod Examples
use tornado_4337_relayer.Base.{
  ℕ, ◌+◌, ◌*◌, not, [], ◌∷◌, ◌==◌, length, Result, ok, ◌>>=◌, ◌>>◌, throw_if, or_throw,
}
use tornado_4337_relayer.Base.Text.{Text}
use tornado_4337_relayer.Errors.{
  max_fee_per_gas, max_priority_fee_per_gas, nonce_field, Error, failure, signature_not_65_bytes,
  thrown,
}
use tornado_4337_relayer.Viem.{
  Viem, Address, uint48, uint256, abi_address, bytes32, abi_bytes, WithdrawArgs,
}
use tornado_4337_relayer.UserOp.{
  RpcUserOperation, FeeTerms, signature_length, q, read_gas, pack_high_low, init_code_hash,
}

module _ (v : Viem) where
  unfoldable pub encode_paymaster_data : FeeTerms → Text → Result Error Text
  encode_paymaster_data terms signature = do
    throw_if (not (length signature == 2 + 2 * signature_length)) (failure signature_not_65_bytes)
    or_throw
        (v.encode_packed (
          uint48 terms.valid_until
          ∷ uint48 terms.valid_after
          ∷ uint256 terms.fee
          ∷ uint256 terms.service_fee
          ∷ abi_address terms.refund_to
          ∷ abi_address terms.fee_token
          ∷ uint256 terms.token_per_eth
          ∷ bytes32 terms.withdrawal_hash
          ∷ abi_address terms.sender_implementation
          ∷ abi_bytes signature
          ∷ []))
        (failure thrown)

  unfoldable pub withdrawal_hash : WithdrawArgs → Result Error Text
  withdrawal_hash w = do
    encoded ←
        or_throw
          (v.encode_abi (
            abi_address w.pool
            ∷ bytes32 (v.keccak256 w.proof)
            ∷ bytes32 w.root
            ∷ bytes32 w.nullifier_hash
            ∷ abi_address w.recipient
            ∷ abi_address w.relayer
            ∷ uint256 w.fee
            ∷ []))
          (failure thrown)
    ok (v.keccak256 encoded)

  -- the local `fieldsHash`
  pub fields_hash : RpcUserOperation → FeeTerms → Result Error Text
  fields_hash op terms = do
    gas ← read_gas v op
    account_gas_limits ← pack_high_low v gas.verification_gas_limit gas.call_gas_limit
    priority ← q v op.max_priority_fee_per_gas max_priority_fee_per_gas
    max_fee ← q v op.max_fee_per_gas max_fee_per_gas
    gas_fees ← pack_high_low v priority max_fee
    paymaster_gas ←
        pack_high_low v gas.paymaster_verification_gas_limit gas.paymaster_post_op_gas_limit
    paymaster_gas_word ← or_throw (v.hex_to_big_int paymaster_gas) (failure thrown)
    sender ← or_throw (v.parse_address op.sender) (failure thrown)
    nonce ← q v op.nonce nonce_field
    init_code ← init_code_hash v op terms.sender_implementation
    encoded ←
        or_throw
          (v.encode_abi (
            abi_address sender
            ∷ uint256 nonce
            ∷ bytes32 init_code
            ∷ bytes32 (v.keccak256 op.call_data)
            ∷ bytes32 account_gas_limits
            ∷ uint256 paymaster_gas_word
            ∷ uint256 gas.pre_verification_gas
            ∷ bytes32 gas_fees
            ∷ []))
          (failure thrown)
    ok (v.keccak256 encoded)

  unfoldable pub paymaster_hash : RpcUserOperation → ℕ → Address → FeeTerms → Result Error Text
  unfolding fields_hash
  paymaster_hash op chain_id paymaster terms = do
    fields ← fields_hash op terms
    encoded ←
        or_throw
          (v.encode_abi (
            bytes32 fields
            ∷ uint256 chain_id
            ∷ abi_address paymaster
            ∷ uint48 terms.valid_until
            ∷ uint48 terms.valid_after
            ∷ uint256 terms.fee
            ∷ uint256 terms.service_fee
            ∷ abi_address terms.refund_to
            ∷ abi_address terms.fee_token
            ∷ uint256 terms.token_per_eth
            ∷ bytes32 terms.withdrawal_hash
            ∷ abi_address terms.sender_implementation
            ∷ []))
          (failure thrown)
    ok (v.keccak256 encoded)
