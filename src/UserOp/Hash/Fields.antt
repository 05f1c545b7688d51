-- ===== src/UserOp/Hash/Fields.antt =====
-- What `paymasterHash` reads of an operation, and what it hashes.
use tornado_4337_relayer.Base.{
  ℕ, ◌≡◌, some, List, [], ◌∷◌, ok, >>=-eq-ok, or_throw, or_throw-eq-ok, ok_injective,
}
use tornado_4337_relayer.Base.Text.{Text}
use tornado_4337_relayer.Fee.{UserOpGas}
use tornado_4337_relayer.Errors.{
  failure, thrown, max_fee_per_gas, max_priority_fee_per_gas, nonce_field,
}
use tornado_4337_relayer.Viem.{Viem, Address, AbiValue, uint48, uint256, abi_address, bytes32}
use tornado_4337_relayer.UserOp.{
  RpcUserOperation, FeeTerms, q, read_gas, pack_high_low, init_code_hash,
}
use tornado_4337_relayer.UserOp.Hash.{fields_hash, paymaster_hash}

module _ (v : Viem) where
  -- What `fieldsHash` reads of an operation.
  pub record Fields (op : RpcUserOperation) (implementation : Address) : Type 0 where
    pub gas : UserOpGas
    pub sender : Address
    pub nonce : ℕ
    pub init_code : Text
    pub account_gas_limits : Text
    pub paymaster_gas : ℕ
    pub gas_fees : Text
    pub gas_is : read_gas v op ≡ ok gas
    pub limits_are :
        pack_high_low v gas.verification_gas_limit gas.call_gas_limit ≡ ok account_gas_limits
    pub sender_is : v.parse_address op.sender ≡ some sender
    pub nonce_is : q v op.nonce nonce_field ≡ ok nonce
    pub init_code_is : init_code_hash v op implementation ≡ ok init_code

  abbrev pub words : (op : RpcUserOperation) (i : Address) → Fields op i → List AbiValue
  words op i f =
      abi_address f.sender
      ∷ uint256 f.nonce
      ∷ bytes32 f.init_code
      ∷ bytes32 (v.keccak256 op.call_data)
      ∷ bytes32 f.account_gas_limits
      ∷ uint256 f.paymaster_gas
      ∷ uint256 f.gas.pre_verification_gas
      ∷ bytes32 f.gas_fees
      ∷ []

  pub fields_hash-Fields :
      (op : RpcUserOperation) (terms : FeeTerms) (h : Text)
      → fields_hash v op terms ≡ ok h
      → (f : Fields op terms.sender_implementation) × (e : Text) × (v.encode_abi
            (words op terms.sender_implementation f)
          ≡ some e)
        × (v.keccak256 e ≡ h)
  unfolding fields_hash
  fields_hash-Fields op terms h returned =
      let (gas, gas_is, r1) = >>=-eq-ok (read_gas v op) _ returned in
      let (limits, limits_are, r2) =
        >>=-eq-ok (pack_high_low v gas.verification_gas_limit gas.call_gas_limit) _ r1 in
      let (priority, priority_is, r3) =
        >>=-eq-ok (q v op.max_priority_fee_per_gas max_priority_fee_per_gas) _ r2 in
      let (max_fee, max_is, r4) = >>=-eq-ok (q v op.max_fee_per_gas max_fee_per_gas) _ r3 in
      let (fees, fees_are, r5) = >>=-eq-ok (pack_high_low v priority max_fee) _ r4 in
      let (packed, packed_is, r6) =
        >>=-eq-ok
          (pack_high_low v gas.paymaster_verification_gas_limit gas.paymaster_post_op_gas_limit) _
          r5 in
      let (word, word_is, r7) =
        >>=-eq-ok (or_throw (v.hex_to_big_int packed) (failure thrown)) _ r6 in
      let (sender, sender_is, r8) =
        >>=-eq-ok (or_throw (v.parse_address op.sender) (failure thrown)) _ r7 in
      let (nonce, nonce_is, r9) = >>=-eq-ok (q v op.nonce nonce_field) _ r8 in
      let (init, init_is, r10) = >>=-eq-ok (init_code_hash v op terms.sender_implementation) _ r9 in
      let f : Fields op terms.sender_implementation = record {
        gas = gas;
        sender = sender;
        nonce = nonce;
        init_code = init;
        account_gas_limits = limits;
        paymaster_gas = word;
        gas_fees = fees;
        gas_is = gas_is;
        limits_are = limits_are;
        sender_is = or_throw-eq-ok (v.parse_address op.sender) _ sender_is;
        nonce_is = nonce_is;
        init_code_is = init_is;
      } in
      let (e, encoded, r11) =
        >>=-eq-ok
          (or_throw (v.encode_abi (words op terms.sender_implementation f)) (failure thrown)) _
          r10 in
      (f, e, or_throw-eq-ok _ _ encoded, ok_injective _ _ r11)

  -- the list that the second `encodeAbiParameters` takes
  abbrev pub term_words : Text → ℕ → Address → FeeTerms → List AbiValue
  term_words fields chain_id paymaster terms =
      bytes32 fields
      ∷ uint256 chain_id
      ∷ abi_address paymaster
      ∷ uint48 terms.valid_until
      ∷ uint48 terms.valid_after
      ∷ uint256 terms.fee
      ∷ uint256 terms.service_fee
      ∷ abi_address terms.refund_to
      ∷ abi_address terms.fee_token
      ∷ uint256 terms.token_per_eth
      ∷ bytes32 terms.withdrawal_hash
      ∷ abi_address terms.sender_implementation
      ∷ []

  pub paymaster_hash-eq-ok :
      (op : RpcUserOperation) (chain_id : ℕ) (paymaster : Address) (terms : FeeTerms) (h : Text)
      → paymaster_hash v op chain_id paymaster terms ≡ ok h
      → (fields : Text) × (fields_hash v op terms ≡ ok fields)
        × (e : Text) × (v.encode_abi (term_words fields chain_id paymaster terms) ≡ some e)
        × (v.keccak256 e ≡ h)
  unfolding paymaster_hash
  paymaster_hash-eq-ok op chain_id paymaster terms h returned =
      let (fields, fields_are, r1) = >>=-eq-ok (fields_hash v op terms) _ returned in
      let (e, encoded, r2) =
        >>=-eq-ok
          (or_throw (v.encode_abi (term_words fields chain_id paymaster terms)) (failure thrown)) _
          r1 in
      (fields, fields_are, e, or_throw-eq-ok _ _ encoded, ok_injective _ _ r2)
