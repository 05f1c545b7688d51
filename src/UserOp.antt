-- ===== src/UserOp.antt =====
-- relayer/src/userop.ts: the operation as it travels over JSON-RPC, its gas fields, and what the
-- relayer signs. (`UserOpGas` and `totalGas` are in `Fee`.)
pub mod Hash
use tornado_4337_relayer.Base.{
  ℕ, ◌+◌, ◌-◌, ◌*◌, Bool, true, false, not, ◌&&◌, Option, none, some, [], ◌∷◌, ◌++◌, ltb, leb, ◌==◌,
  length, take, drop, replicate, map, Result, ok, err, ◌>>=◌, ◌>>◌, throw_if, or_throw,
  if◌then◌else◌,
}
use tornado_4337_relayer.Base.Text.{Text, codes, text_eq}
use tornado_4337_relayer.Fee.{UserOpGas}
use tornado_4337_relayer.Errors.{
  GasField, call_gas_limit, verification_gas_limit, pre_verification_gas,
  paymaster_verification_gas_limit, paymaster_post_op_gas_limit, max_fee_per_gas,
  max_priority_fee_per_gas, nonce_field, Error, failure, not_hex_quantity, signature_not_65_bytes,
  implementation_needed, thrown,
}
use tornado_4337_relayer.Viem.{
  Viem, Address, zero_address, uint48, uint256, abi_address, bytes32, abi_bytes, WithdrawArgs,
}

-- `eip7702Auth`; `contract_address` is the other spelling that the service reads
pub record Authorization : Type 0 where
  pub address : Option Text
  pub contract_address : Option Text

-- A field that the caller left out is `none`.
pub record RpcUserOperation : Type 0 where
  pub sender : Text
  pub nonce : Option Text
  pub factory : Option Text
  pub factory_data : Option Text
  pub init_code : Option Text
  pub call_data : Text
  pub call_gas_limit : Option Text
  pub verification_gas_limit : Option Text
  pub pre_verification_gas : Option Text
  pub max_fee_per_gas : Option Text
  pub max_priority_fee_per_gas : Option Text
  pub paymaster : Option Text
  pub paymaster_verification_gas_limit : Option Text
  pub paymaster_post_op_gas_limit : Option Text
  pub paymaster_data : Option Text
  pub signature : Option Text
  pub eip7702_auth : Option Authorization

pub record FeeTerms : Type 0 where
  pub valid_until : ℕ
  pub valid_after : ℕ
  pub fee : ℕ
  pub service_fee : ℕ
  pub refund_to : Address
  pub fee_token : Address
  pub token_per_eth : ℕ
  pub withdrawal_hash : Text
  pub sender_implementation : Address

abbrev pub paymaster_data_offset : ℕ
paymaster_data_offset = 52

abbrev pub paymaster_and_data_length : ℕ
paymaster_and_data_length = 317

abbrev pub signature_length : ℕ
signature_length = 65

-- r = s = 1, v = 27
abbrev pub dummy_signature : Text
dummy_signature =
    codes "0x" ++ (replicate 62 b'0' ++ (codes "01" ++ (replicate 62 b'0' ++ codes "011b")))

-- `a ?? b`
abbrev pub or_else {ℓ} : {A : Type ℓ} → Option A → A → A
or_else none b = b
or_else (some a) b = a

-- An optional text that JavaScript takes for true: present and not empty.
abbrev pub truthy : Option Text → Bool
truthy none = false
truthy (some []) = false
truthy (some (c ∷ s)) = true

abbrev pub starts_with : Text → Text → Bool
starts_with s prefix = text_eq (take (length prefix) s) prefix

abbrev pub to_lower_case : Text → Text
to_lower_case = map λ c. if leb b'A' c && leb c b'Z' then c + 32 else c

-- `s.padEnd(40, '0')`
abbrev pad_end_40 : Text → Text
pad_end_40 s = s ++ replicate (40 - length s) b'0'

abbrev pub eip7702_initcode_marker : Text
eip7702_initcode_marker = codes "0x7702" ++ replicate 36 b'0'

unfoldable pub is_eip7702_init_code : Text → Bool
unfolding text_eq
is_eip7702_init_code init_code =
    let hex = to_lower_case init_code in
    starts_with hex (codes "0x7702")
    && text_eq (pad_end_40 (take 40 (drop 2 hex))) (drop 2 eip7702_initcode_marker)

module _ (v : Viem) where
  unfoldable pub q : Option Text → GasField → Result Error ℕ
  q none field = err (failure (not_hex_quantity field))
  q (some value) field =
      if v.is_hex value
      then or_throw (v.hex_to_big_int value) (failure thrown)
      else err (failure (not_hex_quantity field))

  unfoldable pub read_gas : RpcUserOperation → Result Error UserOpGas
  read_gas op = do
    call ← q op.call_gas_limit call_gas_limit
    verification ← q op.verification_gas_limit verification_gas_limit
    pre_verification ← q op.pre_verification_gas pre_verification_gas
    paymaster_verification ←
        q (some (or_else op.paymaster_verification_gas_limit (codes "0x0")))
          paymaster_verification_gas_limit
    post_op ←
        q (some (or_else op.paymaster_post_op_gas_limit (codes "0x0"))) paymaster_post_op_gas_limit
    ok (record {
      call_gas_limit = call;
      verification_gas_limit = verification;
      pre_verification_gas = pre_verification;
      paymaster_verification_gas_limit = paymaster_verification;
      paymaster_post_op_gas_limit = post_op;
    })

  unfoldable pub pack_high_low : ℕ → ℕ → Result Error Text
  pack_high_low high low = do
    h ← or_throw (v.word16 high) (failure thrown)
    l ← or_throw (v.word16 low) (failure thrown)
    ok (v.concat_hex (h ∷ l ∷ []))

  abbrev init_code_of_factory : Text → Text → Text
  init_code_of_factory factory factory_data =
      if text_eq factory (codes "0x7702")
      then v.concat_hex (eip7702_initcode_marker ∷ factory_data ∷ [])
      else v.concat_hex (factory ∷ factory_data ∷ [])

  unfoldable pub pack_init_code : RpcUserOperation → Text
  unfolding text_eq
  pack_init_code op = elim op.init_code [
    | some init_code ↦ init_code
    | none ↦
        if truthy op.factory
        then init_code_of_factory (or_else op.factory []) (or_else op.factory_data (codes "0x"))
        else codes "0x"
  ]

  unfoldable pub init_code_hash : RpcUserOperation → Address → Result Error Text
  unfolding pack_init_code is_eip7702_init_code
  init_code_hash op sender_implementation =
      let init_code = pack_init_code op in
      if not (is_eip7702_init_code init_code)
      then ok (v.keccak256 init_code)
      else if sender_implementation == zero_address
      then err (failure implementation_needed)
      else ok (
          v.keccak256 (
            v.concat_hex (
              v.address_text sender_implementation
              ∷ (if ltb 42 (length init_code) then codes "0x" ++ drop 42 init_code else codes "0x")
              ∷ [])))
