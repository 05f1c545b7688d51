-- ===== src/UserOp/Hash/Binds.antt =====
-- What a signature over `paymasterHash` is bound to.
use tornado_4337_relayer.Base.{ℕ, ◌≡◌, some, List, map}
use tornado_4337_relayer.Base.Text.{Text}
use tornado_4337_relayer.Viem.{
  Viem, Address, AbiValue, uint48, uint256, abi_address, bytes32, abi_bytes,
}
use tornado_4337_relayer.UserOp.{RpcUserOperation, FeeTerms}
use tornado_4337_relayer.UserOp.Hash.Fields.{Fields, words, term_words}

pub data AbiType : Type 0 where
  is_uint48 is_uint256 is_address is_bytes32 is_bytes : AbiType

abbrev pub type_of : AbiValue → AbiType
type_of (uint48 n) = is_uint48
type_of (uint256 n) = is_uint256
type_of (abi_address a) = is_address
type_of (bytes32 b) = is_bytes32
type_of (abi_bytes b) = is_bytes

-- A value with its hex strings as the bytes that they spell. `bytes` stands for viem's `hexToBytes`,
-- as text, which the hash and the encoder read a hex string with.
abbrev pub value_of : (Text → Text) → AbiValue → AbiValue
value_of bytes (bytes32 b) = bytes32 (bytes b)
value_of bytes (abi_bytes b) = abi_bytes (bytes b)
value_of bytes (uint48 n) = uint48 n
value_of bytes (uint256 n) = uint256 n
value_of bytes (abi_address a) = abi_address a

-- The terms, with their hash as bytes.
abbrev pub terms_in : (Text → Text) → FeeTerms → FeeTerms
terms_in bytes terms = record terms { withdrawal_hash = bytes terms.withdrawal_hash }

-- `encodeAbiParameters`: two lists of values of the same types with one encoding are the same, up to
-- the spelling of their bytes.
pub record IsInjective (v : Viem) (bytes : Text → Text) : Type 0 where
  pub encoding :
      (xs ys : List AbiValue) (e e' : Text)
      → map type_of xs ≡ map type_of ys
      → v.encode_abi xs ≡ some e
      → v.encode_abi ys ≡ some e'
      → bytes e ≡ bytes e'
      → map (value_of bytes) xs ≡ map (value_of bytes) ys

module _ (v : Viem) where
  -- The strings that a request's hash is made of: its call data, and the two encodings.
  pub data Hashed (op : RpcUserOperation) (chain_id : ℕ) (paymaster : Address) (terms : FeeTerms)
      : Text → Type 0 where
    the_call_data : Hashed op chain_id paymaster terms op.call_data
    the_fields :
        (f : Fields v op terms.sender_implementation) (e : Text)
        → v.encode_abi (words v op terms.sender_implementation f) ≡ some e
        → Hashed op chain_id paymaster terms e
    the_terms :
        (fields e : Text)
        → v.encode_abi (term_words v fields chain_id paymaster terms) ≡ some e
        → Hashed op chain_id paymaster terms e

  -- No two of the strings that these two requests hash collide.
  abbrev pub NoCollision :
      (Text → Text)
      → (op op' : RpcUserOperation) (chain_id chain_id' : ℕ) (paymaster paymaster' : Address)
      → (terms terms' : FeeTerms) → Type 0
  NoCollision bytes op op' chain_id chain_id' paymaster paymaster' terms terms' =
      (s t : Text)
      → Hashed op chain_id paymaster terms s
      → Hashed op' chain_id' paymaster' terms' t
      → bytes (v.keccak256 s) ≡ bytes (v.keccak256 t)
      → bytes s ≡ bytes t

  -- What two operations share that have one hash, with hex strings as the bytes that they spell.
  pub record Agree (bytes : Text → Text) (op op' : RpcUserOperation) (i i' : Address) : Type 0 where
    pub fields : Fields v op i
    pub fields' : Fields v op' i'
    pub sender : fields.sender ≡ fields'.sender
    pub nonce : fields.nonce ≡ fields'.nonce
    pub init_code : bytes fields.init_code ≡ bytes fields'.init_code
    pub account_gas_limits : bytes fields.account_gas_limits ≡ bytes fields'.account_gas_limits
    pub paymaster_gas : fields.paymaster_gas ≡ fields'.paymaster_gas
    pub pre_verification_gas : fields.gas.pre_verification_gas ≡ fields'.gas.pre_verification_gas
    pub gas_fees : bytes fields.gas_fees ≡ bytes fields'.gas_fees
    pub call_data : bytes op.call_data ≡ bytes op'.call_data
