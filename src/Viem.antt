-- ===== src/Viem.antt =====
-- What the relayer calls of the `viem` library, as a parameter. An address is the number that its
-- twenty bytes spell, so two spellings of one address are one `Address`; every other hex string
-- is kept as text. A result that is `none` stands for an exception.
pub mod Sample
use tornado_4337_relayer.Base.{ℕ, Bool, Option, List}
use tornado_4337_relayer.Base.Text.{Text}

abbrev pub Address : Type 0
Address = ℕ

abbrev pub zero_address : Address
zero_address = 0

-- `{ target, value, data }` of `BaseAccount.execute` and `executeBatch`
pub record DecodedCall : Type 0 where
  pub target : Address
  pub value : ℕ
  pub calldata : Text

-- what `decodeFunctionData` finds with `baseAccountAbi`
pub data AccountCall : Type 0 where
  execute : DecodedCall → AccountCall
  execute_batch : List DecodedCall → AccountCall

-- the arguments of `relayWithdraw`, and of `withdraw` but for its `refund`
pub record WithdrawArgs : Type 0 where
  pub pool : Address
  pub proof : Text
  pub root : Text
  pub nullifier_hash : Text
  pub recipient : Address
  pub relayer : Address
  pub fee : ℕ

-- what it finds with `paymasterAbi`, and with `tornadoInstanceAbi` (whose `withdraw` is sent to the
-- pool itself, so that `pool` is the call's target)
pub data PaymasterCall : Type 0 where
  relay_withdraw : WithdrawArgs → PaymasterCall
  other_function : PaymasterCall

pub data InstanceCall : Type 0 where
  withdraw :
      (proof root nullifier_hash : Text) (recipient relayer : Address) (fee refund : ℕ)
      → InstanceCall
  other_instance_function : InstanceCall

-- a value with the type that `encodeAbiParameters` or `encodePacked` is told
pub data AbiValue : Type 0 where
  uint48 uint256 : ℕ → AbiValue
  abi_address : Address → AbiValue
  bytes32 abi_bytes : Text → AbiValue

pub record Viem : Type 0 where
  -- `isHex`, `hexToBigInt`, `concatHex`, and `pad(toHex(n), { size: 16 })`
  pub is_hex : Text → Bool
  pub hex_to_big_int : Text → Option ℕ
  pub concat_hex : List Text → Text
  pub word16 : ℕ → Option Text
  -- `isAddress`; the reading of an address by `getAddress` and `isAddressEqual`; its spelling
  pub is_address : Text → Bool
  pub parse_address : Text → Option Address
  pub address_text : Address → Text
  -- `keccak256`, `encodeAbiParameters`, `encodePacked`
  pub keccak256 : Text → Text
  pub encode_abi : List AbiValue → Option Text
  pub encode_packed : List AbiValue → Option Text
  -- `decodeFunctionData` with each of the three ABIs
  pub decode_account : Text → Option AccountCall
  pub decode_paymaster : Text → Option PaymasterCall
  pub decode_instance : Text → Option InstanceCall
