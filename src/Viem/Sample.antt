-- ===== src/Viem/Sample.antt =====
-- A concrete `Viem` for the examples: hexadecimal numbers are read as viem reads them, and the
-- codecs know one account call, `0x01` as the `relayWithdraw` of `sample_args`, and nothing else.
use tornado_4337_relayer.Base.{
  ℕ, ◌+◌, ◌*◌, ◌-◌, true, Option, none, some, List, [], ◌∷◌, ◌++◌, ltb, drop, if◌then◌else◌,
}
use tornado_4337_relayer.Base.Text.{Text, codes, text_eq}
use tornado_4337_relayer.Base.Decimal.{decimal}
use tornado_4337_relayer.Viem.{
  Viem, Address, DecodedCall, execute_batch, WithdrawArgs, PaymasterCall, relay_withdraw,
}

abbrev pub sample_paymaster : Address
sample_paymaster = 5

abbrev pub sample_args : WithdrawArgs
sample_args = record {
  pool = 7;
  proof = codes "0x02";
  root = codes "0x03";
  nullifier_hash = codes "0x04";
  recipient = 10;
  relayer = 6;
  fee = 100;
}

abbrev pub sample_calls : List DecodedCall
sample_calls =
    record { target = 20; value = 3; calldata = codes "0x" }
    ∷ record { target = sample_paymaster; value = 0; calldata = codes "0x01" }
    ∷ []

abbrev digit : ℕ → ℕ
digit c = if ltb c 58 then c - 48 else if ltb c 71 then c - 55 else c - 87

abbrev from_hex : ℕ → Text → ℕ
from_hex n [] = n
from_hex n (c ∷ s) = from_hex (16 * n + digit c) s

abbrev pub sample_hex : Text → Option ℕ
sample_hex s = some (from_hex 0 (drop 2 s))

abbrev joined : List Text → Text
joined [] = []
joined (s ∷ ss) = drop 2 s ++ joined ss

abbrev sample_decode : Text → Option PaymasterCall
sample_decode s = if text_eq s (codes "0x01") then some (relay_withdraw sample_args) else none

abbrev pub sample_viem : Viem
sample_viem = record {
  is_hex = λ s. true;
  hex_to_big_int = sample_hex;
  concat_hex = λ ss. codes "0x" ++ joined ss;
  word16 = λ n. some (codes "0x" ++ decimal n);
  is_address = λ s. true;
  parse_address = sample_hex;
  address_text = λ a. codes "0x" ++ decimal a;
  keccak256 = λ s. s;
  encode_abi = λ values. some (codes "0x");
  encode_packed = λ values. some (codes "0x");
  decode_account = λ s. some (execute_batch sample_calls);
  decode_paymaster = sample_decode;
  decode_instance = λ s. none;
}
