-- ===== src/Flow/Transport.antt =====
-- `strictHexTransport` of client/src/flow.ts: the shape in which a request goes to the bundler.
pub mod Canonical
use tornado_4337_relayer.Base.{
  ℕ, zero, suc, ◌+◌, ◌-◌, ◌/◌, ◌%◌, Bool, true, false, not, ◌&&◌, ◌||◌, Option, none, some, List,
  [], ◌∷◌, ◌++◌, ltb, take, drop, length, map, if◌then◌else◌,
}
use tornado_4337_relayer.Base.Text.{Text, codes, text_eq}
use tornado_4337_relayer.Base.Integer.{ℤ, pos, negsuc}
use tornado_4337_relayer.NoteString.{all_hex, after_prefix}
use tornado_4337_relayer.Config.Number.{digits_in}

-- a digit that `toString(16)` prints
unfoldable pub hex_digit : ℕ → ℕ
hex_digit n = if ltb n 10 then b'0' + n else b'a' + (n - 10)

-- With `n < 16 ^ fuel` the fuel is enough, and `n` is.
unfoldable pub hex_from : ℕ → ℕ → Text
unfolding hex_digit
hex_from zero n = []
hex_from (suc fuel) n =
    let high = hex_from fuel (n / 16) in
    if ltb n 16 then hex_digit n ∷ [] else high ++ (hex_digit (n % 16) ∷ [])

-- `toHex(n)`
unfoldable pub hex_text : ℕ → Text
unfolding hex_from
hex_text n = codes "0x" ++ hex_from (suc n) n

-- a value of the operation's JSON that is looked at: a string or something else
pub data JsonValue : Type 0 where
  text : Text → JsonValue
  other : ℕ → JsonValue

-- the digits behind `0x`, if `/^0x[0-9a-fA-F]+$/` matches
unfoldable pub hex_digits_of : Text → Option Text
hex_digits_of s = elim (after_prefix (codes "0x") s) [
  | none ↦ none
  | some [] ↦ none
  | some (c ∷ rest) ↦ if all_hex (c ∷ rest) then some (c ∷ rest) else none
]

-- `BigInt` reads every match
unfoldable pub rewritten : Text → Option ℕ → Text
rewritten s none = s
rewritten s (some n) = hex_text n

unfoldable pub quantity_text : Text → Option Text → Text
unfolding rewritten
quantity_text s none = s
quantity_text s (some digits) = rewritten s (digits_in 16 digits)

-- `quantity(v)`
unfoldable pub quantity : JsonValue → JsonValue
unfolding quantity_text hex_digits_of
quantity (text s) = text (quantity_text s (hex_digits_of s))
quantity (other n) = other n

-- `eip7702Auth`; `rest` stands for the fields that are left as they are
pub record Auth : Type 0 where
  pub chain_id : JsonValue
  pub nonce : JsonValue
  pub y_parity : JsonValue
  pub rest : Text

-- the fields of an operation that are looked at; a missing one is `none`
pub record Operation : Type 0 where
  pub factory : Option JsonValue
  pub factory_data : Option JsonValue
  pub auth : Option Auth
  pub rest : Text

-- a parameter of the request: an object, or something that is passed on as it is
pub data Param : Type 0 where
  object : Operation → Param
  plain : JsonValue → Param

unfoldable pub is_string : Option JsonValue → Text → Bool
is_string (some (text s)) t = text_eq s t
is_string _ t = false

unfoldable pub is_missing : Option JsonValue → Bool
is_missing none = true
is_missing (some v) = false

unfoldable pub canonical_auth : Option Auth → Option Auth
canonical_auth none = none
canonical_auth (some a) = some (record a {
  chain_id = quantity a.chain_id;
  nonce = quantity a.nonce;
  y_parity = quantity a.y_parity;
})

-- `if (…) delete op.factoryData`
unfoldable pub kept_factory_data : Option JsonValue → Option JsonValue → Option JsonValue
unfolding is_string is_missing
kept_factory_data factory factory_data =
    if is_string factory (codes "0x7702")
      && (is_string factory_data (codes "0x") || is_missing factory_data)
    then none
    else factory_data

unfoldable pub canonical_operation : Operation → Operation
unfolding kept_factory_data canonical_auth
canonical_operation op = record op {
  factory_data = kept_factory_data op.factory op.factory_data;
  auth = canonical_auth op.auth;
}

unfoldable pub canonical_param : Param → Param
unfolding canonical_operation
canonical_param (object op) = object (canonical_operation op)
canonical_param (plain v) = plain v

-- `canonical(params)`, for an array
unfoldable pub canonical : List Param → List Param
unfolding canonical_param
canonical params = map canonical_param params
