-- ===== src/Config.antt =====
-- relayer/src/config.ts: the configuration of the set-up and of the service, read from the
-- environment.
pub mod Number
pub mod Prices
pub mod Shared
pub mod ForSetup
pub mod ForService
pub mod Chosen
pub mod Identity
pub mod Read
pub mod Startable
pub mod Listing
pub mod Examples
use tornado_4337_relayer.Base.{
  ℕ, Bool, true, false, not, ◌||◌, Option, none, some, List, [], ◌∷◌, map, filter, Result, ok, err,
  ◌>>=◌, ◌>>◌, throw_if, or_throw, if◌then◌else◌,
}
use tornado_4337_relayer.Base.Text.{Text, codes, text_eq, text_key}
use tornado_4337_relayer.Base.Trim.{trim, split_text}
use tornado_4337_relayer.Base.Integer.{ℤ, pos, negsuc}
use tornado_4337_relayer.Base.Dict
use tornado_4337_relayer.Base.Dict.{Dict}
use tornado_4337_relayer.Viem.{Viem, Address}
use tornado_4337_relayer.UserOp.{truthy}
use tornado_4337_relayer.Config.Number.{string_to_big_int}

-- `process.env`
abbrev pub Env : Type 0
Env = Text → Option Text

-- What is not in the source: `viem`, the address of a private key (`privateKeyToAccount`),
-- `Number(s)` where that is a natural number and `BigInt(Math.round(Number(s) * 100))` where that is
-- a number at all.
pub record Host : Type 0 where
  pub viem : Viem
  pub account_address : Text → Address
  pub number : Text → Option ℕ
  pub percent_bps : Text → Option ℤ

pub data ConfigError : Type 0 where
  missing_env : (name : Text) → ConfigError
  not_an_address : (name value : Text) → ConfigError
  bad_price_entry unknown_price_source unknown_mode : (value : Text) → ConfigError
  bad_signer_key empty_allowlist : ConfigError
  simulation_not_optional : (value : Text) → ConfigError
  -- `BigInt` throws on the text
  not_an_integer : (value : Text) → ConfigError
  -- The model's own: the records of the configuration hold natural numbers, and the setting is
  -- another number or none.
  not_natural : (value : Text) → ConfigError

-- `ALIASES`
abbrev aliases : Dict Text Text
aliases =
    (codes "RELAYER_PRIVATE_KEY", codes "PRIVATE_KEY")
    ∷ (codes "RPC_URL", codes "HTTP_RPC_URL")
    ∷ (codes "CHAIN_ID", codes "NET_ID")
    ∷ []

unfoldable pub alias_of : Text → Option Text
alias_of = Dict.get aliases

-- `v !== undefined && v !== ''`, which is also what `v ? … : …` asks
unfoldable pub filled : Option Text → Option Text
filled none = none
filled (some []) = none
filled (some (c ∷ s)) = some (c ∷ s)

unfoldable pub alias_value : Env → Option Text → Option Text
alias_value process none = none
alias_value process (some alias) = filled (process alias)

unfoldable pub env_or : Text → Option Text → Option Text → Option Text → Result ConfigError Text
env_or name (some v) aliased fallback = ok v
env_or name none (some v) fallback = ok v
env_or name none none fallback = or_throw fallback (missing_env name)

-- `env(name, fallback)`
unfoldable pub env : Env → Text → Option Text → Result ConfigError Text
env process name fallback =
    env_or name (filled (process name)) (alias_value process (alias_of name)) fallback

-- `if (!isAddress(v)) throw …; getAddress(v)`
unfoldable pub checked_address : Viem → Text → Text → Result ConfigError Address
checked_address viem name v = do
  throw_if (not (viem.is_address v)) (not_an_address name v)
  or_throw (viem.parse_address v) (not_an_address name v)

-- `addr(name, fallback)`
unfoldable pub addr : Viem → Env → Text → Option Text → Result ConfigError Address
addr viem process name fallback = do v ← env process name fallback; checked_address viem name v

-- `process.env[name] || fallback ? addr(name, fallback) : undefined`
unfoldable pub optional_addr : Viem → Env → Text → Option Text → Result ConfigError (Option Address)
optional_addr viem process name fallback =
    if truthy (process name) || truthy fallback
    then addr viem process name fallback >>= (λ a. ok (some a))
    else ok none

-- `BigInt(s)`, for a record that holds a natural number
unfoldable pub integer_of : Text → Option ℤ → Result ConfigError ℕ
integer_of value none = err (not_an_integer value)
integer_of value (some (pos n)) = ok n
integer_of value (some (negsuc n)) = err (not_natural value)

unfoldable pub natural_of : Text → Result ConfigError ℕ
unfolding integer_of
natural_of value = integer_of value (string_to_big_int value)

-- `BigInt(env(name, fallback))` and `Number(env(name, fallback))`
unfoldable pub big_int_env : Env → Text → Option Text → Result ConfigError ℕ
big_int_env process name fallback = do value ← env process name fallback; natural_of value

unfoldable pub number_env : Host → Env → Text → Option Text → Result ConfigError ℕ
number_env host process name fallback = do
  value ← env process name fallback
  or_throw (host.number value) (not_natural value)

-- `env(name, fallback) === text`
unfoldable pub flag_env : Env → Text → Option Text → Text → Result ConfigError Bool
flag_env process name fallback text = do value ← env process name fallback; ok (text_eq value text)

-- `if (!isAddress(s)) throw …; return getAddress(s)` for each entry in turn
unfoldable pub addresses_of : Viem → Text → List Text → Result ConfigError (List Address)
addresses_of viem name [] = ok []
addresses_of viem name (entry ∷ entries) = do
  a ← checked_address viem name entry
  rest ← addresses_of viem name entries
  ok (a ∷ rest)

-- `raw.split(',').map((s) => s.trim()).filter(Boolean)`
unfoldable pub entries_of : Text → List Text
entries_of raw = filter (λ s. elim s [ [] ↦ false | _ ∷ _ ↦ true ]) (map trim (split_text b',' raw))
