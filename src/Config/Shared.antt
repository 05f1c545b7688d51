-- ===== src/Config/Shared.antt =====
-- What the two configurations both read from the environment.
use tornado_4337_relayer.Base.{
  ℕ, not, ◌||◌, none, some, ◌==◌, length, Result, ok, ◌>>=◌, ◌>>◌, throw_if,
}
use tornado_4337_relayer.Base.Text.{Text, codes, text_key}
use tornado_4337_relayer.Config.{Env, Host, ConfigError, bad_signer_key, env, big_int_env}

abbrev pub entry_point_v08 : Text
entry_point_v08 = codes "0x4337084D9E255Ff0702461CF8895CE9E3b5Ff108"

-- the key, checked; `isHex` is asked before the length
unfoldable pub signer_key_from_env : Host → Env → Result ConfigError Text
signer_key_from_env host process = do
  key ← env process (codes "RELAYER_PRIVATE_KEY") none
  throw_if (not (host.viem.is_hex key) || not (length key == 66)) bad_signer_key
  ok key

unfoldable pub chain_id_from_env : Env → Result ConfigError ℕ
chain_id_from_env process = big_int_env process (codes "CHAIN_ID") (some (codes "1"))
