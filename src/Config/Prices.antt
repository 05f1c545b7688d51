-- ===== src/Config/Prices.antt =====
-- `priceSourceFromEnv`.
use tornado_4337_relayer.Base.{
  ℕ, not, ◌&&◌, Option, none, some, List, [], ◌∷◌, ◌==◌, map, Result, ok, err, ◌>>=◌, ◌>>◌,
  throw_if, or_throw, if◌then◌else◌,
}
use tornado_4337_relayer.Base.Text.{Text, codes, text_eq, text_key}
use tornado_4337_relayer.Base.Trim.{trim, split_text}
use tornado_4337_relayer.Base.Dict
use tornado_4337_relayer.Base.Dict.{Dict}
use tornado_4337_relayer.Viem.{Viem, Address}
use tornado_4337_relayer.UserOp.{truthy}
use tornado_4337_relayer.Price.Fixed.{fixed_prices}
use tornado_4337_relayer.Config.{
  Env, Host, ConfigError, bad_price_entry, unknown_price_source, env, addr,
}

abbrev pub oneinch_offchain_oracle_mainnet : Text
oneinch_offchain_oracle_mainnet = codes "0x07D91f5fb9Bf7798734C3f606dB065549F6893bb"

pub data PriceSource : Type 0 where
  oneinch : (rpc_url : Text) (oracle : Address) → PriceSource
  fixed : (prices : Dict Text Text) → PriceSource

-- `const [token, price] = entry.split(':').map(trim)`, where each is truthy
unfoldable pub token_and_price : List Text → Option (Text × Text)
token_and_price [] = none
token_and_price (token ∷ []) = none
token_and_price (token ∷ price ∷ rest) =
    if truthy (some token) && truthy (some price) then some (token, price) else none

unfoldable pub price_entry : Viem → Text → Result ConfigError (Text × Text)
unfolding token_and_price
price_entry viem entry = do
  (token, price) ←
      or_throw (token_and_price (map trim (split_text b':' entry))) (bad_price_entry entry)
  throw_if (not (viem.is_address token)) (bad_price_entry entry)
  a ← or_throw (viem.parse_address token) (bad_price_entry entry)
  ok (viem.address_text a, price)

-- the loop over the entries
unfoldable pub price_entries :
    Viem → List Text → Dict Text Text → Result ConfigError (Dict Text Text)
unfolding price_entry
price_entries viem [] prices = ok prices
price_entries viem (entry ∷ rest) prices = do
  (token, price) ← price_entry viem entry
  price_entries viem rest (Dict.set prices token price)

unfoldable pub price_source_from_env :
    Host → Env → Text → ℕ → Result ConfigError (Option PriceSource)
price_source_from_env host process rpc_url chain_id = do
  mode ←
      env process (codes "PRICE_SOURCE")
        (some (if chain_id == 1 then codes "oneinch" else codes "none"))
  if text_eq mode (codes "none")
      then ok none
      else if text_eq mode (codes "oneinch")
      then addr host.viem process (codes "ONEINCH_ORACLE") (some oneinch_offchain_oracle_mainnet)
        >>= (λ oracle. ok (some (oneinch rpc_url oracle)))
      else if text_eq mode (codes "fixed")
      then env process (codes "FIXED_TOKENS_PER_ETH") none
        >>= (λ raw. price_entries host.viem (split_text b',' raw) [])
        >>= (λ prices. ok (some (fixed (fixed_prices prices []))))
      else err (unknown_price_source mode)
