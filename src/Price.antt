-- ===== src/Price.antt =====
-- relayer/src/price.ts: the rate of an ERC-20 pool's token, from the 1inch oracle with a cache.
-- The fixed prices are in `Fixed`.
pub mod Cached
pub mod Fixed
pub mod Examples
use tornado_4337_relayer.Base.{
  ℕ, ◌+◌, ◌*◌, ◌/◌, ◌^◌, Bool, Option, none, some, List, [], ◌∷◌, ltb, ◌==◌, Result, ok, err,
  if◌then◌else◌,
}
use tornado_4337_relayer.Base.Text.{Text, codes, text_eq, text_key}
use tornado_4337_relayer.Base.Dict
use tornado_4337_relayer.Base.Dict.{Dict}
use tornado_4337_relayer.Fee.{rate_scale}
use tornado_4337_relayer.Errors.{Error, failure, thrown}
use tornado_4337_relayer.UserOp.{to_lower_case}

pub record CachedRate : Type 0 where
  pub value : ℕ
  pub at : ℕ

abbrev pub Cache : Type 0
Cache = Dict Text CachedRate

-- `WRAPPED_TOKENS.has(key)`
abbrev pub is_wrapped : Text → Bool
is_wrapped key = text_eq key (codes "0x5d3a536e4d6dbd6114cc1ead35777bab948e3643")

-- the wei per whole token that the oracle's rate means
unfoldable pub wei_per_token : ℕ → ℕ → ℕ
wei_per_token rate decimals = rate * 10 ^ decimals / rate_scale

-- the value that is cached and returned: a price of zero throws
unfoldable pub value_of : ℕ → ℕ → Option ℕ
unfolding wei_per_token
value_of rate decimals =
    let wei = wei_per_token rate decimals in
    if wei == 0 then none else some (rate_scale * 10 ^ decimals / wei)

-- `weiPerTokenFrom`; a division by zero throws
unfoldable pub wei_per_token_from : ℕ → ℕ → Option ℕ
wei_per_token_from token_per_eth decimals =
    if token_per_eth == 0 then none else some (rate_scale * 10 ^ decimals / token_per_eth)

-- What a call meets outside: the clock before and after the oracle's answer, the answer (`none` is
-- one that throws), and what other calls do to the cache while it waits.
pub record Oracle : Type 0 where
  pub now : ℕ
  pub later : ℕ
  pub rate_to_eth : Text → Bool → Option ℕ
  pub meanwhile : Cache → Cache

-- the answer has come
unfoldable pub answered : Oracle → Text → ℕ → Option ℕ → Cache → Result Error ℕ × Cache
answered o key decimals none cache = (err (failure thrown), cache)
answered o key decimals (some rate) cache = elim (value_of rate decimals) [
  | none ↦ (err (failure thrown), cache)
  | some value ↦ (ok value, Dict.set cache key (record { value = value; at = o.later }))
]

-- `OneInchPriceSource.tokenPerEth(token, decimals)`
unfoldable pub token_per_eth : ℕ → Oracle → Text → ℕ → Cache → Result Error ℕ × Cache
token_per_eth ttl_ms o token decimals cache =
    let key = to_lower_case token in
    let asked =
      answered o key decimals (o.rate_to_eth token (is_wrapped key)) (o.meanwhile cache) in
    elim (Dict.get cache key) [
      | none ↦ asked
      | some hit ↦ if ltb o.now (hit.at + ttl_ms) then (ok hit.value, cache) else asked
    ]

-- a division by zero throws
unfoldable pub divided : ℕ → Result Error ℕ → Result Error ℕ
unfolding wei_per_token_from
divided decimals (err e) = err e
divided decimals (ok rate) = elim (wei_per_token_from rate decimals) [
  | none ↦ err (failure thrown)
  | some wei ↦ ok wei
]

-- `OneInchPriceSource.weiPerToken(token, decimals)`
unfoldable pub wei_per_token_now : ℕ → Oracle → Text → ℕ → Cache → Result Error ℕ × Cache
unfolding divided
wei_per_token_now ttl_ms o token decimals cache =
    let (rate, cache') = token_per_eth ttl_ms o token decimals cache in
    (divided decimals rate, cache')
