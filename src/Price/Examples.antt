-- ===== src/Price/Examples.antt =====
-- A token of 18 decimals that costs half a thousandth of an ETH.
use tornado_4337_relayer.Base.{ℕ, ◌*◌, ◌^◌, ◌≡◌, refl, Option, some, [], ◌∷◌, ok}
use tornado_4337_relayer.Base.Text.{Text, codes, text_eq}
use tornado_4337_relayer.Base.Dict
use tornado_4337_relayer.UserOp.{to_lower_case}
use tornado_4337_relayer.Price.{Cache, wei_per_token, value_of, Oracle, answered, token_per_eth}
use tornado_4337_relayer.Price.Cached.{IsHonest, IsFresh, token_per_eth-IsFresh}

abbrev sample_rate : ℕ
sample_rate = 5 * 10 ^ 14

abbrev sample_value : ℕ
sample_value = 2_000 * 10 ^ 18

abbrev sample_oracle : Oracle
sample_oracle = record {
  now = 1000;
  later = 1200;
  rate_to_eth = λ token wrapped. some sample_rate;
  meanwhile = λ cache. cache;
}

abbrev sample_token : Text
sample_token = codes "0xAB"

abbrev Seen : Text → ℕ → ℕ → Type 0
Seen key value at = value_of sample_rate 18 ≡ some value

abbrev empty_cache : Cache
empty_cache = []

abbrev filled_cache : Cache
filled_cache = (codes "0xab", record { value = sample_value; at = 1200 }) ∷ []

empty_cache-IsHonest : IsHonest Seen empty_cache
unfolding Dict.get
empty_cache-IsHonest = record { was_seen = λ key c at. cc }

answers_sample :
    token_per_eth 30_000 sample_oracle sample_token 18 empty_cache ≡ (ok sample_value, filled_cache)
unfolding token_per_eth answered value_of wei_per_token Dict.get Dict.set text_eq
answers_sample = refl

now_seen :
    (r v : ℕ)
    → ◌≡◌ {A = Option ℕ} (some sample_rate) (some r)
    → value_of r 18 ≡ some v
    → value_of sample_rate 18 ≡ some v
now_seen r v rates values = cc

token_per_eth-IsFresh_example :
    IsFresh Seen 30_000 sample_oracle (to_lower_case sample_token) sample_value
    × IsHonest Seen filled_cache
token_per_eth-IsFresh_example =
    token_per_eth-IsFresh Seen 30_000 sample_oracle sample_token 18 empty_cache filled_cache
      sample_value empty_cache-IsHonest empty_cache-IsHonest now_seen answers_sample
