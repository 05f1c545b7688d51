-- ===== src/Price/Cached.antt =====
-- What a rate from the cache is worth, and how old it is.
use mathlib.Core.Path.{subst}
use tornado_4337_relayer.Base.{
  ℕ, ◌+◌, ◌<◌, ◌≡◌, refl, ap, Option, none, some, arith, ltb, ok, Option-cases, Bool-cases, inl,
  inr, ◌⊎◌,
}
use tornado_4337_relayer.Base.Text.{Text, text_key, text_eq, text_eq_iff}
use tornado_4337_relayer.Base.Dict
use tornado_4337_relayer.Base.Dict.{Dict, get-set}
use tornado_4337_relayer.UserOp.{to_lower_case}
use tornado_4337_relayer.Price.{
  CachedRate, Cache, is_wrapped, value_of, Oracle, answered, token_per_eth,
}

-- Every rate in the cache was once the oracle's answer, at the time that stands beside it: `seen key
-- value at` says so of one answer.
pub record IsHonest (seen : Text → ℕ → ℕ → Type 0) (cache : Cache) : Type 0 where
  pub was_seen : (key : Text) (c : CachedRate) → Dict.get cache key ≡ some c → seen key c.value c.at

-- What a rate is worth that is returned at `now`: it was the oracle's answer less than `ttl_ms` ago,
-- or is its answer to this call.
pub record IsFresh (seen : Text → ℕ → ℕ → Type 0) (ttl_ms : ℕ) (o : Oracle) (key : Text) (value : ℕ)
    : Type 0 where
  pub at : ℕ
  pub answer : seen key value at
  pub young : (o.now < at + ttl_ms) ⊎ (at ≡ o.later)

module _ (seen : Text → ℕ → ℕ → Type 0) where
  set-IsHonest :
      (cache : Cache) (key : Text) (c : CachedRate)
      → IsHonest seen cache
      → seen key c.value c.at
      → IsHonest seen (Dict.set cache key c)
  set-IsHonest cache key c honest answer = record {
    was_seen = λ j m at. elim (Bool-cases (text_eq key j)) [
      | inl same ↦
          let keys : key ≡ j = (text_eq_iff key j).0 same in
          let rates : c ≡ m = ground (arith, get-set cache key j c) in
          subst (λ x. seen x m.value m.at) keys (subst (λ x. seen key x.value x.at) rates answer)
      | inr ne ↦ honest.was_seen j m (ground (arith, get-set cache key j c))
    ];
  }

  answered-IsFresh :
      (ttl_ms : ℕ) (o : Oracle) (key : Text) (decimals : ℕ) (rate : Option ℕ) (cache c : Cache)
      (value : ℕ)
      → IsHonest seen cache
      → ((r v : ℕ) → rate ≡ some r → value_of r decimals ≡ some v → seen key v o.later)
      → answered o key decimals rate cache ≡ (ok value, c)
      → IsFresh seen ttl_ms o key value × IsHonest seen c
  unfolding answered
  answered-IsFresh ttl_ms o key decimals none cache c value honest now_seen e = cc
  answered-IsFresh ttl_ms o key decimals (some r) cache c value honest now_seen e =
      elim (Option-cases (value_of r decimals)) [
        | inl zero_price ↦ cc (rw (zero_price, answered) at e)
        | inr (v, is) ↦
            let answer = now_seen r v refl is in
            let done = rw (is, answered) at e in
            let same : v ≡ value = cc (done) in
            let stored : Dict.set cache key (record { value = v; at = o.later }) ≡ c =
              ap (λ x. x.1) done in
            (
              record {
                at = o.later;
                answer = subst (λ x. seen key x o.later) same answer;
                young = inr refl;
              },
              subst (IsHonest seen) stored (set-IsHonest cache key _ honest answer),
            )
      ]

  -- A rate that `tokenPerEth` returns was the oracle's answer for this token less than the cache's
  -- time to live ago, or is its answer to this call, and the cache holds only answers of the oracle
  -- afterwards; if it did so before, the calls that ran meanwhile kept that, and `seen` holds for
  -- the answer to this call.
  pub token_per_eth-IsFresh :
      (ttl_ms : ℕ) (o : Oracle) (token : Text) (decimals : ℕ) (cache c : Cache) (value : ℕ)
      → IsHonest seen cache
      → IsHonest seen (o.meanwhile cache)
      → ((r v : ℕ)
          → o.rate_to_eth token (is_wrapped (to_lower_case token)) ≡ some r
          → value_of r decimals ≡ some v
          → seen (to_lower_case token) v o.later)
      → token_per_eth ttl_ms o token decimals cache ≡ (ok value, c)
      → IsFresh seen ttl_ms o (to_lower_case token) value × IsHonest seen c
  unfolding token_per_eth
  token_per_eth-IsFresh ttl_ms o token decimals cache c value honest honest' now_seen e =
      let key = to_lower_case token in
      let rate = o.rate_to_eth token (is_wrapped key) in
      elim (Option-cases (Dict.get cache key)) [
        | inl missing ↦
            answered-IsFresh ttl_ms o key decimals rate (o.meanwhile cache) c value honest' now_seen
              (rw (missing, token_per_eth) at e)
        | inr (hit, is) ↦
            let e1 = rw (is, token_per_eth) at e in
            elim (Bool-cases (ltb o.now (hit.at + ttl_ms))) [
              | inr old ↦
                  answered-IsFresh ttl_ms o key decimals rate (o.meanwhile cache) c value honest'
                    now_seen (rw old at e1)
              | inl young ↦
                  let done = rw young at e1 in
                  let same : hit.value ≡ value = cc (done) in
                  (
                    record {
                      at = hit.at;
                      answer = subst (λ x. seen key x hit.at) same (honest.was_seen key hit is);
                      young = inl (ground arith);
                    },
                    subst (IsHonest seen) (ap (λ x. x.1) done) honest,
                  )
            ]
      ]
