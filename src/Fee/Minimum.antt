-- ===== src/Fee/Minimum.antt =====
-- What `minimumFee` promises: the paymaster's worst case is covered, and by no more than rounding.
use tornado_4337_relayer.Base.{
  ℕ, ◌+◌, ◌-◌, ◌*◌, ◌/◌, ◌≤◌, ◌≡◌, refl, ◌↔◌, arith, ◌==◌, if◌then◌else◌, Bool-cases, inl, inr,
}
use tornado_4337_relayer.Fee.{
  UserOpGas, FeeParams, total_gas, bps, rate_scale, ceil_div, keep_eth, minimum_fee,
}

-- `ceilDiv` is the least number whose multiple reaches `a`.
pub ceil_div-le_iff : (a n : ℕ) → (ceil_div a rate_scale ≤ n) ↔ (a ≤ n * rate_scale)
unfolding ceil_div
ceil_div-le_iff a n = (λ h. omega arith, λ h. omega arith)

-- The order on gas limits, field by field.
pub record Fits (a b : UserOpGas) : Type 0 where
  pub call : a.call_gas_limit ≤ b.call_gas_limit
  pub verification : a.verification_gas_limit ≤ b.verification_gas_limit
  pub pre_verification : a.pre_verification_gas ≤ b.pre_verification_gas
  pub paymaster_verification :
      a.paymaster_verification_gas_limit ≤ b.paymaster_verification_gas_limit
  pub post_op : a.paymaster_post_op_gas_limit ≤ b.paymaster_post_op_gas_limit

pub total_gas_mono : {a b : UserOpGas} → Fits a b → total_gas a ≤ total_gas b
unfolding total_gas
total_gas_mono h = omega arith

-- The price side of two parameter records at the same margin, service fee and rate.
pub record NoDearer (a b : FeeParams) : Type 0 where
  pub gas : Fits a.gas b.gas
  pub price : a.max_fee_per_gas ≤ b.max_fee_per_gas
  pub margin : a.gas_margin_bps ≡ b.gas_margin_bps
  pub service : a.service_fee ≡ b.service_fee
  pub rate : a.token_per_eth ≡ b.token_per_eth

div_mono : (a b : ℕ) → a ≤ b → a / bps ≤ b / bps
div_mono a b h = omega arith

mul_mono : (a b c d : ℕ) → a ≤ b → c ≤ d → a * c ≤ b * d
mul_mono a b c d h k = grind arith

keep_of : (prefund margin : ℕ) → ℕ
keep_of prefund margin = prefund + prefund * margin / bps

keep_of_mono : (p q m : ℕ) → p ≤ q → keep_of p m ≤ keep_of q m
unfolding keep_of
keep_of_mono p q m h = omega (arith, div_mono (p * m) (q * m) (mul_mono p q m m h (omega arith)))

pub keep_eth_mono : {a b : FeeParams} → NoDearer a b → keep_eth a ≤ keep_eth b
unfolding keep_eth keep_of
keep_eth_mono {a} {b} h =
    rw (h.margin)
      (keep_of_mono _ _ b.gas_margin_bps (mul_mono _ _ _ _ (total_gas_mono h.gas) h.price))

ceil_div_mono : (a b : ℕ) → a ≤ b → ceil_div a rate_scale ≤ ceil_div b rate_scale
unfolding ceil_div
ceil_div_mono a b h = omega arith

-- A wei amount in the fee token, rounded up; unchanged in an ETH pool.
pub in_fee_token : ℕ → ℕ → ℕ
in_fee_token wei rate = if rate == 0 then wei else ceil_div (wei * rate) rate_scale

in_fee_token_mono : (a b rate : ℕ) → a ≤ b → in_fee_token a rate ≤ in_fee_token b rate
unfolding in_fee_token
in_fee_token_mono a b rate h =
    ground (arith, ceil_div_mono (a * rate) (b * rate) (mul_mono a b rate rate h (omega arith)))

pub minimum_fee_lem :
    (p : FeeParams) → minimum_fee p ≡ in_fee_token (keep_eth p) p.token_per_eth + p.service_fee
unfolding minimum_fee in_fee_token
minimum_fee_lem p = ground arith

-- With the margin, service fee and rate fixed, no operation with smaller gas limits and a lower gas
-- price has a higher minimum fee.
pub minimum_fee_mono : {a b : FeeParams} → NoDearer a b → minimum_fee a ≤ minimum_fee b
minimum_fee_mono {a} {b} h = ground (
  arith,
  minimum_fee_lem a,
  minimum_fee_lem b,
  in_fee_token_mono (keep_eth a) (keep_eth b) b.token_per_eth (keep_eth_mono h),
)

-- What a fee leaves after the service fee pays for `wei` at the rate: the wei themselves in an ETH
-- pool, the token amount `n` at `rate` tokens per 1e18 wei in a token pool.
abbrev pub Pays : ℕ → ℕ → ℕ → Type 0
Pays n wei rate = if rate == 0 then wei ≤ n else wei * rate ≤ n * rate_scale

in_fee_token-le_iff : (wei rate n : ℕ) → (in_fee_token wei rate ≤ n) ↔ Pays n wei rate
unfolding in_fee_token
in_fee_token-le_iff wei rate n = elim (Bool-cases (rate == 0)) [
  | inl eth ↦ rw eth (λ h. h, λ h. h)
  | inr token ↦ rw token (ceil_div-le_iff (wei * rate) n)
]

-- What the paymaster may have to pay: the five gas limits at the maximum price, and the margin on
-- that, in ten-thousandths and rounded down.
abbrev pub prefund_with_margin : FeeParams → ℕ
prefund_with_margin p =
    let prefund =
      (p.gas.call_gas_limit + p.gas.verification_gas_limit + p.gas.pre_verification_gas
        + p.gas.paymaster_verification_gas_limit + p.gas.paymaster_post_op_gas_limit)
      * p.max_fee_per_gas in
    prefund + prefund * p.gas_margin_bps / 10_000

keep_eth_lem : (p : FeeParams) → keep_eth p ≡ prefund_with_margin p
unfolding keep_eth total_gas
keep_eth_lem p = refl

-- A fee reaches the minimum exactly when it is the service fee and an amount that pays for the gas
-- prefund with the margin: the wei themselves in an ETH pool, their value at the rate in a token
-- pool. The prefund is the sum of the five gas limits at the maximum price, and the margin is the
-- configured share of it.
pub minimum_fee-le_iff :
    (p : FeeParams) (fee : ℕ)
    → (minimum_fee p ≤ fee)
      ↔ ((n : ℕ) × (fee ≡ n + p.service_fee) × Pays n (prefund_with_margin p) p.token_per_eth)
minimum_fee-le_iff p fee =
    rw (minimum_fee_lem, ← (keep_eth_lem p))
      (
        λ h. (
          fee - p.service_fee,
          omega arith,
          (in_fee_token-le_iff (keep_eth p) p.token_per_eth (fee - p.service_fee)).0 (omega arith),
        ),
        λ (n, e, pays). omega (arith, (in_fee_token-le_iff (keep_eth p) p.token_per_eth n).1 pays),
      )
