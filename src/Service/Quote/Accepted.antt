-- ===== src/Service/Quote/Accepted.antt =====
-- That `sign` accepts a fee that `quote` has quoted.
use mathlib.Core.Path.{subst}
use tornado_4337_relayer.Base.{
  ℕ, ◌≤◌, ◌<◌, ◌≡◌, refl, sym, ap, ◌∙◌, false, not, arith, ltb, ok, >>=-eq-ok, throws-eq-ok,
  ok_injective,
}
use tornado_4337_relayer.Fee.{UserOpGas, minimum_fee, service_fee_for}
use tornado_4337_relayer.Fee.Minimum.{Fits, NoDearer, minimum_fee_mono}
use tornado_4337_relayer.Viem.{Viem}
use tornado_4337_relayer.UserOp.{or_else}
use tornado_4337_relayer.Service.{Service, World, InstanceInfo, instance_info}
use tornado_4337_relayer.Service.Checks.{rate_for}
use tornado_4337_relayer.Service.Prepare.{Prepared, fee_params, priced}
use tornado_4337_relayer.Service.Quote.{
  Prices, QuoteParams, Quote, quoted_gas, gas_fees, quote_params, quote_of, quote,
}

module _ (v : Viem) (svc : Service) where
  -- A quote is the minimum fee of its own gas and price, below the denomination.
  record IsQuoted (info : InstanceInfo) (r : Quote) : Type 0 where
    minimal : r.fee ≡ minimum_fee (quote_params v svc info r.gas r.max_fee_per_gas r.token_per_eth)
    below : r.fee < info.denomination
    priority : r.max_priority_fee_per_gas ≤ r.max_fee_per_gas

  quote_of-IsQuoted :
      (info : InstanceInfo) (gas : UserOpGas) (max_fee priority rate : ℕ)
      → not (ltb (minimum_fee (quote_params v svc info gas max_fee rate)) info.denomination) ≡ false
      → IsQuoted info (quote_of v svc info gas max_fee priority rate)
  quote_of-IsQuoted info gas max_fee priority rate h = record {
    minimal = refl;
    below = ground arith;
    priority = ground arith;
  }

  quote-IsQuoted :
      (w : World) (prices : Prices) (params : QuoteParams) (r : Quote)
      → quote v svc w prices params ≡ ok r
      → (info : InstanceInfo) × (instance_info svc params.pool ≡ ok info)
        × IsQuoted info r
        × (rate_for w info ≡ ok r.token_per_eth)
  unfolding quote
  quote-IsQuoted w prices params r returned =
      let (info, found, r1) = >>=-eq-ok (instance_info svc params.pool) _ returned in
      let (fees, fees_are, r2) = >>=-eq-ok (gas_fees v svc prices) _ r1 in
      let (rate, rate_is, r3) = >>=-eq-ok (rate_for w info) _ r2 in
      let gas = quoted_gas info params in
      let max_fee = or_else params.max_fee_per_gas fees.max_fee_per_gas in
      let params_of = quote_params v svc info gas max_fee rate in
      let (cheap, r4) = throws-eq-ok (not (ltb (minimum_fee params_of) info.denomination)) _ _ r3 in
      let same =
        ok_injective (quote_of v svc info gas max_fee fees.max_priority_fee_per_gas rate) r r4 in
      (
        info,
        found,
        subst (IsQuoted info) same
            (quote_of-IsQuoted info gas max_fee fees.max_priority_fee_per_gas rate cheap),
        rate_is ∙ ap (λ x. ok (x.token_per_eth)) same,
      )

  fee_params-NoDearer :
      (p : Prepared) (r : Quote)
      → Fits p.gas r.gas
      → p.max_fee_per_gas ≤ r.max_fee_per_gas
      → NoDearer
          (fee_params svc p r.token_per_eth)
          (quote_params v svc p.info r.gas r.max_fee_per_gas r.token_per_eth)
  fee_params-NoDearer p r fits cheaper = record {
    gas = fits;
    price = cheaper;
    margin = refl;
    service = refl;
    rate = refl;
  }

  -- A client that binds the quoted fee into its proof, and sends gas limits and a gas price within
  -- the quoted ones, passes the checks of the fee in `sign` as long as the pool's rate is the one
  -- that was quoted: the fee is below the denomination and reaches the minimum.
  pub quote_accepted :
      (w : World) (prices : Prices) (params : QuoteParams) (r : Quote) (p : Prepared)
      → quote v svc w prices params ≡ ok r
      → instance_info svc params.pool ≡ ok p.info
      → p.call.args.fee ≡ r.fee
      → Fits p.gas r.gas
      → p.max_fee_per_gas ≤ r.max_fee_per_gas
      → (p.call.args.fee < p.info.denomination)
        × (priced svc p r.token_per_eth
            ≡ ok (record {
              token_per_eth = r.token_per_eth;
              service_fee = service_fee_for p.info.denomination svc.service_fee_bps;
              min_fee = minimum_fee (fee_params svc p r.token_per_eth);
            }))
  unfolding priced
  quote_accepted w prices params r p returned served fee fits cheaper =
      let (info, found, quoted, rate_is) = quote-IsQuoted w prices params r returned in
      let same : info ≡ p.info = ok_injective info p.info (sym found ∙ served) in
      let q = subst (λ x. IsQuoted x r) same quoted in
      let mono = minimum_fee_mono (fee_params-NoDearer p r fits cheaper) in
      (ground (arith, q.below), ground (arith, mono, q.minimal))
