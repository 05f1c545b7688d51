-- ===== src/Validate/Examples.antt =====
-- `findSponsoringWithdraw` on a batch of two calls.
use tornado_4337_relayer.Base.{◌≡◌, ◌↔◌, refl, ok, [], ◌∷◌}
use tornado_4337_relayer.Base.Text.{codes, text_eq}
use tornado_4337_relayer.Viem.Sample.{sample_viem, sample_calls, sample_args, sample_paymaster}
use tornado_4337_relayer.Validate.{
  TornadoWithdrawCall, paymaster, SponsorRules, decode_tornado_withdraws, find_sponsoring_withdraw,
}
use tornado_4337_relayer.Validate.Sponsors.{Sponsors, find_sponsoring_withdraw_iff}

abbrev pub sample_rules : SponsorRules
sample_rules = record {
  paymaster = sample_paymaster;
  reward_account = 6;
  allowed_instances = 8 ∷ 7 ∷ [];
  sender = codes "0xa";
}

abbrev sample_withdraw : TornadoWithdrawCall
sample_withdraw = record { index = 1; args = sample_args; refund = 0; via = paymaster }

finds_sample : find_sponsoring_withdraw sample_viem sample_calls sample_rules ≡ ok sample_withdraw
unfolding find_sponsoring_withdraw decode_tornado_withdraws text_eq
finds_sample = refl

find_sponsoring_withdraw_iff_example :
    (find_sponsoring_withdraw sample_viem sample_calls sample_rules ≡ ok sample_withdraw)
    ↔ Sponsors sample_viem sample_calls sample_rules sample_withdraw
find_sponsoring_withdraw_iff_example =
    find_sponsoring_withdraw_iff sample_viem sample_calls sample_rules sample_withdraw
