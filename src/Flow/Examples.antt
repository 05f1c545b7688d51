-- ===== src/Flow/Examples.antt =====
-- A withdrawal with an estimate, a second quote and a new proof, and one whose relayer changes its
-- account but not its fee.
use tornado_4337_relayer.Base.{
  ℕ, ◌≡◌, ◌↔◌, refl, sym, ap, ◌∙◌, true, false, none, some, List, [], ◌∷◌, ok, ◌==◌, if◌then◌else◌,
}
use tornado_4337_relayer.Base.Text.{Text, codes, text_eq}
use tornado_4337_relayer.Base.Integer.{pos}
use tornado_4337_relayer.Fee.{UserOpGas, default_gas}
use tornado_4337_relayer.Viem.{Address, DecodedCall}
use tornado_4337_relayer.Viem.Sample.{sample_viem}
use tornado_4337_relayer.Validate.{find_sponsoring_withdraw}
use tornado_4337_relayer.Validate.Examples.{sample_rules}
use tornado_4337_relayer.Flow.{
  ProveInputs, ProveOutput, RelayerQuote, Estimate, WithdrawParams, Outside, Action, WithdrawResult,
}
use tornado_4337_relayer.Flow.Withdraw.{
  bump, max, merkle_path, ask, gas_of, prove, withdraw_args, build_calls, re_prove, re_quote,
  estimated_quote, authorize, send_op, sponsored_withdraw,
}
use tornado_4337_relayer.Flow.Steps.{IsFaithful}
use tornado_4337_relayer.Flow.Bound.{Bound, sponsored_withdraw-Bound}
use tornado_4337_relayer.Flow.Sponsored.{Fits, sponsored_call, find_sponsoring_withdraw-sent}

abbrev tail_call : DecodedCall
tail_call = record { target = 20; value = 3; calldata = codes "0x" }

abbrev withdrawal : WithdrawParams
withdrawal = record {
  pool = 7;
  note = record { nullifier = 1; secret = 2; commitment = 33; nullifier_hash = 4; preimage = [] };
  leaves = 32 ∷ (33 ∷ []);
  sender = 10;
  tail_calls = λ sender amount asset. tail_call ∷ [];
  tail_calls_gas = none;
  implementation = 119;
  skip_estimation = false;
}

abbrev quote_with : Address → ℕ → UserOpGas → RelayerQuote
quote_with relayer fee gas = record {
  relayer = relayer;
  paymaster = 5;
  fee_token = 0;
  gas = gas;
  max_fee_per_gas = 9;
  max_priority_fee_per_gas = 1;
  fee = fee;
}

abbrev sample_estimate : Estimate
sample_estimate = record {
  call_gas_limit = 200_000;
  verification_gas_limit = 50_000;
  pre_verification_gas = 60_000;
  paymaster_verification_gas_limit = none;
  paymaster_post_op_gas_limit = some 100_000;
}

-- words for the numbers 3 and 4
abbrev word_of : ℕ → Text
word_of n = if n == 3 then codes "0x03" else codes "0x04"

abbrev prover : ProveInputs → ProveOutput
prover i = record {
  proof = codes "0x02";
  root = word_of i.path.root;
  nullifier_hash = word_of i.nullifier_hash;
  recipient = i.recipient;
  relayer = i.relayer;
  fee = i.fee;
  refund = i.refund;
}

abbrev estimated_gas : UserOpGas
estimated_gas = record {
  call_gas_limit = 230_000;
  verification_gas_limit = 57_500;
  pre_verification_gas = 66_000;
  paymaster_verification_gas_limit = 60_000;
  paymaster_post_op_gas_limit = 120_000;
}

sizes : gas_of sample_estimate (quote_with 6 120 default_gas) ≡ estimated_gas
unfolding gas_of bump max
sizes = refl

-- the second quote is from `relayer`, after a first one from account 6 with a fee of 120
abbrev outside : Address → ℕ → Outside
outside relayer fee = record {
  denomination = some 1000;
  tree = λ leaves leaf. record { root = 3; path_elements = []; path_indices = [] };
  is_known_root = λ root. some true;
  quote = λ q. some (quote_with 6 120 default_gas);
  requote = λ q. some (quote_with relayer fee estimated_gas);
  prove = λ i. some (prover i);
  is_deployed = some false;
  estimate = λ request. some sample_estimate;
  transaction_count = some 0;
  sign_authorization = λ implementation nonce. some (codes "0x05");
  send = λ request. some (codes "0xaa");
  receipt = λ hash. some true;
  encode = λ args. some (codes "0x01");
  word = λ n. some (word_of n);
}

abbrev result : Address → Address → ℕ → ℕ → WithdrawResult
result proved_for relayer fee amount = record {
  user_op_hash = codes "0xaa";
  success = true;
  sender = 10;
  quote = quote_with relayer fee estimated_gas;
  proof = record {
    proof = codes "0x02";
    root = codes "0x03";
    nullifier_hash = codes "0x04";
    recipient = 10;
    relayer = proved_for;
    fee = fee;
    refund = 0;
  };
  fee = fee;
  amount_to_sender = pos amount;
}

abbrev actions : Outside → List Action
actions o = (sponsored_withdraw withdrawal o []).1

withdraws :
    sponsored_withdraw withdrawal (outside 6 100) []
    ≡ (ok (result 6 6 100 900), actions (outside 6 100))
unfolding sponsored_withdraw merkle_path ask prove estimated_quote re_quote re_prove authorize
    send_op build_calls
withdraws = refl

-- The proof still names account 6.
keeps_old_relayer :
    sponsored_withdraw withdrawal (outside 8 120) []
    ≡ (ok (result 6 8 120 880), actions (outside 8 120))
unfolding sponsored_withdraw merkle_path ask prove estimated_quote re_quote re_prove authorize
    send_op build_calls
keeps_old_relayer = refl

faithful : (relayer fee : ℕ) → IsFaithful (outside relayer fee)
faithful relayer fee = record {
  same_relayer = λ i out e. cc;
  same_fee = λ i out e. cc;
  same_recipient = λ i out e. cc;
  same_root = λ i out e. cc;
  same_nullifier_hash = λ i out e. cc;
}

abbrev bound : Bound withdrawal (outside 6 100) (result 6 6 100 900) (actions (outside 6 100))
bound =
    sponsored_withdraw-Bound withdrawal (outside 6 100) (result 6 6 100 900)
      (actions (outside 6 100)) (faithful 6 100) withdraws

fits :
    Fits sample_viem withdrawal
      (outside 6 100)
      sample_rules
      (result 6 6 100 900)
      (actions (outside 6 100))
      bound
unfolding text_eq withdraw_args
fits =
    let same : codes "0x01" ≡ bound.calldata = cc (bound.encoded) in
    record {
      same_paymaster = refl;
      sender = refl;
      served = refl;
      decoded = ap sample_viem.decode_paymaster (sym same) ∙ refl;
      quiet = ((refl, tt), tt);
    }

find_sponsoring_withdraw-sent_example :
    (find_sponsoring_withdraw sample_viem bound.request.calls sample_rules
      ≡ ok
          (sponsored_call sample_viem withdrawal (outside 6 100) sample_rules (result 6 6 100 900)))
    ↔ (◌≡◌ {A = ℕ} 6 6)
find_sponsoring_withdraw-sent_example =
    find_sponsoring_withdraw-sent sample_viem withdrawal (outside 6 100) sample_rules
      (result 6 6 100 900) (actions (outside 6 100)) bound fits
