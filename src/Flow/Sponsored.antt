-- ===== src/Flow/Sponsored.antt =====
-- The operation that a withdrawal sends, before the checks of relayer/src/validate.ts.
use tornado_4337_relayer.Base.{◌≡◌, ◌↔◌, refl, ap, true, some, List, [], ◌==◌, any, All, ok}
use tornado_4337_relayer.Base.Integer.{difference}
use tornado_4337_relayer.Viem.{Viem, relay_withdraw}
use tornado_4337_relayer.Validate.{
  TornadoWithdrawCall, paymaster, SponsorRules, find_sponsoring_withdraw,
}
use tornado_4337_relayer.Validate.Scan.{IsQuiet}
use tornado_4337_relayer.Validate.Sponsors.{find_sponsoring_withdraw_iff}
use tornado_4337_relayer.Flow.{WithdrawParams, Outside, Action, WithdrawResult}
use tornado_4337_relayer.Flow.Withdraw.{withdraw_args, request_of}
use tornado_4337_relayer.Flow.Bound.{Bound}

module _ (v : Viem) (p : WithdrawParams) (o : Outside) (rules : SponsorRules) where
  -- the withdrawal that the relayer is to find in the operation
  abbrev pub sponsored_call : WithdrawResult → TornadoWithdrawCall
  sponsored_call r = record {
    index = 0;
    args = withdraw_args p o r.proof;
    refund = 0;
    via = paymaster;
  }

  -- What the rest of the world contributes: the relayer's rules are those of its quote, for this
  -- sender and this pool, the codec reads back what it wrote, and the tail calls neither go to the
  -- paymaster nor withdraw from a pool.
  pub record Fits (r : WithdrawResult) (actions : List Action) (b : Bound p o r actions)
      : Type 0 where
    pub same_paymaster : r.quote.paymaster ≡ rules.paymaster
    pub sender : v.parse_address rules.sender ≡ some r.proof.recipient
    pub served : any (λ a. a == p.pool) rules.allowed_instances ≡ true
    pub decoded : v.decode_paymaster b.calldata ≡ some (relay_withdraw (withdraw_args p o r.proof))
    pub quiet :
        All
          (IsQuiet v rules.paymaster)
          (p.tail_calls p.sender (difference b.denomination r.quote.fee) b.first.fee_token)

  -- The relayer finds the sponsored withdrawal in the operation exactly if the proof names the
  -- relayer's reward account, where the rules, the codec and the tail calls fit.
  pub find_sponsoring_withdraw-sent :
      (r : WithdrawResult) (actions : List Action) (b : Bound p o r actions)
      → Fits r actions b
      → (find_sponsoring_withdraw v b.request.calls rules ≡ ok (sponsored_call r))
        ↔ (r.proof.relayer ≡ rules.reward_account)
  unfolding withdraw_args request_of
  find_sponsoring_withdraw-sent r actions b f =
      let (found, finds) =
        find_sponsoring_withdraw_iff v b.request.calls rules (sponsored_call r) in
      (
        λ e. (found e).names_reward_account,
        λ named. finds (record {
          before = [];
          call = record { target = r.quote.paymaster; value = 0; calldata = b.calldata };
          after = p.tail_calls p.sender (difference b.denomination r.quote.fee) b.first.fee_token;
          listed = ap (λ q. q.calls) b.request_is;
          to_paymaster = f.same_paymaster;
          decoded = f.decoded;
          place = refl;
          no_refund = refl;
          relayed = refl;
          no_value = refl;
          names_reward_account = named;
          pays_sender = f.sender;
          served = f.served;
          quiet_before = tt;
          quiet_after = f.quiet;
        }),
      )
