-- ===== src/Validate/Sponsors.antt =====
-- What it means that one call among the account's calls pays for the operation, stated of the list
-- of calls, and that `findSponsoringWithdraw` decides it.
use tornado_4337_relayer.Base.{
  ◌≡◌, ◌↔◌, refl, ap, ◌∙◌, true, not, some, List, [], ◌∷◌, ◌++◌, arith, ◌==◌, length, get_elem?,
  get_elem?_middle, filter, any, All, ok, or_throw, Bool-cases, inl, inr, >>=-eq-ok, throws-eq-ok,
}
use tornado_4337_relayer.Errors.{
  failure, thrown, only_relay_withdraw, wrong_relayer, wrong_recipient, instance_not_served,
  carries_value,
}
use tornado_4337_relayer.Viem.{Viem, DecodedCall, relay_withdraw}
use tornado_4337_relayer.Validate.{
  TornadoWithdrawCall, paymaster, SponsorRules, invalid, is_relayed, decode_tornado_withdraws,
  find_sponsoring_withdraw,
}
use tornado_4337_relayer.Validate.Scan.{IsQuiet, to_pm, split, split_found}

module _ (v : Viem) where
  -- The one call that the operation is sponsored for.
  pub record Sponsors (calls : List DecodedCall) (rules : SponsorRules) (w : TornadoWithdrawCall)
      : Type 0 where
    pub before : List DecodedCall
    pub call : DecodedCall
    pub after : List DecodedCall
    pub listed : calls ≡ before ++ (call ∷ after)
    pub to_paymaster : call.target ≡ rules.paymaster
    pub decoded : v.decode_paymaster call.calldata ≡ some (relay_withdraw w.args)
    pub place : w.index ≡ length before
    pub no_refund : w.refund ≡ 0
    pub relayed : w.via ≡ paymaster
    pub no_value : call.value ≡ 0
    pub names_reward_account : w.args.relayer ≡ rules.reward_account
    pub pays_sender : v.parse_address rules.sender ≡ some w.args.recipient
    pub served : any (λ a. a == w.args.pool) rules.allowed_instances ≡ true
    pub quiet_before : All (IsQuiet v rules.paymaster) before
    pub quiet_after : All (IsQuiet v rules.paymaster) after

  -- What the guards of `findSponsoringWithdraw` have established when it returns `w`.
  record Passed (calls : List DecodedCall) (rules : SponsorRules) (w : TornadoWithdrawCall)
      : Type 0 where
    pub only : decode_tornado_withdraws v calls (some rules.paymaster) ≡ w ∷ []
    pub counted : length (filter (to_pm v rules.paymaster) calls) ≡ 1
    pub relayed : is_relayed w ≡ true
    pub names_reward_account : w.args.relayer ≡ rules.reward_account
    pub pays_sender : v.parse_address rules.sender ≡ some w.args.recipient
    pub served : any (λ a. a == w.args.pool) rules.allowed_instances ≡ true
    pub call : DecodedCall
    pub at : get_elem? calls w.index ≡ some call
    pub no_value : call.value ≡ 0

  find_sponsoring_withdraw-Passed :
      (calls : List DecodedCall) (rules : SponsorRules) (w : TornadoWithdrawCall)
      (ws : List TornadoWithdrawCall)
      → decode_tornado_withdraws v calls (some rules.paymaster) ≡ ws
      → find_sponsoring_withdraw v calls rules ≡ ok w
      → Passed calls rules w
  unfolding find_sponsoring_withdraw
  find_sponsoring_withdraw-Passed calls rules w [] d e = absurd (cc (rw d at e))
  find_sponsoring_withdraw-Passed calls rules w (x ∷ y ∷ ws) d e =
      absurd (ground (arith, rw d at e))
  find_sponsoring_withdraw-Passed calls rules w (x ∷ []) d e = elim (Bool-cases (is_relayed x)) [
    | inr not_relayed ↦ absurd (ground (arith, rw (d, not_relayed) at e))
    | inl relayed ↦
        let pm_calls = filter (to_pm v rules.paymaster) calls in
        let (one, e₁) =
          throws-eq-ok (not (length pm_calls == 1)) (invalid only_relay_withdraw) _
            (rw (d, relayed) at e) in
        let (named, e₂) =
          throws-eq-ok (not (x.args.relayer == rules.reward_account)) (invalid wrong_relayer) _
            e₁ in
        let (sender, parsed, e₃) =
          >>=-eq-ok (or_throw (v.parse_address rules.sender) (failure thrown)) _ e₂ in
        let (paid, e₄) =
          throws-eq-ok (not (x.args.recipient == sender)) (invalid wrong_recipient) _ e₃ in
        let (served, e₅) =
          throws-eq-ok (not (any (λ a. a == x.args.pool) rules.allowed_instances))
            (invalid instance_not_served) _ e₄ in
        let (call, found, e₆) =
          >>=-eq-ok (or_throw (get_elem? calls x.index) (failure thrown)) _ e₅ in
        let (free, done) = throws-eq-ok (not (call.value == 0)) (invalid carries_value) _ e₆ in
        let same : x ≡ w = ground arith in
        record {
          only = d ∙ ap (λ y. y ∷ []) same;
          counted = ground arith;
          relayed = rw (← same) relayed;
          names_reward_account = ground arith;
          pays_sender = ground arith;
          served = ground arith;
          call = call;
          at = ground arith;
          no_value = ground arith;
        }
  ]

  -- Soundness: what is returned is the one sponsored call.
  Passed-Sponsors :
      (calls : List DecodedCall) (rules : SponsorRules) (w : TornadoWithdrawCall)
      → Passed calls rules w
      → Sponsors calls rules w
  unfolding decode_tornado_withdraws
  Passed-Sponsors calls rules w p =
      let s = split v rules.paymaster 0 calls w p.relayed p.only p.counted in
      let place : w.index ≡ length s.before = s.place ∙ omega arith in
      let here = get_elem?_middle s.before s.call s.after in
      record {
        before = s.before;
        call = s.call;
        after = s.after;
        listed = s.listed;
        to_paymaster = s.to_paymaster;
        decoded = s.decoded;
        place = place;
        no_refund = s.no_refund;
        relayed = s.relayed;
        no_value = ground (arith, p.at, p.no_value, here, rw (s.listed, place) at p.at);
        names_reward_account = p.names_reward_account;
        pays_sender = p.pays_sender;
        served = p.served;
        quiet_before = s.quiet_before;
        quiet_after = s.quiet_after;
      }

  Sponsors-Passed :
      (calls : List DecodedCall) (rules : SponsorRules) (w : TornadoWithdrawCall)
      → Sponsors calls rules w
      → Passed calls rules w
  unfolding decode_tornado_withdraws
  Sponsors-Passed calls rules w s =
      let (only, counted, here) =
        split_found v rules.paymaster 0 s.before s.call s.after w.args s.quiet_before s.quiet_after
          (ground (arith, s.to_paymaster)) s.decoded in
      record {
        only = rw s.listed (only ∙ ground (arith, s.place, s.no_refund, s.relayed));
        counted = rw s.listed counted;
        relayed = rw s.relayed;
        names_reward_account = s.names_reward_account;
        pays_sender = s.pays_sender;
        served = s.served;
        call = s.call;
        at = rw (s.listed, s.place) here;
        no_value = s.no_value;
      }

  found_of_Passed :
      (calls : List DecodedCall) (rules : SponsorRules) (w : TornadoWithdrawCall)
      → Passed calls rules w
      → find_sponsoring_withdraw v calls rules ≡ ok w
  unfolding find_sponsoring_withdraw
  found_of_Passed calls rules w p =
      rw p.only
        (rw p.relayed (ground (arith, p.counted, p.pays_sender, p.served, p.at, p.no_value)))

  -- `findSponsoringWithdraw` returns `w` exactly when `w` is the one sponsored call: the only call to
  -- the paymaster, a `relayWithdraw` with no value that names the reward account, the sender and a
  -- served pool, among calls of which no other is a pool's `withdraw`.
  pub find_sponsoring_withdraw_iff :
      (calls : List DecodedCall) (rules : SponsorRules) (w : TornadoWithdrawCall)
      → (find_sponsoring_withdraw v calls rules ≡ ok w) ↔ Sponsors calls rules w
  find_sponsoring_withdraw_iff calls rules w = (
    λ e. Passed-Sponsors calls rules w (
        find_sponsoring_withdraw-Passed calls rules w
          (decode_tornado_withdraws v calls (some rules.paymaster)) refl e),
    λ s. found_of_Passed calls rules w (Sponsors-Passed calls rules w s),
  )
