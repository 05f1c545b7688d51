-- ===== src/Service/Sign/Issued.antt =====
-- What is known where `sign` returns signed terms.
use mathlib.Core.Path.{subst}
use tornado_4337_relayer.Base.{
  ℕ, ◌+◌, ◌*◌, ◌≤◌, ◌≡◌, refl, ap, ◌∙◌, none, some, arith, ok, sym, inl, inr,
}
use tornado_4337_relayer.Base.Text.{Text, text_key, text_eq_iff}
use tornado_4337_relayer.Fee.{minimum_fee, total_gas, service_fee_for}
use tornado_4337_relayer.Errors.{pending, nonce_field}
use tornado_4337_relayer.Viem.{Viem, Address}
use tornado_4337_relayer.Store.{Store, get, pending_note, prune, reserve}
use tornado_4337_relayer.Store.Laws.{reserve_lem}
use tornado_4337_relayer.UserOp.{RpcUserOperation, q}
use tornado_4337_relayer.Service.{Service, World, SponsorContext, for_price}
use tornado_4337_relayer.Service.Act.{or_release, act->>=-eq-ok, lift->>=-eq-ok, or_release-eq-ok}
use tornado_4337_relayer.Service.Checks.{rate_for}
use tornado_4337_relayer.Service.Prepare.{Prepared, prepare, priced, fee_params, max_gas_cost}
use tornado_4337_relayer.Service.Prepare.Facts.{Acceptable, prepare-Acceptable, priced_enough}
use tornado_4337_relayer.Service.Sign.{
  PaymasterData, reservation, new_note, take_note, checks, reserve_and_issue, sign,
}
use tornado_4337_relayer.Service.Sign.Terms.{Held, TermsFor, IsSignedData, issue-eq-ok}
use tornado_4337_relayer.Service.Sign.Checked.{Checked, checks-Checked}

module _ (v : Viem) (svc : Service) (w : World) (op : RpcUserOperation) where
  -- Everything that holds where `sign`, started on the store `s`, returns `r` and leaves `s'`.
  pub record Issued (context : SponsorContext) (s : Store) (r : PaymasterData) (s' : Store)
      : Type 0 where
    pub p : Prepared
    pub rate : ℕ
    pub implementation : Address
    pub token : Text
    pub acceptable : Acceptable v svc op context p
    pub quoted : rate_for w p.info ≡ ok rate
    pub pays : minimum_fee (fee_params svc p rate) ≤ p.call.args.fee
    pub shown : r.min_fee ≡ minimum_fee (fee_params svc p rate)
    -- nobody held the note when this request reserved it
    pub free : get (prune (w.meanwhile for_price s) w.now) p.call.args.nullifier_hash ≡ none
    pub nonce : ℕ
    pub nonce_is : q v op.nonce nonce_field ≡ ok nonce
    -- the store with the reservation, from which the checks started
    pub reserved_in : Store
    pub reserved_note :
        get reserved_in p.call.args.nullifier_hash
        ≡ some (record {
          valid_until = w.now + svc.signature_ttl_sec;
          sender = op.sender;
          nonce = nonce;
          status = pending;
          token = token;
          max_gas_cost_wei = some (total_gas p.gas * p.max_fee_per_gas);
        })
    pub checked : Checked v svc w op context p implementation reserved_in
    pub terms : TermsFor v svc w op context p rate implementation r.terms
    pub signature : IsSignedData v svc w op r
    pub recorded : Held p.call.args.nullifier_hash token s'

  take_note-eq-ok :
      (p : Prepared) (nonce : ℕ) (s t : Store) (token : Text)
      → take_note svc w p.call.args op nonce (max_gas_cost p) s ≡ (ok token, t)
      → (get s p.call.args.nullifier_hash ≡ none)
        × (get t p.call.args.nullifier_hash
            ≡ some (pending_note (new_note svc w op nonce (max_gas_cost p)) token))
  unfolding take_note
  take_note-eq-ok p nonce s t token e =
      let k = p.call.args.nullifier_hash in
      let new = new_note svc w op nonce (max_gas_cost p) in
      elim (reserve_lem w.now_ms s k new) [
        | inl (h, at, done) ↦ cc (rw (done, take_note) at e)
        | inr (token', free, done, after) ↦
            let stores : (reserve w.now_ms s k new).1 ≡ t = ap (λ x. x.1) e in
            let taken : ok token' ≡ ok token = ap reservation (sym done) ∙ ap (λ x. x.0) e in
            let tokens : token' ≡ token = cc in
            let here : get (reserve w.now_ms s k new).1 k ≡ some (pending_note new token') =
              after k ∙ ground (arith, text_eq_iff k k) in
            (
              free,
              ap (λ x. get x k) (sym stores) ∙ here ∙ ap (λ x. some (pending_note new x)) tokens,
            )
      ]

  -- Where `sign` returns terms, the request has passed every check: a paymaster that the operation
  -- names is this one; `refundTo` is left out or an address; the account makes exactly one sponsored
  -- call, to a served pool, that pays at least the minimum fee and at most the denomination; the
  -- priority fee is at most the maximum fee; the note was free and was reserved for this sender and
  -- nonce with the operation's gas cost, until the signature's end; the account's
  -- implementation is on the list; the deposit and its reserve paid for every live entry that the
  -- store held when they were compared, and the cost is within the cap; a registered paymaster
  -- resolved to the reward account; the pool knew the root, had not seen the note and simulated the
  -- withdrawal; the bundler simulated the operation within its gas limits. All nine terms are those
  -- of this request: valid at once and for the configured time, the withdrawal's fee and hash, the
  -- service fee of the denomination, the pool's token and its rate, the account's implementation, and
  -- the refund to nobody in worker mode and otherwise to the address of the context or, without one,
  -- the recipient. The signature is over the hash of this operation and these terms, both are
  -- in the data returned, and the note is recorded as signed under this request's token.
  pub sign-Issued :
      (context : SponsorContext) (s s' : Store) (r : PaymasterData)
      → sign v svc w op context s ≡ (ok r, s')
      → Issued context s r s'
  unfolding sign reserve_and_issue
  sign-Issued context s s' r e =
      let (p, prepared, e1) = lift->>=-eq-ok (prepare v svc op context) _ e in
      let (rate, quoted, e2) = lift->>=-eq-ok (rate_for w p.info) _ e1 in
      let (c, priced_is, e3) = lift->>=-eq-ok (priced svc p rate) _ e2 in
      let (nonce, nonce_is, e4) = lift->>=-eq-ok (q v op.nonce nonce_field) _ e3 in
      let (token, t, taken, e5) =
        act->>=-eq-ok (take_note svc w p.call.args op nonce (max_gas_cost p)) _ e4 in
      let (a, t', passed, e6) =
        act->>=-eq-ok (or_release p.call.args.nullifier_hash token (checks v svc w op context p)) _
          e5 in
      let (min_is, pays, rate_is, fee_is) = priced_enough svc p rate c priced_is in
      let (free, reserved_note) = take_note-eq-ok p nonce _ t token taken in
      let (terms, signature, recorded, shown) =
        issue-eq-ok v svc w op context p c token a t' s' r e6
          (fee_is ∙ unfold service_fee_for in refl) in
      record {
        p = p;
        rate = rate;
        implementation = a;
        token = token;
        acceptable = prepare-Acceptable v svc op context p prepared;
        quoted = quoted;
        pays = pays;
        shown = shown ∙ min_is;
        free = free;
        nonce = nonce;
        nonce_is = nonce_is;
        reserved_in = t;
        reserved_note = unfold max_gas_cost in reserved_note;
        checked = checks-Checked v svc w op context p a t t' (
            or_release-eq-ok p.call.args.nullifier_hash token (checks v svc w op context p) {s = t}
              passed);
        terms = subst (λ x. TermsFor v svc w op context p x a r.terms) rate_is terms;
        signature = signature;
        recorded = recorded;
      }
