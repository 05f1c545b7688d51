-- ===== src/Service/Sign/Terms.antt =====
-- The terms that `sign` signs, the signature and the entry that is left.
use mathlib.Core.Path.{subst}
use tornado_4337_relayer.Base.{
  ℕ, ◌+◌, ◌*◌, ◌/◌, ◌≡◌, refl, ap, ◌∙◌, true, false, some, arith, ok, ok_injective, or_throw-eq-ok,
  sym, inl, inr, Bool-cases,
}
use tornado_4337_relayer.Base.Text.{Text, text_key, text_eq_iff}
use tornado_4337_relayer.Base.Dict.{get-set}
use tornado_4337_relayer.Errors.{failure, thrown, signed}
use tornado_4337_relayer.Viem.{Viem, Address, zero_address}
use tornado_4337_relayer.Store.{Store, SponsoredNote, get}
use tornado_4337_relayer.Store.Laws.{commit_lem, committed}
use tornado_4337_relayer.UserOp.{RpcUserOperation, FeeTerms}
use tornado_4337_relayer.UserOp.Hash.{withdrawal_hash, paymaster_hash, encode_paymaster_data}
use tornado_4337_relayer.Service.{
  Service, World, SponsorContext, undefined_refund, refund_text, refunds,
}
use tornado_4337_relayer.Service.Stub.{encodable, refund_or_else}
use tornado_4337_relayer.Service.Act.{
  or_release, act->>=-eq-ok, lift->>=-eq-ok, or_release-eq-ok, pure-eq-ok,
}
use tornado_4337_relayer.Service.Prepare.{Prepared, Priced}
use tornado_4337_relayer.Service.Sign.{
  PaymasterData, record_signed, refund_address, terms_of, signed_message, issue,
}

-- The note at `k` is signed, under this reservation's token.
pub record Held (k token : Text) (s : Store) : Type 0 where
  pub note : SponsoredNote
  pub there : get s k ≡ some note
  pub by_token : note.token ≡ token
  pub is_signed : note.status ≡ signed

pub get-committed :
    (s : Store) (k : Text) (n : SponsoredNote)
    → get (committed s k n) k ≡ some (record n { status = signed })
get-committed s k n =
    ground (arith, get-set s.notes k k (record n { status = signed }), text_eq_iff k k)

record_signed-Held :
    (w : World) (k token : Text) (s t : Store)
    → record_signed w k token s ≡ (ok tt, t)
    → Held k token t
unfolding record_signed
record_signed-Held w k token s t e = elim (commit_lem w.writable s k token) [
  | inr (e', done, why) ↦ cc (rw (done, record_signed) at e)
  | inl (n, there, yours, can, done) ↦
      let same : committed s k n ≡ t = cc (rw (done, record_signed) at e) in
      subst (Held k token) same (record {
        note = record n { status = signed };
        there = get-committed s k n;
        by_token = yours;
        is_signed = refl;
      })
]

module _ (v : Viem) (svc : Service) (w : World) (op : RpcUserOperation) where
  -- In worker mode nobody is refunded; in master mode the address of the context, or the
  -- withdrawal's recipient where it has none.
  pub record RefundsTo (context : SponsorContext) (recipient to : Address) : Type 0 where
    pub nobody : refunds svc ≡ false → to ≡ zero_address
    pub by_default : refunds svc ≡ true → context.refund_to ≡ undefined_refund → to ≡ recipient
    pub chosen :
        refunds svc ≡ true
        → (t : Text) → context.refund_to ≡ refund_text t
        → v.parse_address t ≡ some to

  -- The terms are those of this withdrawal and context, at this price, with the configured service
  -- fee and for this implementation.
  pub record TermsFor (context : SponsorContext) (p : Prepared) (rate : ℕ)
      (implementation : Address) (terms : FeeTerms) : Type 0 where
    pub bound : withdrawal_hash v p.call.args ≡ ok terms.withdrawal_hash
    pub account : terms.sender_implementation ≡ implementation
    pub fee : terms.fee ≡ p.call.args.fee
    pub token : terms.fee_token ≡ p.info.token
    pub price : terms.token_per_eth ≡ rate
    pub expires : terms.valid_until ≡ w.now + svc.signature_ttl_sec
    pub at_once : terms.valid_after ≡ 0
    pub service_fee : terms.service_fee ≡ p.info.denomination * svc.service_fee_bps / 10_000
    pub refund : RefundsTo context p.call.args.recipient terms.refund_to

  -- The signature is the key's, over the hash of the operation and these terms, and both are in
  -- the data that is returned.
  pub record IsSignedData (r : PaymasterData) : Type 0 where
    pub hash : Text
    pub signature : Text
    pub hashed : paymaster_hash v op svc.chain_id svc.paymaster r.terms ≡ ok hash
    pub by_key : w.sign_message hash ≡ some signature
    pub encoded : encode_paymaster_data v r.terms signature ≡ ok r.paymaster_data

  encodable-eq-some : (t : Text) (a : Address) → encodable v t ≡ some a → v.parse_address t ≡ some a
  encodable-eq-some t a e = elim (Bool-cases (v.is_address t)) [
    | inl is ↦ rw is at e
    | inr other ↦ cc (rw other at e)
  ]

  recipient_is : (a b : Address) → some a ≡ some b → b ≡ a
  recipient_is a b e = cc

  refund_address-RefundsTo :
      (context : SponsorContext) (p : Prepared) (to : Address)
      → refund_address v svc w op context p.call.args ≡ ok to
      → RefundsTo context p.call.args.recipient to
  refund_address-RefundsTo context p to e = elim (Bool-cases (refunds svc)) [
    | inr worker ↦ record {
      nobody = λ h. sym (ok_injective _ to (rw worker at e));
      by_default = λ h. cc;
      chosen = λ h. cc;
    }
    | inl master ↦
        let given = or_throw-eq-ok _ (failure thrown) (rw master at e) in
        record {
          nobody = λ h. cc;
          by_default = λ h is.
              recipient_is _ to
                (sym (ap (λ r. refund_or_else v r (some p.call.args.recipient)) is) ∙ given);
          chosen = λ h t is.
              encodable-eq-some t to
                (sym (ap (λ r. refund_or_else v r (some p.call.args.recipient)) is) ∙ given);
        }
  ]

  terms_of-TermsFor :
      (context : SponsorContext) (p : Prepared) (c : Priced) (a : Address) (s t : Store)
      (terms : FeeTerms)
      → terms_of v svc w op context p c a s ≡ (ok terms, t)
      → c.service_fee ≡ p.info.denomination * svc.service_fee_bps / 10_000
      → TermsFor context p c.token_per_eth a terms
  unfolding terms_of
  terms_of-TermsFor context p c a s t terms e service_is =
      let (refund, refunds, e1) =
        lift->>=-eq-ok (refund_address v svc w op context p.call.args) _ e in
      let (hash, hashed, e2) = lift->>=-eq-ok (withdrawal_hash v p.call.args) _ e1 in
      let same_refund : refund ≡ terms.refund_to = cc in
      let same_service : terms.service_fee ≡ c.service_fee = cc in
      record {
        bound = hashed ∙ ap ok cc;
        account = cc;
        fee = cc;
        token = cc;
        price = cc;
        expires = cc;
        at_once = cc;
        service_fee = same_service ∙ service_is;
        refund =
            subst (RefundsTo context p.call.args.recipient) same_refund
              (refund_address-RefundsTo context p refund refunds);
      }

  signed_message-eq-ok :
      (context : SponsorContext) (hash signature : Text) (s t : Store)
      → signed_message v svc w op context hash s ≡ (ok signature, t)
      → w.sign_message hash ≡ some signature
  signed_message-eq-ok context hash signature s t e = or_throw-eq-ok _ (failure thrown) cc

  pub issue-eq-ok :
      (context : SponsorContext) (p : Prepared) (c : Priced) (token : Text) (a : Address)
      (s t : Store) (r : PaymasterData)
      → issue v svc w op context p c token a s ≡ (ok r, t)
      → c.service_fee ≡ p.info.denomination * svc.service_fee_bps / 10_000
      → TermsFor context p c.token_per_eth a r.terms
        × IsSignedData r
        × Held p.call.args.nullifier_hash token t
        × (r.min_fee ≡ c.min_fee)
  unfolding issue
  issue-eq-ok context p c token a s t r e service_is =
      let (terms, t1, r1, e1) = act->>=-eq-ok (terms_of v svc w op context p c a) _ e in
      let (hash, hashed, e2) =
        lift->>=-eq-ok (paymaster_hash v op svc.chain_id svc.paymaster terms) _ e1 in
      let (signature, t3, r3, e3) =
        act->>=-eq-ok
          (or_release p.call.args.nullifier_hash token (signed_message v svc w op context hash)) _
          e2 in
      let (u, t4, r4, e4) = act->>=-eq-ok (record_signed w p.call.args.nullifier_hash token) _ e3 in
      let (bytes, encoded, e5) = lift->>=-eq-ok (encode_paymaster_data v terms signature) _ e4 in
      let (same_data, at) =
        pure-eq-ok (record { paymaster_data = bytes; terms = terms; min_fee = c.min_fee }) r e5 in
      let same : terms ≡ r.terms = ap (λ x. x.terms) same_data in
      let same_bytes : bytes ≡ r.paymaster_data = ap (λ x. x.paymaster_data) same_data in
      (
        subst (TermsFor context p c.token_per_eth a) same
            (terms_of-TermsFor context p c a s t1 terms r1 service_is),
        record {
          hash = hash;
          signature = signature;
          hashed =
              subst (λ x. paymaster_hash v op svc.chain_id svc.paymaster x ≡ ok hash) same hashed;
          by_key = signed_message-eq-ok context hash signature t1 t3 (
              or_release-eq-ok p.call.args.nullifier_hash token
                (signed_message v svc w op context hash) {s = t1} r3);
          encoded =
              subst (λ x. encode_paymaster_data v x signature ≡ ok r.paymaster_data) same
                (encoded ∙ ap ok same_bytes);
        },
        subst (Held p.call.args.nullifier_hash token) at (record_signed-Held w _ token t3 t4 r4),
        sym (ap (λ x. x.min_fee) same_data),
      )
