-- ===== src/Service/Sign/Released.antt =====
-- What is left of the reservation where `sign` throws after it has reserved the note.
use mathlib.Core.Path.{subst}
use tornado_4337_relayer.Base.{
  ℕ, ◌≡◌, refl, ap, ◌∙◌, sym, Bool, false, ◌&&◌, none, some, arith, Result, ok, err, inl, inr,
  Option-cases, ◌⊎◌,
}
use tornado_4337_relayer.Base.Text.{Text, text_eq, text_eq_iff, text_key}
use tornado_4337_relayer.Errors.{Error, nonce_field}
use tornado_4337_relayer.Viem.{Viem, Address}
use tornado_4337_relayer.Store.{Store, SponsoredNote, get, is_pending, prune, release}
use tornado_4337_relayer.Store.Laws.{committed, get-release, release_missing, commit_lem}
use tornado_4337_relayer.UserOp.{RpcUserOperation, FeeTerms, q}
use tornado_4337_relayer.UserOp.Hash.{withdrawal_hash, paymaster_hash, encode_paymaster_data}
use tornado_4337_relayer.Service.{Service, World, SponsorContext}
use tornado_4337_relayer.Service.Act.{
  Act, pure, act->>=-known, act->>=-err, lift->>=-err, lift, released, or_release, continue, ◌>>=◌,
  ◌>>◌,
}
use tornado_4337_relayer.Service.Prepare.{Prepared, Priced, max_gas_cost}
use tornado_4337_relayer.Service.Sign.{
  take_note, record_signed, checks, refund_address, terms_of, signed_message, issue,
  reserve_and_issue,
}
use tornado_4337_relayer.Service.Sign.Terms.{get-committed}

-- a pending note is held by the token
abbrev pub holds_pending : Text → Text → Store → Bool
holds_pending k token s = elim (get s k) [
  | none ↦ false
  | some n ↦ text_eq n.token token && is_pending n
]

abbrev pub Released : Text → Text → Store → Type 0
Released k token s = holds_pending k token s ≡ false

release-Released : (s : Store) (k token : Text) → Released k token (release s k token)
release-Released s k token = elim (Option-cases (get s k)) [
  | inl missing ↦ rw (release_missing s k token missing) (rw (missing, holds_pending) refl)
  | inr (m, is) ↦
      ground (arith, get-release s k k token m is, text_eq_iff k k, text_eq_iff m.token token)
]

after :
    {A B : Type 0} (k token : Text) (r : Result Error A × Store) (f : A → Act B) {s' : Store}
    {e : Error}
    → continue ((released k token (r.0) (r.1)).0) f ((released k token (r.0) (r.1)).1) ≡ (err e, s')
    → Released k token s' ⊎ ((a : A) × (t : Store) × (r ≡ (ok a, t)) × (f a t ≡ (err e, s')))
after k token (ok a, t) f e = inr (a, t, refl, e)
after k token (err e', t) f e =
    inl (subst (Released k token) (ap (λ x. x.1) e) (release-Released t k token))

-- A failure is passed on after the release, or came from what follows.
or_release-err :
    {A B : Type 0} (k token : Text) (m : Act A) (f : A → Act B) (s : Store) {s' : Store} {e : Error}
    → (or_release k token m >>= f) s ≡ (err e, s')
    → Released k token s' ⊎ ((a : A) × (t : Store) × (m s ≡ (ok a, t)) × (f a t ≡ (err e, s')))
or_release-err k token m f s e = after k token (m s) f e

committed-Released :
    (s : Store) (k token : Text) (n : SponsoredNote) → Released k token (committed s k n)
committed-Released s k token n = ground (arith, get-committed s k n)

kept :
    {B C : Type 0} (r : Result Error C) (g : C → B) (s : Store)
    → (continue r (λ x. pure (g x)) s).1 ≡ s
kept (ok x) g s = refl
kept (err e) g s = refl

record_signed-Released :
    {B C : Type 0} (w : World) (k token : Text) (r : Result Error C) (g : C → B) (s : Store)
    {s' : Store} {e : Error}
    → (record_signed w k token >> (lift r >>= λ x. pure (g x))) s ≡ (err e, s')
    → Released k token s'
unfolding record_signed
record_signed-Released w k token r g s e = elim (commit_lem w.writable s k token) [
  | inr (e', done, why) ↦
      subst (Released k token) (ap (λ x. x.1) (rw (done, record_signed) at e))
        (release-Released s k token)
  | inl (n, there, yours, can, done) ↦
      subst (Released k token)
        (sym (kept r g (committed s k n)) ∙ ap (λ x. x.1) (rw (done, record_signed) at e))
        (committed-Released s k token n)
]

Result-cases :
    {A : Type 0} (r : Result Error A) → ((a : A) × (r ≡ ok a)) ⊎ ((e : Error) × (r ≡ err e))
Result-cases (ok a) = inl (a, refl)
Result-cases (err e) = inr (e, refl)

both :
    {A : Type 0} {r : Result Error A × Store} {x : Result Error A} {s : Store}
    → r.0 ≡ x
    → r.1 ≡ s
    → r ≡ (x, s)
both h k = λ i. (h i, k i)

ended :
    {A : Type 0} {r : Result Error A × Store} {e e' : Error} {s s' : Store}
    → r ≡ (err e, s)
    → r ≡ (err e', s')
    → s' ≡ s
ended h k = ap (λ x. x.1) (sym k ∙ h)

module _ (v : Viem) (svc : Service) (w : World) (op : RpcUserOperation)
    (context : SponsorContext) where
  -- Why step 9 throws outside of any `try`, on the store `s`: the terms cannot be made, or their
  -- hash cannot be encoded.
  abbrev pub Unhashed : Prepared → Priced → Address → Store → Type 0
  Unhashed p c a s =
      ((e : Error) × (terms_of v svc w op context p c a s ≡ (err e, s)))
      ⊎ ((terms : FeeTerms) × (e : Error) × (terms_of v svc w op context p c a s ≡ (ok terms, s))
          × (paymaster_hash v op svc.chain_id svc.paymaster terms ≡ err e))

  terms_of-same :
      (p : Prepared) (c : Priced) (a : Address) (s : Store)
      → (terms_of v svc w op context p c a s).1 ≡ s
  unfolding terms_of
  terms_of-same p c a s = elim (Result-cases (refund_address v svc w op context p.call.args)) [
    | inr (e, fails) ↦ rw fails refl
    | inl (refund, is) ↦ rw is (elim (Result-cases (withdrawal_hash v p.call.args)) [
      | inr (e, fails) ↦ rw fails refl
      | inl (hash, is') ↦ rw is' refl
    ])
  ]

  terms_of-cases :
      (p : Prepared) (c : Priced) (a : Address) (s : Store)
      → ((terms : FeeTerms) × (terms_of v svc w op context p c a s ≡ (ok terms, s)))
        ⊎ ((e : Error) × (terms_of v svc w op context p c a s ≡ (err e, s)))
  terms_of-cases p c a s = elim (Result-cases ((terms_of v svc w op context p c a s).0)) [
    | inl (terms, is) ↦ inl (terms, both is (terms_of-same p c a s))
    | inr (e, is) ↦ inr (e, both is (terms_of-same p c a s))
  ]

  issue-Released :
      (p : Prepared) (c : Priced) (token : Text) (a : Address) (s s' : Store) (e : Error)
      → issue v svc w op context p c token a s ≡ (err e, s')
      → Released p.call.args.nullifier_hash token s' ⊎ (Unhashed p c a s × (s' ≡ s))
  unfolding issue
  issue-Released p c token a s s' e failed = elim (terms_of-cases p c a s) [
    | inr (e', unmade) ↦ inr (
      inl (e', unmade),
      ended (act->>=-err (terms_of v svc w op context p c a) _ s s unmade) failed,
    )
    | inl (terms, made) ↦
        let failed1 = act->>=-known (terms_of v svc w op context p c a) _ s s made failed in
        elim (Result-cases (paymaster_hash v op svc.chain_id svc.paymaster terms)) [
          | inr (e', unhashed) ↦ inr (
            inr (terms, e', made, unhashed),
            ended (lift->>=-err (paymaster_hash v op svc.chain_id svc.paymaster terms) _ s unhashed)
                failed1,
          )
          | inl (h, packed) ↦
              let failed2 =
                act->>=-known (lift (paymaster_hash v op svc.chain_id svc.paymaster terms)) _ s s
                  (ap (λ x. (x, s)) packed) failed1 in
              elim (or_release-err p.call.args.nullifier_hash token
                (signed_message v svc w op context h) _ s failed2) [
                  | inl gone ↦ inl gone
                  | inr (signature, t, signs, failed3) ↦ inl (
                      record_signed-Released w p.call.args.nullifier_hash token
                        (encode_paymaster_data v terms signature) _ t failed3)
                ]
        ]
  ]

  -- A request that has passed every check and whose terms or hash step 9 cannot make, with the store
  -- as the checks left it.
  pub record LeftHeld (p : Prepared) (c : Priced) (reserved_in left : Store) : Type 0 where
    pub implementation : Address
    pub passed : checks v svc w op context p reserved_in ≡ (ok implementation, left)
    pub unhashed : Unhashed p c implementation left

  -- Where `sign` throws after it has reserved the note, whichever step threw, the reservation is not
  -- left behind: at the end no pending note holds its token. There is one exception: the request has
  -- passed every check, but step 9 cannot make its terms or encode their hash; the store is then as
  -- the checks left it.
  pub reserve_and_issue-Released :
      (p : Prepared) (c : Priced) (nonce : ℕ) (token : Text) (s t s' : Store) (e : Error)
      → q v op.nonce nonce_field ≡ ok nonce
      → take_note svc w p.call.args op nonce (max_gas_cost p) (prune s w.now) ≡ (ok token, t)
      → reserve_and_issue v svc w op context p c s ≡ (err e, s')
      → Released p.call.args.nullifier_hash token s' ⊎ LeftHeld p c t s'
  unfolding reserve_and_issue
  reserve_and_issue-Released p c nonce token s t s' e nonce_is taken failed =
      let k = p.call.args.nullifier_hash in
      let pruned_s = prune s w.now in
      let failed1 =
        act->>=-known (lift (q v op.nonce nonce_field)) _ pruned_s pruned_s
          (ap (λ x. (x, pruned_s)) nonce_is) failed in
      let failed2 =
        act->>=-known (take_note svc w p.call.args op nonce (max_gas_cost p)) _ pruned_s t taken
          failed1 in
      elim (or_release-err k token (checks v svc w op context p) _ t failed2) [
        | inl gone ↦ inl gone
        | inr (a, t', passed, failed3) ↦ elim (issue-Released p c token a t' s' e failed3) [
          | inl gone ↦ inl gone
          | inr (unhashed, same) ↦ inr (record {
            implementation = a;
            passed = passed ∙ ap (λ x. (ok a, x)) (sym same);
            unhashed = subst (Unhashed p c a) (sym same) unhashed;
          })
        ]
      ]
