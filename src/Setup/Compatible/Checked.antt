-- ===== src/Setup/Compatible/Checked.antt =====
-- What a paymaster is that the set-up may stake and fund.
use tornado_4337_relayer.Base.{
  ℕ, ◌≡◌, ◌⊎◌, inl, inr, ◌↔◌, ◌∙◌, ap, false, not, Option, none, some, ◌==◌, ok, or_throw, throw_if,
  arith, refl, >>=-eq-ok, throws-eq-ok, or_throw-eq-ok, Option-cases, ok_injective,
}
use tornado_4337_relayer.Base.Text.{Text}
use tornado_4337_relayer.Viem.{Address, zero_address}
use tornado_4337_relayer.UserOp.{paymaster_and_data_length}
use tornado_4337_relayer.Setup.{
  PaymasterSetupConfig, SetupError, no_contract, wrong_chain, unanswered, wrong_length,
  wrong_entry_point, wrong_signer, wrong_router, relationship_unreadable, thrown, Node,
  on_preflight, configured_router,
}
use tornado_4337_relayer.Setup.Contract.{without_code}
use tornado_4337_relayer.Setup.Compatible.{
  check_contract, check_answers, check_router, check_resolved, check_master,
  assert_paymaster_compatible,
}

module _ (cfg : PaymasterSetupConfig) (node : Node) (paymaster : Address) where
  -- a contract on the configured chain
  pub record Contract : Type 0 where
    pub code : Option Text
    pub answered : node.get_code on_preflight paymaster ≡ some code
    pub has_code : without_code code ≡ false
    pub on_chain : node.chain_id ≡ some cfg.chain_id

  -- the layout, the EntryPoint and the key of this software
  pub record Answers (router : Address) : Type 0 where
    pub same_layout : node.paymaster_and_data_length paymaster ≡ some paymaster_and_data_length
    pub same_entry_point : node.entry_point paymaster ≡ some cfg.entry_point
    pub same_signer : node.verifying_signer on_preflight paymaster ≡ some cfg.signer
    pub has_router : node.router on_preflight paymaster ≡ some router

  -- The registry of `router` names the reward account as the master, or no one yet.
  pub record MasterOf (router reward_account : Address) : Type 0 where
    pub registry : Address
    pub master : Address
    pub named : node.relayer_registry on_preflight router ≡ some registry
    pub resolved : node.workers on_preflight registry paymaster ≡ some master
    pub allowed : (master ≡ zero_address) ⊎ (master ≡ reward_account)

  -- Where a router is configured it is the paymaster's, and the master fits.
  abbrev pub Routed : Address → Option Address → Option Address → Type 0
  Routed router none reward = Unit
  Routed router (some wanted) none = router ≡ wanted
  Routed router (some wanted) (some reward) = (router ≡ wanted) × MasterOf router reward

  pub record Compatible : Type 0 where
    pub router : Address
    pub contract : Contract
    pub answers : Answers router
    pub routed : Routed router (configured_router cfg) cfg.reward_account

  same : (a b : ℕ) (e : SetupError) {u : Unit {0}} → throw_if (not (a == b)) e ≡ ok u → a ≡ b
  same a b e h = ground arith

  contract-Contract : check_contract cfg node paymaster ≡ ok tt → Contract
  unfolding check_contract
  contract-Contract e =
      let (code, read, e1) =
        >>=-eq-ok (or_throw (node.get_code on_preflight paymaster) thrown) _ e in
      let (has_code, e2) = throws-eq-ok (without_code code) (no_contract paymaster) _ e1 in
      let (chain_id, read', e3) = >>=-eq-ok (or_throw node.chain_id thrown) _ e2 in
      record {
        code = code;
        answered = or_throw-eq-ok _ thrown read;
        has_code = has_code;
        on_chain =
            or_throw-eq-ok _ thrown read'
            ∙ ap some (same chain_id cfg.chain_id (wrong_chain chain_id) e3);
      }

  answers-Answers : (r : Address) → check_answers cfg node paymaster ≡ ok r → Answers r
  unfolding check_answers
  answers-Answers r e =
      let (n, read1, e1) =
        >>=-eq-ok (or_throw (node.paymaster_and_data_length paymaster) unanswered) _ e in
      let (p, read2, e2) = >>=-eq-ok (or_throw (node.entry_point paymaster) unanswered) _ e1 in
      let (v, read3, e3) =
        >>=-eq-ok (or_throw (node.verifying_signer on_preflight paymaster) unanswered) _ e2 in
      let (q, read4, e4) =
        >>=-eq-ok (or_throw (node.router on_preflight paymaster) unanswered) _ e3 in
      let (u1, g1, e5) =
        >>=-eq-ok (throw_if (not (n == paymaster_and_data_length)) (wrong_length n)) _ e4 in
      let (u2, g2, e6) =
        >>=-eq-ok (throw_if (not (p == cfg.entry_point)) (wrong_entry_point p)) _ e5 in
      let (u3, g3, e7) = >>=-eq-ok (throw_if (not (v == cfg.signer)) (wrong_signer v)) _ e6 in
      record {
        same_layout = or_throw-eq-ok _ unanswered read1 ∙ ap some (same n _ _ g1);
        same_entry_point = or_throw-eq-ok _ unanswered read2 ∙ ap some (same p _ _ g2);
        same_signer = or_throw-eq-ok _ unanswered read3 ∙ ap some (same v _ _ g3);
        has_router = or_throw-eq-ok _ unanswered read4 ∙ ap some (ok_injective q r e7);
      }

  resolved-allowed :
      (reward master : Address)
      → check_resolved reward master ≡ ok tt
      → (master ≡ zero_address) ⊎ (master ≡ reward)
  unfolding check_resolved
  resolved-allowed reward master e = ground arith

  checked-Routed :
      (router : Address)
      → check_router cfg router ≡ ok tt
      → check_master cfg node paymaster router ≡ ok tt
      → Routed router (configured_router cfg) cfg.reward_account
  unfolding check_router check_master
  checked-Routed router e f = elim (Option-cases (configured_router cfg)) [
    | inl free ↦ rw free tt
    | inr (wanted, is) ↦
        let same_router : router ≡ wanted =
          same router wanted (wrong_router router) (rw (is, check_router) at e) in
        elim (Option-cases cfg.reward_account) [
          | inl no_reward ↦ rw (is, no_reward) same_router
          | inr (reward, has) ↦
              let (registry, read, f1) =
                >>=-eq-ok
                  (or_throw (node.relayer_registry on_preflight router) relationship_unreadable) _
                  (rw is at (rw (has, check_master) at f)) in
              let (master, read', f2) =
                >>=-eq-ok
                  (or_throw (node.workers on_preflight registry paymaster) relationship_unreadable)
                  _ f1 in
              rw (is, has)
                (
                  same_router,
                  record {
                    registry = registry;
                    master = master;
                    named = or_throw-eq-ok _ relationship_unreadable read;
                    resolved = or_throw-eq-ok _ relationship_unreadable read';
                    allowed = resolved-allowed reward master f2;
                  },
                )
        ]
  ]

  passed : assert_paymaster_compatible cfg node paymaster ≡ ok tt → Compatible
  unfolding assert_paymaster_compatible
  passed e =
      let (u, contract, e1) = >>=-eq-ok (check_contract cfg node paymaster) _ e in
      let (router, answers, e2) = >>=-eq-ok (check_answers cfg node paymaster) _ e1 in
      let (u', on_router, e3) = >>=-eq-ok (check_router cfg router) _ e2 in
      record {
        router = router;
        contract = contract-Contract contract;
        answers = answers-Answers router answers;
        routed = checked-Routed router on_router e3;
      }

  contract-ok : Contract → check_contract cfg node paymaster ≡ ok tt
  unfolding check_contract
  contract-ok c = ground (arith, c.answered, c.has_code, c.on_chain)

  answers-ok : (router : Address) → Answers router → check_answers cfg node paymaster ≡ ok router
  unfolding check_answers
  answers-ok router a =
      ground (arith, a.same_layout, a.same_entry_point, a.same_signer, a.has_router)

  same_as_wanted :
      (router wanted : Address) (reward : Option Address)
      → Routed router (some wanted) reward
      → router ≡ wanted
  same_as_wanted router wanted none r = r
  same_as_wanted router wanted (some reward) (r, m) = r

  router-ok :
      (router : Address) (reward : Option Address)
      → Routed router (configured_router cfg) reward
      → check_router cfg router ≡ ok tt
  unfolding check_router
  router-ok router reward r = elim (Option-cases (configured_router cfg)) [
    | inl free ↦ rw (check_router, free) refl
    | inr (wanted, is) ↦
        let same_router : router ≡ wanted = same_as_wanted router wanted reward (rw is at r) in
        rw (check_router, is, same_router) (ground arith)
  ]

  master-ok :
      (router : Address)
      → Routed router (configured_router cfg) cfg.reward_account
      → check_master cfg node paymaster router ≡ ok tt
  unfolding check_master check_resolved
  master-ok router r = elim (Option-cases cfg.reward_account) [
    | inl no_reward ↦ rw (no_reward, check_master) refl
    | inr (reward, has) ↦ elim (Option-cases (configured_router cfg)) [
      | inl free ↦ rw (has, check_master) (rw free refl)
      | inr (wanted, is) ↦
          let (same_router, m) : Routed router (some wanted) (some reward) = simp (has, is) at r in
          rw (has, check_master)
            (rw is (ground (arith, m.named, m.resolved, m.allowed, check_resolved)))
    ]
  ]

  passes : Compatible → assert_paymaster_compatible cfg node paymaster ≡ ok tt
  unfolding assert_paymaster_compatible
  passes c = ground (
    arith,
    contract-ok c.contract,
    answers-ok c.router c.answers,
    router-ok c.router cfg.reward_account c.routed,
    master-ok c.router c.routed,
  )

  -- The check passes exactly for a contract on the configured chain, of this layout, bound to the
  -- configured EntryPoint and to this key, and, where a router is configured, wired to that router
  -- with no other master than the reward account.
  pub assert_paymaster_compatible_iff :
      (assert_paymaster_compatible cfg node paymaster ≡ ok tt) ↔ Compatible
  assert_paymaster_compatible_iff = (passed, passes)
