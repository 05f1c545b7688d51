-- ===== src/Setup/Contract/Restart.antt =====
-- A second start, with the state file that the first has left.
use tornado_4337_relayer.Base.{
  ◌≡◌, ◌↔◌, refl, sym, ap, ◌∙◌, arith, true, false, not, Option, none, some, ◌==◌, ok, Result,
  or_throw, or_throw-eq-ok, throw_if, throw_if-eq-ok, inl, inr, Option-cases, Bool-cases,
}
use tornado_4337_relayer.Base.Text.{Text}
use tornado_4337_relayer.Base.Step.{lift, act->>=-eq-ok, lift->>=-eq-ok, act->>=-make, pure-eq-ok}
use tornado_4337_relayer.Viem.{Address}
use tornado_4337_relayer.Setup.{
  PaymasterSetupConfig, SetupError, no_paymaster_address, no_contract, wrong_signer, thrown, holds,
  Node, Machine, on_candidate, send,
}
use tornado_4337_relayer.Setup.Contract.{
  remembered, check_candidate, deployed, deployment, wire_router, remember, deploy, use_or_deploy,
  first_of, ensure_standalone_contract, without_code,
}

module _ (cfg : PaymasterSetupConfig) where
  -- a contract that answers to this key
  pub record Usable (node : Node) (p : Address) : Type 0 where
    pub code : Option Text
    pub answered : node.get_code on_candidate p ≡ some code
    pub has_code : without_code code ≡ false
    pub same_signer : node.verifying_signer on_candidate p ≡ some cfg.signer

  module _ (node : Node) (c : Address) (m : Machine) where
    check_candidate-quiet : (check_candidate cfg node c m).1 ≡ m
    unfolding check_candidate
    check_candidate-quiet = ground arith

    check_candidate-Usable :
        {p : Address} {t : Machine}
        → check_candidate cfg node c m ≡ (ok p, t)
        → (c ≡ p) × (m ≡ t) × Usable node c
    unfolding check_candidate
    check_candidate-Usable {p} {t} e =
        let (code, read, e1) =
          lift->>=-eq-ok (or_throw (node.get_code on_candidate c) thrown) _ e in
        let (u, has_code, e2) =
          lift->>=-eq-ok (throw_if (without_code code) (no_contract c)) _ e1 in
        let (s, read', e3) =
          lift->>=-eq-ok (or_throw (node.verifying_signer on_candidate c) thrown) _ e2 in
        let (u', same, e4) =
          lift->>=-eq-ok (throw_if (not (s == cfg.signer)) (wrong_signer s)) _ e3 in
        let (is, kept) = pure-eq-ok c p e4 in
        let same_signer : s ≡ cfg.signer = ground arith in
        (
          is,
          kept,
          record {
            code = code;
            answered = or_throw-eq-ok _ thrown read;
            has_code = throw_if-eq-ok _ (no_contract c) has_code;
            same_signer = or_throw-eq-ok _ thrown read' ∙ ap some same_signer;
          },
        )

    Usable-check_candidate : Usable node c → (check_candidate cfg node c m).0 ≡ ok c
    unfolding check_candidate
    Usable-check_candidate u = ground (arith, u.answered, u.has_code, u.same_signer)

  -- the candidate of a later start is `p`
  record Remembers (p : Address) (m : Machine) : Type 0 where
    state : Option Address
    read : remembered cfg m.file ≡ ok state
    chosen : first_of cfg.paymaster state ≡ some p

  file_of :
      (a b : Machine)
      → ◌≡◌ {A = Result SetupError (Unit {0}) × Machine} (ok tt, a) (ok tt, b)
      → b.file ≡ a.file
  file_of a b e = sym (ap (λ x. (x.1).file) e)

  remember-holds :
      (node : Node) (q : Address) (tx : Text) (m t : Machine)
      → cfg.has_state_file ≡ true
      → remember cfg node q tx m ≡ (ok tt, t)
      → t.file ≡ holds (record { paymaster = some q; deploy_tx = some tx })
  unfolding remember
  remember-holds node q tx m t kept e = elim (Bool-cases node.writable) [
    | inl writable ↦ file_of _ _ (simp (kept, writable) at e)
    | inr other ↦ cc (simp (kept, other) at e)
  ]

  none_chosen : (a b : Option Address) → first_of a b ≡ none → a ≡ none
  none_chosen none b e = refl
  none_chosen (some a) b e = cc

  remembered-holds :
      (p : Address) (tx : Text)
      → cfg.has_state_file ≡ true
      → remembered cfg (holds (record { paymaster = some p; deploy_tx = some tx })) ≡ ok (some p)
  unfolding remembered
  remembered-holds p tx kept = rw kept refl

  deploy-Remembers :
      (node : Node) (p : Address) (m t : Machine)
      → cfg.has_state_file ≡ true
      → cfg.paymaster ≡ none
      → deploy cfg node m ≡ (ok p, t)
      → Remembers p t
  unfolding deploy
  deploy-Remembers node p m t kept fresh e =
      let (u, on, e1) = lift->>=-eq-ok (throw_if (not cfg.auto_setup) no_paymaster_address) _ e in
      let (r, m1, sent, e2) = act->>=-eq-ok (send node (deployment cfg)) _ e1 in
      let (q, is, e3) = lift->>=-eq-ok (deployed r) _ e2 in
      let (u1, m2, wired, e4) = act->>=-eq-ok (wire_router cfg node q) _ e3 in
      let (u2, m3, written, e5) = act->>=-eq-ok (remember cfg node q r.hash) _ e4 in
      let (same, last) = pure-eq-ok q p e5 in
      let file = remember-holds node q r.hash m2 m3 kept written in
      record {
        state = some p;
        read =
            ap (remembered cfg) (ap (λ (x : Machine). x.file) (sym last) ∙ file)
            ∙ remembered-holds q r.hash kept
            ∙ ap ok (ap some same);
        chosen = rw fresh refl;
      }

  first-Remembers :
      (node : Node) (p : Address) (m t : Machine)
      → cfg.has_state_file ≡ true
      → ensure_standalone_contract cfg node m ≡ (ok p, t)
      → Remembers p t
  unfolding ensure_standalone_contract
  first-Remembers node p m t kept e =
      let (state, read, e1) = lift->>=-eq-ok (remembered cfg m.file) _ e in
      elim (Option-cases (first_of cfg.paymaster state)) [
        | inl none_yet ↦
            deploy-Remembers node p m t kept (none_chosen cfg.paymaster state none_yet)
              (rw (none_yet, use_or_deploy) at e1)
        | inr (c, chosen) ↦
            let (is, same, usable) =
              check_candidate-Usable node c m (rw (chosen, use_or_deploy) at e1) in
            record {
              state = state;
              read = ap (λ (x : Machine). remembered cfg x.file) (sym same) ∙ read;
              chosen = chosen ∙ ap some is;
            }
      ]

  again :
      (node : Node) (p : Address) (m : Machine)
      → Remembers p m
      → ensure_standalone_contract cfg node m ≡ check_candidate cfg node p m
  unfolding ensure_standalone_contract use_or_deploy
  again node p m r =
      act->>=-make (lift (remembered cfg m.file)) _ m m (ap (λ x. (x, m)) r.read)
      ∙ ap (λ x. use_or_deploy cfg node x m) r.chosen

  both :
      (x : Result SetupError Address × Machine) (r : Result SetupError Address) (t : Machine)
      → x.0 ≡ r
      → x.1 ≡ t
      → x ≡ (r, t)
  both (a, b) r t e f = λ i. (e i, f i)

  -- Once a start has come by its contract, and there is a state file, no later start deploys another
  -- or sends anything at all for it, whatever the node then answers; and it passes this step, with
  -- the same address, exactly if the contract is there and answers to this key.
  pub restart_redeploys_nothing :
      (node later : Node) (p : Address) (m t : Machine)
      → cfg.has_state_file ≡ true
      → ensure_standalone_contract cfg node m ≡ (ok p, t)
      → ((ensure_standalone_contract cfg later t).1 ≡ t)
        × (((ensure_standalone_contract cfg later t).0 ≡ ok p) ↔ Usable later p)
  restart_redeploys_nothing node later p m t kept e =
      let same = again later p t (first-Remembers node p m t kept e) in
      (
        ap (λ x. x.1) same ∙ check_candidate-quiet later p t,
        (
          (λ passed.
              (check_candidate-Usable later p t (
                both _ (ok p) t (ap (λ x. x.0) (sym same) ∙ passed)
                  (check_candidate-quiet later p t))).2),
          (λ usable. ap (λ x. x.0) same ∙ Usable-check_candidate later p t usable),
        ),
      )
