-- ===== src/Service/Sign/Checked.antt =====
-- What steps 4 to 8 of `sign` have established where none of them threw.
use mathlib.Core.Path.{subst}
use tornado_4337_relayer.Base.{ℕ, ◌≡◌, some, ok, ◌⊎◌}
use tornado_4337_relayer.Viem.{Viem, Address}
use tornado_4337_relayer.Store.{Store}
use tornado_4337_relayer.UserOp.{RpcUserOperation}
use tornado_4337_relayer.Service.{Service, World, SponsorContext, for_code, for_deposit}
use tornado_4337_relayer.Service.Act.{act->>=-eq-ok}
use tornado_4337_relayer.Service.Checks.{
  resolve_sender_implementation, assert_deposit_covers, assert_registration_current,
  assert_withdraw_simulates,
}
use tornado_4337_relayer.Service.Checks.Passed.{
  Covered, UnderCap, Unregistered, assert_deposit_covers-Covered, registration_current,
  Withdrawable, withdraw_simulated,
}
use tornado_4337_relayer.Service.Checks.Runs.{Implements, resolved}
use tornado_4337_relayer.Service.Bundler.{assert_bundler_simulates}
use tornado_4337_relayer.Service.Bundler.Simulated.{Estimated, estimated}
use tornado_4337_relayer.Service.Prepare.{Prepared, max_gas_cost}
use tornado_4337_relayer.Service.Sign.{checks}

module _ (v : Viem) (svc : Service) (w : World) (op : RpcUserOperation) where
  pub record Checked (context : SponsorContext) (p : Prepared) (a : Address) (s : Store)
      : Type 0 where
    pub implements : Implements v svc w op a
    pub under_cap : UnderCap svc.max_sponsorship_gas_wei (max_gas_cost p)
    pub deposit_wei : ℕ
    pub deposit_is : w.deposit_wei ≡ some deposit_wei
    -- the live entries of the store at the moment that the deposit is compared
    pub covered : Covered svc deposit_wei w.now (w.meanwhile for_deposit (w.meanwhile for_code s))
    pub registered : Unregistered svc.mode ⊎ (w.worker_master ≡ some svc.reward_account)
    pub withdrawable : Withdrawable w p.call.args
    pub estimate : Estimated v svc w op context

  pub checks-Checked :
      (context : SponsorContext) (p : Prepared) (a : Address) (s t : Store)
      → checks v svc w op context p s ≡ (ok a, t)
      → Checked context p a s
  unfolding checks
  checks-Checked context p a s t e =
      let (b, t1, r1, e1) = act->>=-eq-ok (resolve_sender_implementation v svc w op) _ e in
      let (u, t2, r2, e2) =
        act->>=-eq-ok (assert_deposit_covers svc w (max_gas_cost p) w.now) _ e1 in
      let (u', t3, r3, e3) = act->>=-eq-ok (assert_registration_current svc w) _ e2 in
      let (u'', t4, r4, e4) = act->>=-eq-ok (assert_withdraw_simulates w p.call.args) _ e3 in
      let (u''', t5, r5, e5) = act->>=-eq-ok (assert_bundler_simulates v svc w op context) _ e4 in
      let (i, at1) = resolved v svc w op s t1 b r1 in
      let same : b ≡ a = cc in
      let (cap, at2, (d, d_is, covered)) =
        assert_deposit_covers-Covered svc w (max_gas_cost p) w.now t1 t2 r2 in
      record {
        implements = subst (Implements v svc w op) same i;
        under_cap = cap;
        deposit_wei = d;
        deposit_is = d_is;
        covered = subst (λ x. Covered svc d w.now (w.meanwhile for_deposit x)) at1 covered;
        registered = registration_current svc w t2 t3 r3;
        withdrawable = withdraw_simulated w p.call.args t3 t4 r4;
        estimate = estimated v svc w op context t4 t5 r5;
      }
