-- ===== src/Service/Bundler/Simulated.antt =====
-- What is known where the bundler's simulation has passed.
use tornado_4337_relayer.Base.{◌≡◌, not, Option, ok, throw_if}
use tornado_4337_relayer.Base.Text.{Text}
use tornado_4337_relayer.Errors.{validation_error, no_bundler}
use tornado_4337_relayer.Viem.{Viem}
use tornado_4337_relayer.Store.{Store}
use tornado_4337_relayer.UserOp.{RpcUserOperation}
use tornado_4337_relayer.Service.{Service, World, SponsorContext}
use tornado_4337_relayer.Service.Act.{lift->>=-eq-ok}
use tornado_4337_relayer.Service.Stub.{stub_data}
use tornado_4337_relayer.Service.Bundler.{simulated_op, read_override, assert_bundler_simulates}
use tornado_4337_relayer.Service.Estimate.Fits.{Fits, judge_estimate_iff}

module _ (v : Viem) (svc : Service) (w : World) (op : RpcUserOperation) where
  -- The bundler has simulated the operation, with a stub for the paymaster's data, and its estimate
  -- fits.
  pub record Estimated (context : SponsorContext) : Type 0 where
    pub stub : Text
    pub override : Option Text
    pub stubbed : stub_data v svc w.now op context ≡ ok stub
    pub overridden : read_override v w op ≡ ok override
    pub fits : Fits v op (w.estimate_user_operation_gas (simulated_op v svc stub op) override)

  pub estimated :
      (context : SponsorContext) (s t : Store)
      → assert_bundler_simulates v svc w op context s ≡ (ok tt, t)
      → Estimated context
  unfolding assert_bundler_simulates
  estimated context s t e =
      let (u, has, e1) =
        lift->>=-eq-ok (throw_if (not svc.has_bundler) (validation_error no_bundler 32007)) _ e in
      let (stub, stubbed, e2) = lift->>=-eq-ok (stub_data v svc w.now op context) _ e1 in
      let (override, overridden, e3) = lift->>=-eq-ok (read_override v w op) _ e2 in
      record {
        stub = stub;
        override = override;
        stubbed = stubbed;
        overridden = overridden;
        fits = (judge_estimate_iff v op _).0 cc;
      }
