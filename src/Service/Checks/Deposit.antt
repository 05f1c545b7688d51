-- ===== src/Service/Checks/Deposit.antt =====
-- What the deposit pays for where `assertDepositCovers` has passed.
use mathlib.Core.Path.{subst}
use tornado_4337_relayer.Base.{ℕ, ◌+◌, ◌≤◌, ◌≡◌, sym, true, some, arith, ok}
use tornado_4337_relayer.Base.Text.{Text}
use tornado_4337_relayer.Store.{Store, SponsoredNote, get, outstanding}
use tornado_4337_relayer.Store.Budget.{
  all_cost, cost, total_cost, committed_gas_cost_iff, cost-le-total_cost,
}
use tornado_4337_relayer.UserOp.{or_else}
use tornado_4337_relayer.Service.{Service, World}
use tornado_4337_relayer.Service.Checks.{assert_deposit_covers}
use tornado_4337_relayer.Service.Checks.Passed.{Covered, assert_deposit_covers-Covered}

-- Where the check of the deposit passes and leaves the store `t`, every live entry of `t` has a
-- recorded cost, and the deposit pays for all of them together and the reserve. A live entry of `t`,
-- the request's own reservation if it is still there, is one of them.
pub deposit_pays_for_all :
    (svc : Service) (w : World) (price now : ℕ) (s t : Store) (k : Text) (n : SponsoredNote)
    → assert_deposit_covers svc w price now s ≡ (ok tt, t)
    → get t k ≡ some n
    → now ≤ n.valid_until
    → (d : ℕ) × (w.deposit_wei ≡ some d)
      × (all_cost (outstanding t now) ≡ true)
      × (total_cost (outstanding t now) + or_else svc.min_deposit_wei 0 ≤ d)
      × (cost n ≤ total_cost (outstanding t now))
unfolding outstanding
deposit_pays_for_all svc w price now s t k n passed at live =
    let (capped, t_is, (d, d_is, covered)) =
      assert_deposit_covers-Covered svc w price now s t passed in
    let c = subst (Covered svc d now) (sym t_is) covered in
    let (all, sum) = (committed_gas_cost_iff (outstanding t now) c.total).0 c.counted in
    (d, d_is, all, ground (arith, sum, c.enough), cost-le-total_cost t.notes k n now at live)
