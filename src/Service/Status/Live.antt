-- ===== src/Service/Status/Live.antt =====
-- What the status tells, against what `sign` does.
use tornado_4337_relayer.Base.{
  ℕ, ◌+◌, ◌≡◌, ◌↔◌, refl, arith, true, false, Option, none, some, ltb, ok,
}
use tornado_4337_relayer.UserOp.{or_else}
use tornado_4337_relayer.Store.{
  Store, GasCost, known, unknown, outstanding, committed_gas_cost, prune,
}
use tornado_4337_relayer.Service.{Service}
use tornado_4337_relayer.Service.Checks.{covers}
use tornado_4337_relayer.Service.Checks.Passed.{covers-Covered}
use tornado_4337_relayer.Service.Start.{Started}
use tornado_4337_relayer.Service.Status.{Answers, accepts, live_state, status_of, status}

accepts_iff :
    (deposit : Option ℕ) (g : GasCost) (floor : ℕ)
    → (accepts deposit g floor ≡ true) ↔ (
        (d : ℕ) × (total : ℕ) × (deposit ≡ some d)
        × (g ≡ known total)
        × (ltb d (total + floor) ≡ false))
accepts_iff none g floor = ((λ e. cc), λ (d, total, read, counted, low). cc read)
accepts_iff (some d) (unknown count until) floor =
    ((λ e. cc), λ (d, total, read, counted, low). cc counted)
accepts_iff (some d) (known total) floor =
    ((λ e. (d, total, refl, refl, ground arith)), λ h. ground (arith, h.2))

covers_iff :
    (svc : Service) (d time : ℕ) (store : Store)
    → (covers svc d time store ≡ ok tt) ↔ (
        (total : ℕ) × (committed_gas_cost (outstanding store time) ≡ known total)
        × (ltb d (total + or_else svc.min_deposit_wei 0) ≡ false))
unfolding covers
covers_iff svc d time store = (
  (λ e.
      let c = covers-Covered svc d time store e in (c.total, c.counted, ground (arith, c.enough))),
  (λ (total, counted, low). rw (covers, counted) (rw low refl)),
)

module _ (s : Started) (now : Answers) (time : ℕ) (store : Store) where
  -- The status says `accepting` exactly if the deposit could be read and the check that `sign` makes
  -- of it would pass on the store as it is now.
  pub status-accepting_iff : ((status s now time store).0.accepting ≡ true) ↔ (
      (d : ℕ) × (now.deposit_wei ≡ some d)
      × (covers s.service d time (now.meanwhile (prune store time)) ≡ ok tt))
  unfolding status status_of live_state
  status-accepting_iff =
      let after = now.meanwhile (prune store time) in
      let deposit = now.deposit_wei in
      let iff =
        accepts_iff deposit (committed_gas_cost (outstanding after time))
          (or_else s.service.min_deposit_wei 0) in
      (
        (λ e.
            let (d, total, read, counted, low) = iff.0 e in
            (d, read, (covers_iff s.service d time after).1 (total, counted, low))),
        (λ (d, read, covered).
            let (total, counted, low) = (covers_iff s.service d time after).0 covered in
            iff.1 (d, total, read, counted, low)),
      )
