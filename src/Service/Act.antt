-- ===== src/Service/Act.antt =====
-- A method of the service, as a step on its store, and what it does on a throw and at an `await`.
pub use tornado_4337_relayer.Base.Step.{
  pure, lift, gets, continue, ◌>>=◌, ◌>>◌, act->>=-eq-ok, lift->>=-eq-ok, act->>=-known,
  act->>=-make, act->>=-err, lift->>=-err, pure-eq-ok,
}
use tornado_4337_relayer.Base.{◌≡◌, Result, ok, err}
use tornado_4337_relayer.Base.Text.{Text}
use tornado_4337_relayer.Base.Step.{Step}
use tornado_4337_relayer.Errors.{Error}
use tornado_4337_relayer.Store.{Store, release}
use tornado_4337_relayer.Service.{World, Await}

abbrev pub Act : Type 0 → Type 0
Act A = Step Store Error A

-- `try { … } catch (err) { this.sponsored.release(k, token); throw err }`
abbrev pub released : {A : Type 0} → Text → Text → Result Error A → Store → Result Error A × Store
released k token (ok a) s = (ok a, s)
released k token (err e) s = (err e, release s k token)

abbrev pub or_release : {A : Type 0} → Text → Text → Act A → Act A
or_release k token m s = let (r, s') = m s in released k token r s'

-- `await`: other requests run
abbrev pub await : World → Await → Act (Unit {0})
await w at s = (ok tt, w.meanwhile at s)

released-eq-ok :
    {A : Type 0} (k token : Text) (r : Result Error A × Store) {s' : Store} {a : A}
    → released k token (r.0) (r.1) ≡ (ok a, s')
    → r ≡ (ok a, s')
released-eq-ok k token (ok a, s) e = e
released-eq-ok k token (err e', s) e = cc

pub or_release-eq-ok :
    {A : Type 0} (k token : Text) (m : Act A) {s s' : Store} {a : A}
    → or_release k token m s ≡ (ok a, s')
    → m s ≡ (ok a, s')
or_release-eq-ok k token m {s = s} e = released-eq-ok k token (m s) e
