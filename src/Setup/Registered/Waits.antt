-- ===== src/Setup/Registered/Waits.antt =====
-- How the wait for the registration ends.
use tornado_4337_relayer.Base.{
  ℕ, zero, suc, ◌+◌, ◌<◌, ◌≡◌, ◌≢◌, ◌⊎◌, inl, inr, refl, arith, true, Option, none, some, ◌==◌,
  Result, ok, err, if◌then◌else◌, Bool-cases,
}
use tornado_4337_relayer.Viem.{Address}
use tornado_4337_relayer.UserOp.{or_else}
use tornado_4337_relayer.Setup.{
  PaymasterSetupConfig, SetupError, thrown, other_master, not_registered,
}
use tornado_4337_relayer.Setup.Registered.{round, poll}

-- What an answer other than the zero address comes to.
abbrev pub settled : Address → Option Address → Result SetupError (Unit {0})
settled master none = err thrown
settled master (some resolved) = if resolved == master then ok tt else err (other_master resolved)

module _ (cfg : PaymasterSetupConfig) (master : Address) (workers : ℕ → Option Address) where
  -- The answers from `attempt` on are zero, `k` times.
  abbrev pub Zeros : ℕ → ℕ → Type 0
  Zeros attempt k = (i : ℕ) → i < k → workers (attempt + i) ≡ some 0

  shift : (attempt k : ℕ) → Zeros attempt (suc k) → Zeros (attempt + 1) k
  shift attempt k zeros i below =
      let e : attempt + 1 + i ≡ attempt + (i + 1) = omega arith in
      rw e (zeros (i + 1) (omega arith))

  unshift :
      (attempt k : ℕ) → workers attempt ≡ some 0 → Zeros (attempt + 1) k → Zeros attempt (suc k)
  unshift attempt k now zeros zero below = let e : attempt + 0 ≡ attempt = omega arith in rw e now
  unshift attempt k now zeros (suc i) below =
      let e : attempt + (suc i) ≡ attempt + 1 + i = omega arith in rw e (zeros i (omega arith))

  ends :
      (answer : Option Address) (rest : Result SetupError (Unit {0}))
      → answer ≢ some 0
      → or_else (round cfg master answer) rest ≡ settled master answer
  unfolding round
  ends none rest differs = refl
  ends (some zero) rest differs = absurd (differs refl)
  ends (some (suc n)) rest differs = ground arith

  waits_on :
      (k : ℕ) → (suc k ≡ 0) ⊎ (cfg.wait_for_registration ≡ true) → cfg.wait_for_registration ≡ true
  waits_on k (inl e) = absurd (omega arith)
  waits_on k (inr waits) = waits

  -- Zero `k` times, and then another answer: the wait ends with what that answer comes to.
  pub poll-settled :
      (k fuel attempt : ℕ)
      → (k ≡ 0) ⊎ (cfg.wait_for_registration ≡ true)
      → Zeros attempt k
      → workers (attempt + k) ≢ some 0
      → k < fuel
      → poll cfg master workers fuel attempt ≡ settled master (workers (attempt + k))
  unfolding poll
  poll-settled k zero attempt waits zeros answered enough = absurd (omega arith)
  poll-settled zero (suc fuel) attempt waits zeros answered enough =
      let e : attempt + 0 ≡ attempt = omega arith in
      rw e (ends (workers attempt) _ (rw e at answered))
  poll-settled (suc k) (suc fuel) attempt waits zeros answered enough =
      let w = waits_on k waits in
      let e : attempt + (suc k) ≡ attempt + 1 + k = omega arith in
      let e0 : attempt + 0 ≡ attempt = omega arith in
      rw (rw e0 at (zeros 0 (omega arith)), round, w, e)
        (poll-settled k fuel (attempt + 1) (inr w) (shift attempt k zeros) (rw e at answered)
          (omega arith))

  -- The answers after which the wait is over and was not in vain.
  pub record Found (fuel attempt : ℕ) : Type 0 where
    pub rounds : ℕ
    pub enough : rounds < fuel
    pub zeros : Zeros attempt rounds
    pub waits : (rounds ≡ 0) ⊎ (cfg.wait_for_registration ≡ true)
    pub found : workers (attempt + rounds) ≡ some master
    pub registered : master ≢ 0

  -- What one round may be, with what the registry has said.
  data Round (answer : Option Address) : Type 0 where
    here : round cfg master answer ≡ some (ok tt) → answer ≡ some master → master ≢ 0 → Round answer
    fails :
        (e : SetupError)
        → round cfg master answer ≡ some (err e)
        → (answer ≢ some master) ⊎ (master ≡ 0)
        → Round answer
    again :
        round cfg master answer ≡ none
        → answer ≡ some 0
        → cfg.wait_for_registration ≡ true
        → Round answer

  Round-cases : (answer : Option Address) → Round answer
  unfolding round
  Round-cases none = fails thrown refl (inl (λ e. cc))
  Round-cases (some zero) = elim (Bool-cases cfg.wait_for_registration) [
    | inl waits ↦ again (ground arith) refl waits
    | inr waits ↦ fails not_registered (ground arith) (ground arith)
  ]
  Round-cases (some (suc n)) = elim (Bool-cases (suc n == master)) [
    | inl same ↦ here (ground arith) (ground arith) (ground arith)
    | inr other ↦ fails (other_master (suc n)) (ground arith) (inl (ground arith))
  ]

  found-later :
      (fuel attempt : ℕ)
      → workers attempt ≡ some 0
      → cfg.wait_for_registration ≡ true
      → Found fuel (attempt + 1)
      → Found (suc fuel) attempt
  found-later fuel attempt now waits f =
      let e : attempt + suc f.rounds ≡ attempt + 1 + f.rounds = omega arith in
      record {
        rounds = suc f.rounds;
        enough = omega (arith, f.enough);
        zeros = unshift attempt f.rounds now f.zeros;
        waits = inr waits;
        found = rw e f.found;
        registered = f.registered;
      }

  pub poll-eq-ok :
      (fuel attempt : ℕ) → poll cfg master workers fuel attempt ≡ ok tt → Found fuel attempt
  unfolding poll
  poll-eq-ok zero attempt e = cc
  poll-eq-ok (suc fuel) attempt e = elim (Round-cases (workers attempt)) [
    | here is found registered ↦
        let e0 : attempt + 0 ≡ attempt = omega arith in
        record {
          rounds = 0;
          enough = omega arith;
          zeros = λ i below. absurd (omega arith);
          waits = inl refl;
          found = rw e0 found;
          registered = registered;
        }
    | fails reason is bad ↦ cc (rw is at e)
    | again is now waits ↦
        found-later fuel attempt now waits (poll-eq-ok fuel (attempt + 1) (rw is at e))
  ]
