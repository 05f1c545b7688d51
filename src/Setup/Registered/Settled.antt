-- ===== src/Setup/Registered/Settled.antt =====
-- What the registration step comes to, from the paymaster's router on.
use tornado_4337_relayer.Base.{
  ℕ, ◌+◌, ◌<◌, ◌≡◌, ◌≢◌, inl, inr, refl, ◌↔◌, arith, true, false, Option, some, ◌==◌, ok, ◌∙◌, ap,
  or_throw, or_throw-eq-ok, >>=-eq-ok, Bool-cases,
}
use tornado_4337_relayer.Viem.{Address, zero_address}
use tornado_4337_relayer.UserOp.{or_else}
use tornado_4337_relayer.Setup.{PaymasterSetupConfig, Node, thrown, on_registration, on_poll}
use tornado_4337_relayer.Setup.Registered.{poll, ensure_registered}
use tornado_4337_relayer.Setup.Registered.Waits.{settled, Found, poll-settled, poll-eq-ok}

not_zero_answer : (o : Option ℕ) (m : ℕ) → o ≡ some m → m ≢ 0 → o ≢ some 0
not_zero_answer o m e registered zero_answer = registered cc

module _ (cfg : PaymasterSetupConfig) (node : Node) (paymaster : Address) where
  -- the master that the paymaster has to be a worker of
  abbrev pub expected_master : Address
  expected_master = or_else cfg.reward_account paymaster

  -- what the registry says in each round
  abbrev pub answers : Address → ℕ → Option Address
  answers registry attempt = node.workers (on_poll attempt) registry paymaster

  -- The paymaster has a router, whose registry is `registry`.
  pub record Registry (router registry : Address) : Type 0 where
    pub has_router : node.router on_registration paymaster ≡ some router
    pub not_zero : router ≢ zero_address
    pub named : node.relayer_registry on_registration router ≡ some registry

  unwrapped :
      (fuel router registry : ℕ)
      → Registry router registry
      → ensure_registered cfg node fuel paymaster
        ≡ poll cfg expected_master (answers registry) fuel 0
  unfolding ensure_registered
  unwrapped fuel router registry r =
      let off : (router == zero_address) ≡ false = ground (arith, r.not_zero) in
      ground (arith, r.has_router, off, r.named)

  from_zero : (registry i : ℕ) → answers registry i ≡ some 0 → answers registry (0 + i) ≡ some 0
  from_zero registry i zero_answer = let e : 0 + i ≡ i = omega arith in rw e zero_answer

  -- With waiting on, a registry that answers zero `k` times and then something else ends the
  -- wait: the step comes to what that answer says, however many more rounds there might be.
  pub ensure_registered-settled :
      (fuel k router registry : ℕ)
      → Registry router registry
      → cfg.wait_for_registration ≡ true
      → ((i : ℕ) → i < k → answers registry i ≡ some zero_address)
      → answers registry k ≢ some zero_address
      → k < fuel
      → ensure_registered cfg node fuel paymaster ≡ settled expected_master (answers registry k)
  ensure_registered-settled fuel k router registry r waits zeros answered enough =
      let e : 0 + k ≡ k = omega arith in
      unwrapped fuel router registry r
      ∙ simp e at (
          poll-settled cfg expected_master (answers registry) k fuel 0 (inr waits)
            (λ i below. from_zero registry i (zeros i below)) (rw e answered) enough)

  pub data Registered (fuel : ℕ) : Type 0 where
    without_router : node.router on_registration paymaster ≡ some zero_address → Registered fuel
    registered_under :
        (router registry : Address)
        → Registry router registry
        → Found cfg expected_master (answers registry) fuel 0
        → Registered fuel

  found-ok :
      (fuel registry : ℕ)
      → Found cfg expected_master (answers registry) fuel 0
      → poll cfg expected_master (answers registry) fuel 0 ≡ ok tt
  found-ok fuel registry f =
      poll-settled cfg expected_master (answers registry) f.rounds fuel 0 f.waits f.zeros
        (not_zero_answer _ expected_master f.found f.registered) f.enough
      ∙ rw f.found (ground arith)

  passes : (fuel : ℕ) → Registered fuel → ensure_registered cfg node fuel paymaster ≡ ok tt
  unfolding ensure_registered
  passes fuel (without_router read) = rw read refl
  passes fuel (registered_under router registry r f) =
      unwrapped fuel router registry r ∙ found-ok fuel registry f

  passed : (fuel : ℕ) → ensure_registered cfg node fuel paymaster ≡ ok tt → Registered fuel
  unfolding ensure_registered
  passed fuel e =
      let (router, read, e1) =
        >>=-eq-ok (or_throw (node.router on_registration paymaster) thrown) _ e in
      let is_router = or_throw-eq-ok (node.router on_registration paymaster) thrown read in
      elim (Bool-cases (router == zero_address)) [
        | inl is ↦ without_router (is_router ∙ ap some (ground arith))
        | inr off ↦
            let (registry, read', e2) =
              >>=-eq-ok (or_throw (node.relayer_registry on_registration router) thrown) _
                (rw off at e1) in
            let r : Registry router registry = record {
              has_router = is_router;
              not_zero = ground arith;
              named = or_throw-eq-ok _ thrown read';
            } in
            registered_under router registry r
              (poll-eq-ok cfg expected_master (answers registry) fuel 0 e2)
      ]

  -- The step passes exactly if there is no router, or if the registry, after answers of zero
  -- that it may wait for and in fewer rounds than there are, names the expected master.
  pub ensure_registered_iff :
      (fuel : ℕ) → (ensure_registered cfg node fuel paymaster ≡ ok tt) ↔ Registered fuel
  ensure_registered_iff fuel = (passed fuel, passes fuel)
