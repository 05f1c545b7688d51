-- ===== src/Server/Serves.antt =====
-- The paymaster that was set up is the paymaster that is served.
use mathlib.Core.Path.{subst}
use tornado_4337_relayer.Base.{
  ◌+◌, ℕ, ◌≡◌, ◌≢◌, inl, inr, sym, ap, ◌∙◌, Option, some, List, [], Result, ok, err, true,
  ok_injective,
}
use tornado_4337_relayer.Base.Text.{Text}
use tornado_4337_relayer.Base.Step.{act->>=-eq-ok, lift->>=-eq-ok, Step}
use tornado_4337_relayer.Viem.{Address, zero_address}
use tornado_4337_relayer.UserOp.{or_else}
use tornado_4337_relayer.Setup.{SetupError, Node, Machine, on_preflight, on_registration, on_poll}
use tornado_4337_relayer.Setup.Ensure.{ensure_paymaster_setup}
use tornado_4337_relayer.Setup.Ensure.Ready.{Ready, ensure_paymaster_setup-Ready}
use tornado_4337_relayer.Setup.Registered.Settled.{
  without_router, registered_under, expected_master,
}
use tornado_4337_relayer.Service.Start.{Chain, Started, create}
use tornado_4337_relayer.Service.Start.Sound.{
  Sound, create-Sound, same_reward_account, same_paymaster, same_chain_id, service_entry_point,
  same_allowlist,
}
use tornado_4337_relayer.Config.{Env, Host}
use tornado_4337_relayer.Config.Shared.{signer_key_from_env}
use tornado_4337_relayer.Config.Identity.{Identity}
use tornado_4337_relayer.Config.ForSetup.{SetupSettings, setup_config_from_env}
use tornado_4337_relayer.Config.ForService.{Settings, config_from_env}
use tornado_4337_relayer.Config.Read.{SetupRead, setup_config-Read, ServiceRead, config-Read}
use tornado_4337_relayer.Server.{
  ServerError, in_config, in_setup, in_start, rethrow, run_setup, load_env, serve_from, server,
}

module _ (host : Host) (process : Env) (node : Node) (fuel : ℕ) where
  -- The registry answered the account that the service rewards, for a paymaster with a router.
  pub data IsWorker (paymaster reward_account : Address) : Type 0 where
    no_router :
        node.router on_registration paymaster ≡ some zero_address
        → IsWorker paymaster reward_account
    worker_of :
        (router registry : Address) (round : ℕ)
        → node.router on_registration paymaster ≡ some router
        → node.relayer_registry on_registration router ≡ some registry
        → node.workers (on_poll round) registry paymaster ≡ some reward_account
        → IsWorker paymaster reward_account

  pub record Serves (s : Started) : Type 0 where
    pub on_chain : node.chain_id ≡ some s.service.chain_id
    pub entry_point : node.entry_point s.service.paymaster ≡ some s.service.entry_point
    pub key : Text
    pub key_read : signer_key_from_env host process ≡ ok key
    pub signs :
        node.verifying_signer on_preflight s.service.paymaster ≡ some (host.account_address key)
    pub worker : IsWorker s.service.paymaster s.service.reward_account
    pub list : List Address
    pub restricted : list ≢ []
    pub allowlist : s.service.allowed_sender_implementations ≡ list

  rethrow-eq-ok :
      {A E F : Type 0} (f : E → F) (r : Result E A) {a : A} → rethrow f r ≡ ok a → r ≡ ok a
  unfolding rethrow
  rethrow-eq-ok f (ok a) e = cc
  rethrow-eq-ok f (err x) e = cc

  run_setup-eq-ok :
      {A : Type 0} (step : Step Machine SetupError A) (m m' : Machine) {a : A}
      → run_setup step m ≡ (ok a, m')
      → step m ≡ (ok a, m')
  unfolding run_setup rethrow
  run_setup-eq-ok step m m' e = again (step m) e
    where
      again :
          {B : Type 0} (r : Result SetupError B × Machine) {b : B}
          → ◌≡◌ {A = Result ServerError B × Machine} (rethrow in_setup (r.0), r.1) (ok b, m')
          → r ≡ (ok b, m')
      again (ok b, n) e = cc
      again (err x, n) e = cc

  -- Two configurations from one environment name one chain, one EntryPoint, one key and one reward
  -- account.
  module _ {c c' : ℕ} {p p' s s' : Address} {r r' : Option Address} {k k' u u' : Text}
      (a : Identity host process c p s r k u) (b : Identity host process c' p' s' r' k' u') where
    one_chain : c ≡ c'
    one_chain = ok_injective c c' (sym a.chain_id_read ∙ b.chain_id_read)

    one_entry_point : p ≡ p'
    one_entry_point = ok_injective p p' (sym a.entry_point_read ∙ b.entry_point_read)

    one_reward_account : r ≡ r'
    one_reward_account = ok_injective r r' (sym a.reward_account_read ∙ b.reward_account_read)

  registered-IsWorker :
      (t : SetupSettings) (paymaster reward_account : Address)
      → SetupRead host process t
      → Ready t.config node fuel paymaster
      → expected_master t.config node paymaster ≡ reward_account
      → IsWorker paymaster reward_account
  registered-IsWorker t paymaster reward_account (identity, required) ready same =
      elim ready.registered [
        | inl off ↦ cc (ap (λ o. or_else o true) (sym required) ∙ off)
        | inr (without_router none_there) ↦ no_router none_there
        | inr (registered_under router registry r f) ↦
            worker_of router registry (0 + f.rounds) r.has_router r.named (f.found ∙ ap some same)
      ]

  serves :
      (t : SetupSettings) (p : Address) (settings : Settings) (chain : Chain) (s : Started)
      → SetupRead host process t
      → Ready t.config node fuel p
      → ServiceRead host process p settings
      → Sound settings.config chain s
      → Serves s
  serves t p settings chain s read ready r sound =
      let p_is : s.service.paymaster ≡ p =
        same_paymaster settings.config chain s sound ∙ r.paymaster_is in
      let reward_is : expected_master t.config node p ≡ s.service.reward_account =
        ap (λ o. or_else o p) (one_reward_account read.0 r.identity)
        ∙ ap (or_else settings.config.reward_account) (sym r.paymaster_is)
        ∙ sym (same_reward_account settings.config chain s sound) in
      record {
        on_chain =
            ready.compatible.contract.on_chain
            ∙ ap some
                (one_chain read.0 r.identity ∙ sym (same_chain_id settings.config chain s sound));
        entry_point =
            ap node.entry_point p_is
            ∙ ready.compatible.answers.same_entry_point
            ∙ ap some (
                one_entry_point read.0 r.identity
                ∙ sym (service_entry_point settings.config chain s sound));
        key = t.signer_key;
        key_read = read.0.key_read;
        signs =
            ap (node.verifying_signer on_preflight) p_is
            ∙ ready.compatible.answers.same_signer
            ∙ ap some (read.0.signer_is);
        worker =
            subst (λ q. IsWorker q s.service.reward_account) (sym p_is)
              (registered-IsWorker t p s.service.reward_account read ready reward_is);
        list = sound.list;
        restricted = sound.restricted.not_empty;
        allowlist = same_allowlist settings.config chain s sound;
      }

  serve_from-Serves :
      (chain : Chain) (s : Started) (m m' : Machine)
      → serve_from host process node fuel chain m ≡ (ok s, m')
      → Serves s
  unfolding serve_from
  serve_from-Serves chain s m m' e =
      let (t, read, e1) =
        lift->>=-eq-ok (rethrow in_config (setup_config_from_env host process)) _ e in
      let (p, m1, done, e2) =
        act->>=-eq-ok (run_setup (ensure_paymaster_setup t.config node fuel)) _ e1 in
      let (settings, read', e3) =
        lift->>=-eq-ok (rethrow in_config (config_from_env host process p)) _ e2 in
      let started : rethrow in_start (create settings.config chain) ≡ ok s = ap (λ x. x.0) e3 in
      serves t p settings chain s
        (setup_config-Read host process t (rethrow-eq-ok in_config _ read))
        (ensure_paymaster_setup-Ready t.config node fuel p m m1
          (run_setup-eq-ok (ensure_paymaster_setup t.config node fuel) m m1 done))
        (config-Read host process p settings (rethrow-eq-ok in_config _ read'))
        (create-Sound settings.config chain s (rethrow-eq-ok in_start _ started))

-- What the server starts is a service for the very paymaster that the set-up vouched for: that
-- contract is on the chain the service signs for, answers with its EntryPoint and with the address
-- of the configured key, and its registry, if it has a router, named the service's reward account
-- as its master. The allowlist of account implementations has an entry.
pub server-Serves :
    (host : Host) (process : Env) (parsed : Option (List (Text × Text))) (node : Node) (fuel : ℕ)
    (chain : Chain) (s : Started) (m m' : Machine)
    → server host process parsed node fuel chain m ≡ (ok s, m')
    → Serves host (load_env process parsed) node fuel s
unfolding server
server-Serves host process parsed node fuel chain s m m' e =
    serve_from-Serves host (load_env process parsed) node fuel chain s m m' e
