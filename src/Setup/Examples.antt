-- ===== src/Setup/Examples.antt =====
-- A first start that deploys, funds and waits one round for the registration, and a second one.
use tornado_4337_relayer.Base.{
  ℕ, ◌≡◌, ◌<◌, ◌↔◌, refl, arith, true, false, Option, none, some, [], ◌∷◌, All, ok, if◌then◌else◌,
  ◌==◌,
}
use tornado_4337_relayer.Base.Text.{codes, text_eq}
use tornado_4337_relayer.Base.Integer.{pos}
use tornado_4337_relayer.Viem.{Address}
use tornado_4337_relayer.Setup.{
  PaymasterSetupConfig, standalone, Node, Moment, on_poll, add_stake, deposit, set_router,
  deploy_contract, mined, Machine, absent, holds, configured_router, send,
}
use tornado_4337_relayer.Setup.Contract.{ensure_standalone_contract}
use tornado_4337_relayer.Setup.Contract.Restart.{Usable, restart_redeploys_nothing}
use tornado_4337_relayer.Setup.Compatible.{assert_paymaster_compatible}
use tornado_4337_relayer.Setup.Compatible.Checked.{Compatible, assert_paymaster_compatible_iff}
use tornado_4337_relayer.Setup.Registered.{round, poll, ensure_registered}
use tornado_4337_relayer.Setup.Registered.Settled.{
  Registry, Registered, ensure_registered-settled, ensure_registered_iff,
}
use tornado_4337_relayer.Setup.Kept.{Warranted}
use tornado_4337_relayer.Setup.Once.{InOrder}
use tornado_4337_relayer.Setup.Ensure.{ensure_paymaster_setup}
use tornado_4337_relayer.Setup.Ensure.Warranted.{ensure_paymaster_setup-Warranted}
use tornado_4337_relayer.Setup.Ensure.Ready.{Ready, ensure_paymaster_setup-Ready}

abbrev first_config : PaymasterSetupConfig
first_config = record {
  chain_id = 1;
  entry_point = 4;
  signer = 8;
  mode = standalone;
  paymaster = none;
  auto_setup = true;
  stake_wei = 100;
  unstake_delay_sec = 86_400;
  deposit_wei = 50;
  router = some 9;
  gas_margin_bps = none;
  post_op_gas_overhead = none;
  has_state_file = true;
  reward_account = some 6;
  require_registration = none;
  wait_for_registration = true;
}

-- no one at first, the master from the second round on
abbrev workers_at : Moment → Option Address
workers_at (on_poll n) = if n == 0 then some 0 else some 6
workers_at at = some 0

abbrev first_node : Node
first_node = record {
  get_code = λ at a. some (some (codes "0x60"));
  chain_id = some 1;
  paymaster_and_data_length = λ a. some 317;
  entry_point = λ a. some 4;
  verifying_signer = λ at a. some 8;
  router = λ at a. some 9;
  relayer_registry = λ at a. some 10;
  workers = λ at registry a. workers_at at;
  deposit_info = λ a. some (record { deposit = 20; staked = false; stake = 0 });
  owner = λ a. some 8;
  outcome = λ tx. mined (record { success = true; contract_address = some 5; hash = codes "0xaa" });
  writable = true;
}

abbrev empty_machine : Machine
empty_machine = record { sent = []; file = absent }

abbrev remembering : Machine
remembering = record {
  sent = set_router 5 9 ∷ (deploy_contract 4 8 1000 45_000 ∷ []);
  file = holds (record { paymaster = some 5; deploy_tx = some (codes "0xaa") });
}

abbrev set_up : Machine
set_up = record {
  sent = deposit 5 30 ∷ (add_stake 5 86_400 (pos 100) ∷ remembering.sent);
  file = remembering.file;
}

deploys : ensure_standalone_contract first_config first_node empty_machine ≡ (ok 5, remembering)
unfolding ensure_standalone_contract send configured_router
deploys = refl

sets_up : ensure_paymaster_setup first_config first_node 3 empty_machine ≡ (ok 5, set_up)
unfolding ensure_paymaster_setup ensure_standalone_contract send configured_router
    assert_paymaster_compatible ensure_registered poll round text_eq
sets_up = refl

ensure_paymaster_setup-Warranted_example :
    All
      (Warranted first_config first_node)
      ((ensure_paymaster_setup first_config first_node 3 empty_machine).1).sent
    × InOrder ((ensure_paymaster_setup first_config first_node 3 empty_machine).1).sent
ensure_paymaster_setup-Warranted_example =
    ensure_paymaster_setup-Warranted first_config first_node 3 absent

ensure_paymaster_setup-Ready_example : Ready first_config first_node 3 5
ensure_paymaster_setup-Ready_example =
    ensure_paymaster_setup-Ready first_config first_node 3 5 empty_machine set_up sets_up

restart_redeploys_nothing_example :
    ((ensure_standalone_contract first_config first_node remembering).1 ≡ remembering)
    × (((ensure_standalone_contract first_config first_node remembering).0 ≡ ok 5)
        ↔ Usable first_config first_node 5)
restart_redeploys_nothing_example =
    restart_redeploys_nothing first_config first_node first_node 5 empty_machine remembering refl
      deploys

assert_paymaster_compatible_iff_example :
    (assert_paymaster_compatible first_config first_node 5 ≡ ok tt)
    ↔ Compatible first_config first_node 5
assert_paymaster_compatible_iff_example = assert_paymaster_compatible_iff first_config first_node 5

first_node-Registry : Registry first_config first_node 5 9 10
first_node-Registry = record { has_router = refl; not_zero = omega arith; named = refl }

zero_before : (i : ℕ) → i < 1 → workers_at (on_poll i) ≡ some 0
zero_before i below = ground arith

ensure_registered-settled_example : ensure_registered first_config first_node 3 5 ≡ ok tt
ensure_registered-settled_example =
    ensure_registered-settled first_config first_node 5 3 1 9 10 first_node-Registry refl
      zero_before (λ e. cc) (omega arith)

ensure_registered_iff_example :
    (ensure_registered first_config first_node 3 5 ≡ ok tt) ↔ Registered first_config first_node 5 3
ensure_registered_iff_example = ensure_registered_iff first_config first_node 5 3
