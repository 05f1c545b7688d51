-- ===== src/Service/Start/Examples.antt =====
-- A start of a worker with an ETH pool and a token pool.
use tornado_4337_relayer.Base.{◌≡◌, refl, true, false, none, some, [], ◌∷◌, ok, ◌==◌, if◌then◌else◌}
use tornado_4337_relayer.Base.Text.{codes}
use tornado_4337_relayer.Base.Dict
use tornado_4337_relayer.Store.{new_memory_store}
use tornado_4337_relayer.Service.{worker}
use tornado_4337_relayer.Service.Checks.{assert_registration_current}
use tornado_4337_relayer.Service.Registry.{RegistryInfo, Dao, burns, read_burns, probe_registry}
use tornado_4337_relayer.Service.Sign.Examples.{sample_world}
use tornado_4337_relayer.Service.Start.{RelayerConfig, Chain, reverted, value, Started, create}
use tornado_4337_relayer.Service.Start.Sound.{Sound, create-Sound}
use tornado_4337_relayer.Service.Start.Current.{create-passes_registration}

abbrev pub worker_config : RelayerConfig
worker_config = record {
  chain_id = 1;
  has_bundler_url = true;
  simulate_with_bundler = none;
  entry_point = 4;
  paymaster = 5;
  signer = 8;
  reward_account = some 6;
  allow_unregistered = false;
  allowed_sender_implementations = some (119 ∷ []);
  instances = 7 ∷ (11 ∷ []);
  has_price_source = true;
  service_fee_bps = 10;
  signature_ttl_sec = 600;
  min_deposit_wei = some 5;
  max_sponsorship_gas_wei = none;
  gas_price_margin_bps = 0;
}

abbrev pub dao : Dao
dao = record {
  relayer_registry = λ router. some 10;
  workers = λ registry. some 6;
  relayer_balance = λ registry. some 70;
  min_stake_amount = λ registry. some 50;
  relayer_ens_hash = λ registry. some (codes "0x01");
  fee_manager = λ registry. some 12;
  instance_fee = λ manager pool. some 3;
}

abbrev pub chain : Chain
chain = record {
  chain_id = some 1;
  entry_point = some 4;
  verifying_signer = some 8;
  gas_margin_bps = some 1000;
  post_op_gas_overhead = some 45_000;
  router = some 9;
  denomination = λ a. some 1000;
  token = λ a. if a == 7 then reverted else value 13;
  decimals = λ a. some 6;
  symbol = λ a. value (codes "USDC");
  token_per_eth = λ a decimals. some 2000;
  dao = dao;
}

abbrev pub started : Started
started =
    let registry : RegistryInfo = record {
      mode = worker;
      router = 9;
      relayer_registry = 10;
      master_of = 6;
      stake = 70;
      min_stake = 50;
      ens_hash = codes "0x01";
      burn_per_withdraw = (7, 3) ∷ ((11, 3) ∷ []);
    } in
    record {
      service = record {
        chain_id = 1;
        has_bundler = true;
        entry_point = 4;
        paymaster = 5;
        reward_account = 6;
        allowed_sender_implementations = 119 ∷ [];
        instances =
            (7, record { denomination = 1000; token = 0; decimals = 18; symbol = codes "ETH" })
            ∷ ((11, record { denomination = 1000; token = 13; decimals = 6; symbol = codes "USDC" })
                ∷ []);
        service_fee_bps = 10;
        signature_ttl_sec = 600;
        min_deposit_wei = some 5;
        max_sponsorship_gas_wei = none;
        gas_price_margin_bps = 0;
        gas_margin_bps = 1000;
        mode = worker;
      };
      registry = registry;
    }

pub starts : create worker_config chain ≡ ok started
unfolding create probe_registry burns read_burns Dict.set
starts = refl

create-Sound_example : Sound worker_config chain started
create-Sound_example = create-Sound worker_config chain started starts

create-passes_registration_example :
    (assert_registration_current started.service sample_world new_memory_store).0 ≡ ok tt
create-passes_registration_example =
    create-passes_registration worker_config chain started sample_world new_memory_store starts refl
