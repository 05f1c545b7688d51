-- ===== src/Service/Start.antt =====
-- `create` of relayer/src/service.ts: from a configuration and the chain to a service.
pub mod Pools
pub mod Sound
pub mod Current
pub mod Examples
use tornado_4337_relayer.Base.{
  ℕ, Bool, true, false, not, Option, none, some, List, [], ◌∷◌, ◌==◌, Result, ok, err, ◌>>=◌, ◌>>◌,
  or_throw, throw_if, if◌then◌else◌, address_key,
}
use tornado_4337_relayer.Base.Text.{Text, codes}
use tornado_4337_relayer.Base.Dict
use tornado_4337_relayer.Base.Dict.{Dict}
use tornado_4337_relayer.Errors.{
  Error, failure, thrown, no_implementations, bundler_url_missing, simulation_disabled, wrong_chain,
  wrong_entry_point, wrong_signer, token_unreadable, no_price_source, symbol_unreadable,
  reward_account_needs_router, not_registered, wrong_master,
}
use tornado_4337_relayer.Viem.{Address, zero_address}
use tornado_4337_relayer.UserOp.{or_else}
use tornado_4337_relayer.Service.{
  Service, InstanceInfo, Mode, master, worker, unregistered, no_router,
}
use tornado_4337_relayer.Service.Registry.{RegistryInfo, Dao, probe_registry}

-- The fields of `RelayerConfig` that `create` reads. `signer` is the address of `signerKey`;
-- `simulate_with_bundler` is the field of that name that a caller may still pass.
pub record RelayerConfig : Type 0 where
  pub chain_id : ℕ
  pub has_bundler_url : Bool
  pub simulate_with_bundler : Option Bool
  pub entry_point : Address
  pub paymaster : Address
  pub signer : Address
  pub reward_account : Option Address
  pub allow_unregistered : Bool
  pub allowed_sender_implementations : Option (List Address)
  pub instances : List Address
  pub has_price_source : Bool
  pub service_fee_bps : ℕ
  pub signature_ttl_sec : ℕ
  pub min_deposit_wei : Option ℕ
  pub max_sponsorship_gas_wei : Option ℕ
  pub gas_price_margin_bps : ℕ

-- How a read ends, where `isContractRevert` is asked: with a value, with the contract's own revert,
-- or with a failure of the node or the transport.
pub data Read (A : Type 0) : Type 0 where
  value : A → Read A
  reverted failed : Read A

-- What the chain and the price source answer during the start; `none` is a read that throws.
pub record Chain : Type 0 where
  pub chain_id : Option ℕ
  pub entry_point : Option Address
  pub verifying_signer : Option Address
  pub gas_margin_bps : Option ℕ
  pub post_op_gas_overhead : Option ℕ
  pub router : Option Address
  pub denomination : Address → Option ℕ
  pub token : Address → Read Address
  pub decimals : Address → Option ℕ
  pub symbol : Address → Read Text
  pub token_per_eth : Address → ℕ → Option ℕ
  pub dao : Dao

-- a service, with what it keeps of the registry as start-up saw it
pub record Started : Type 0 where
  pub service : Service
  pub registry : RegistryInfo

-- the three refusals before anything is read
unfoldable pub check_config : RelayerConfig → Result Error (List Address)
check_config cfg = do
  list ← or_throw cfg.allowed_sender_implementations (failure no_implementations)
  throw_if (elim list [ [] ↦ true | _ ∷ _ ↦ false ]) (failure no_implementations)
  throw_if (not cfg.has_bundler_url) (failure bundler_url_missing)
  throw_if (not (or_else cfg.simulate_with_bundler true)) (failure simulation_disabled)
  ok list

-- the reads of the paymaster that do not depend on the pools: its gas margin and its router
check_paymaster_contract : RelayerConfig → Chain → Result Error (ℕ × Address)
check_paymaster_contract cfg chain = do
  chain_id ← or_throw chain.chain_id (failure thrown)
  throw_if (not (chain_id == cfg.chain_id)) (failure (wrong_chain chain_id))
  entry_point ← or_throw chain.entry_point (failure thrown)
  verifying_signer ← or_throw chain.verifying_signer (failure thrown)
  gas_margin_bps ← or_throw chain.gas_margin_bps (failure thrown)
  overhead ← or_throw chain.post_op_gas_overhead (failure thrown)
  router ← or_throw chain.router (failure thrown)
  throw_if (not (entry_point == cfg.entry_point)) (failure (wrong_entry_point entry_point))
  throw_if (not (verifying_signer == cfg.signer)) (failure (wrong_signer verifying_signer))
  ok (gas_margin_bps, router)

-- a revert of `token()` means an ETH pool, and nothing else does
token_of : Address → Read Address → Result Error Address
token_of address (value token) = ok token
token_of address reverted = ok zero_address
token_of address failed = err (failure (token_unreadable address))

symbol_of : Address → Read Text → Result Error Text
symbol_of token (value symbol) = ok symbol
symbol_of token reverted = ok (codes "TOKEN")
symbol_of token failed = err (failure (symbol_unreadable token))

erc20_info : RelayerConfig → Chain → Address → ℕ → Address → Result Error InstanceInfo
unfolding symbol_of
erc20_info cfg chain address denomination token = do
  throw_if (not cfg.has_price_source) (failure (no_price_source address))
  decimals ← or_throw (chain.decimals token) (failure thrown)
  symbol ← symbol_of token (chain.symbol token)
  rate ← or_throw (chain.token_per_eth token decimals) (failure thrown)
  ok (record { denomination = denomination; token = token; decimals = decimals; symbol = symbol })

read_instance : RelayerConfig → Chain → Address → Result Error InstanceInfo
unfolding token_of erc20_info
read_instance cfg chain address = do
  denomination ← or_throw (chain.denomination address) (failure thrown)
  token ← token_of address (chain.token address)
  elim (token == zero_address) [
    | true ↦ ok (record {
      denomination = denomination;
      token = zero_address;
      decimals = 18;
      symbol = codes "ETH";
    })
    | false ↦ erc20_info cfg chain address denomination token
  ]

-- the loop over `config.instances`, which adds to `found`
pub read_instances :
    RelayerConfig
    → Chain
    → List Address
    → Dict Address InstanceInfo
    → Result Error (Dict Address InstanceInfo)
unfolding read_instance
read_instances cfg chain [] found = ok found
read_instances cfg chain (address ∷ rest) found = do
  info ← read_instance cfg chain address
  read_instances cfg chain rest (Dict.set found address info)

-- the branches on `registry.mode`
pub check_mode : RelayerConfig → RegistryInfo → Address → Mode → Result Error (Unit {0})
check_mode cfg registry reward_account no_router =
    throw_if (not (reward_account == cfg.paymaster)) (failure reward_account_needs_router)
check_mode cfg registry reward_account unregistered =
    throw_if (not cfg.allow_unregistered) (failure not_registered)
check_mode cfg registry reward_account master =
    throw_if (not (registry.master_of == reward_account))
      (failure (wrong_master registry.master_of))
check_mode cfg registry reward_account worker =
    throw_if (not (registry.master_of == reward_account))
      (failure (wrong_master registry.master_of))

-- `new RelayerService({ ...config, instances: [...instances.keys()] }, …)`
pub service_of :
    RelayerConfig → List Address → ℕ → Dict Address InstanceInfo → RegistryInfo → Service
service_of cfg list gas_margin_bps instances registry = record {
  chain_id = cfg.chain_id;
  has_bundler = cfg.has_bundler_url;
  entry_point = cfg.entry_point;
  paymaster = cfg.paymaster;
  reward_account = or_else cfg.reward_account cfg.paymaster;
  allowed_sender_implementations = list;
  instances = instances;
  service_fee_bps = cfg.service_fee_bps;
  signature_ttl_sec = cfg.signature_ttl_sec;
  min_deposit_wei = cfg.min_deposit_wei;
  max_sponsorship_gas_wei = cfg.max_sponsorship_gas_wei;
  gas_price_margin_bps = cfg.gas_price_margin_bps;
  gas_margin_bps = gas_margin_bps;
  mode = registry.mode;
}

unfoldable pub create : RelayerConfig → Chain → Result Error Started
unfolding check_config check_paymaster_contract read_instances check_mode service_of
create cfg chain = do
  list ← check_config cfg
  (gas_margin_bps, router) ← check_paymaster_contract cfg chain
  instances ← read_instances cfg chain cfg.instances []
  registry ← probe_registry chain.dao cfg.paymaster router (Dict.keys instances)
  check_mode cfg registry (or_else cfg.reward_account cfg.paymaster) registry.mode
  ok (record {
    service = service_of cfg list gas_margin_bps instances registry;
    registry = registry;
  })
