-- ===== src/Config/ForService.antt =====
-- `allowedSenderImplementationsFromEnv` and `configFromEnv`: the service's configuration.
use tornado_4337_relayer.Base.{
  ℕ, true, false, not, ◌&&◌, Option, none, some, List, [], ◌∷◌, Result, ok, err, ◌>>=◌, ◌>>◌,
  throw_if, if◌then◌else◌,
}
use tornado_4337_relayer.Base.Text.{Text, codes, text_eq, text_key}
use tornado_4337_relayer.Viem.{Viem, Address}
use tornado_4337_relayer.UserOp.{truthy}
use tornado_4337_relayer.Service.Start.{RelayerConfig}
use tornado_4337_relayer.Config.{
  Env, Host, ConfigError, empty_allowlist, simulation_not_optional, filled, env, addr,
  optional_addr, integer_of, natural_of, big_int_env, number_env, flag_env, addresses_of,
  entries_of,
}
use tornado_4337_relayer.Config.Shared.{entry_point_v08, signer_key_from_env, chain_id_from_env}
use tornado_4337_relayer.Config.Prices.{PriceSource, price_source_from_env}

abbrev pub simple_7702_account : Address
simple_7702_account = 0xe6cae83bde06e4c305530e199d7217f42808555b

unfoldable pub listed_implementations : Viem → Text → Result ConfigError (List Address)
listed_implementations viem raw = do
  list ← addresses_of viem (codes "ALLOWED_SENDER_IMPLEMENTATIONS") (entries_of raw)
  throw_if (elim list [ [] ↦ true | _ ∷ _ ↦ false ]) empty_allowlist
  ok list

-- Unset is the default; an empty value is not unset here.
unfoldable pub allowed_sender_implementations_from_env :
    Host → Env → Result ConfigError (List Address)
unfolding listed_implementations
allowed_sender_implementations_from_env host process =
    elim (process (codes "ALLOWED_SENDER_IMPLEMENTATIONS")) [
      | none ↦ ok (simple_7702_account ∷ [])
      | some raw ↦ listed_implementations host.viem raw
    ]

-- `SERVICE_FEE_BPS`, or else the percentage in `RELAYER_FEE`, or else 30
unfoldable pub service_fee_bps_from_env : Host → Env → Result ConfigError ℕ
service_fee_bps_from_env host process = elim (filled (process (codes "SERVICE_FEE_BPS"))) [
  | some bps ↦ natural_of bps
  | none ↦ elim (filled (process (codes "RELAYER_FEE"))) [
    | some percent ↦ integer_of percent (host.percent_bps percent)
    | none ↦ ok 30
  ]
]

-- `v ? BigInt(v) : undefined`
unfoldable pub optional_big_int : Option Text → Result ConfigError (Option ℕ)
optional_big_int none = ok none
optional_big_int (some value) = natural_of value >>= (λ n. ok (some n))

-- a value that is neither unset, nor empty, nor `true`
unfoldable pub refused_simulation : Option Text → Option Text
refused_simulation none = none
refused_simulation (some value) =
    if truthy (some value) && not (text_eq value (codes "true")) then some value else none

unfoldable pub check_simulate : Option Text → Result ConfigError (Unit {0})
check_simulate none = ok tt
check_simulate (some value) = err (simulation_not_optional value)

-- `RelayerConfig`, with the fields that are not in the service's start beside it. The store is the
-- file that `FileSponsorshipStore` is opened on.
pub record Settings : Type 0 where
  pub config : RelayerConfig
  pub rpc_url : Text
  pub bundler_url : Text
  pub signer_key : Text
  pub sponsorship_store : Option Text
  pub price_source : Option PriceSource
  pub bundler_timeout_ms : ℕ
  pub sponsor_name : Text

unfoldable pub config_from_env : Host → Env → Address → Result ConfigError Settings
unfolding check_simulate refused_simulation
config_from_env host process paymaster = do
  check_simulate (refused_simulation (process (codes "SIMULATE_WITH_BUNDLER")))
  key ← signer_key_from_env host process
  chain_id ← chain_id_from_env process
  rpc_url ← env process (codes "RPC_URL") none
  service_fee_bps ← service_fee_bps_from_env host process
  bundler_url ← env process (codes "BUNDLER_URL") none
  entry_point ← addr host.viem process (codes "ENTRY_POINT") (some entry_point_v08)
  reward_account ← optional_addr host.viem process (codes "REWARD_ACCOUNT") none
  allow_unregistered ←
      flag_env process (codes "ALLOW_UNREGISTERED") (some (codes "false")) (codes "true")
  list ← allowed_sender_implementations_from_env host process
  pools_text ← env process (codes "TORNADO_INSTANCES") none
  instances ← addresses_of host.viem (codes "TORNADO_INSTANCES") (entries_of pools_text)
  price_source ← price_source_from_env host process rpc_url chain_id
  signature_ttl_sec ← number_env host process (codes "SIGNATURE_TTL_SEC") (some (codes "300"))
  bundler_timeout_ms ← number_env host process (codes "BUNDLER_TIMEOUT_MS") (some (codes "20000"))
  min_deposit_wei ← big_int_env process (codes "MIN_DEPOSIT_WEI") (some (codes "0"))
  max_sponsorship ← optional_big_int (filled (process (codes "MAX_SPONSORSHIP_GAS_WEI")))
  gas_price_margin_bps ← big_int_env process (codes "GAS_PRICE_MARGIN_BPS") (some (codes "11000"))
  sponsor_name ← env process (codes "SPONSOR_NAME") (some (codes "tornado-4337-relayer"))
  ok (record {
    config = record {
      chain_id = chain_id;
      has_bundler_url = truthy (some bundler_url);
      simulate_with_bundler = none;
      entry_point = entry_point;
      paymaster = paymaster;
      signer = host.account_address key;
      reward_account = reward_account;
      allow_unregistered = allow_unregistered;
      allowed_sender_implementations = some list;
      instances = instances;
      has_price_source = elim price_source [ none ↦ false | some _ ↦ true ];
      service_fee_bps = service_fee_bps;
      signature_ttl_sec = signature_ttl_sec;
      min_deposit_wei = some min_deposit_wei;
      max_sponsorship_gas_wei = max_sponsorship;
      gas_price_margin_bps = gas_price_margin_bps;
    };
    rpc_url = rpc_url;
    bundler_url = bundler_url;
    signer_key = key;
    sponsorship_store = filled (process (codes "SPONSORSHIP_STORE"));
    price_source = price_source;
    bundler_timeout_ms = bundler_timeout_ms;
    sponsor_name = sponsor_name;
  })
