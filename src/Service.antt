-- ===== src/Service.antt =====
-- relayer/src/service.ts: what a `RelayerService` holds, and what it asks of the outside.
pub mod Act
pub mod Stub
pub mod Checks
pub mod Estimate
pub mod Bundler
pub mod Prepare
pub mod Sign
pub mod Quote
pub mod Registry
pub mod Start
pub mod Status
use tornado_4337_relayer.Base.{
  ℕ, Bool, Option, none, some, List, ◌==◌, address_key, Result, or_throw,
}
use tornado_4337_relayer.Base.Text.{Text}
use tornado_4337_relayer.Base.Dict
use tornado_4337_relayer.Base.Dict.{Dict}
use tornado_4337_relayer.Errors.{Error, instance_not_served, GasField}
use tornado_4337_relayer.Viem.{Viem, Address, WithdrawArgs}
use tornado_4337_relayer.Store.{Store}
use tornado_4337_relayer.UserOp.{RpcUserOperation}
use tornado_4337_relayer.Validate.{SponsorRules, invalid}

pub record InstanceInfo : Type 0 where
  pub denomination : ℕ
  -- the zero address in an ETH pool
  pub token : Address
  pub decimals : ℕ
  pub symbol : Text

pub data Mode : Type 0 where
  master worker unregistered no_router : Mode

-- The parts of `RelayerConfig`, `PaymasterParams` and `RegistryInfo` that requests read. `instances`
-- is the map that `create` builds, whose keys are `config.instances`; `has_bundler` says that
-- `bundlerUrl` is not empty; `mode` is what the registry said at start-up.
pub record Service : Type 0 where
  pub chain_id : ℕ
  pub has_bundler : Bool
  pub entry_point : Address
  pub paymaster : Address
  pub reward_account : Address
  pub allowed_sender_implementations : List Address
  pub instances : Dict Address InstanceInfo
  pub service_fee_bps : ℕ
  pub signature_ttl_sec : ℕ
  pub min_deposit_wei : Option ℕ
  pub max_sponsorship_gas_wei : Option ℕ
  pub gas_price_margin_bps : ℕ
  pub gas_margin_bps : ℕ
  pub mode : Mode

-- `context.refundTo`, as the JSON of a request may have it: a string, or a value of another type
pub data RefundTo : Type 0 where
  undefined_refund null_refund other_refund : RefundTo
  refund_text : Text → RefundTo

-- ERC-7677 `context`
pub record SponsorContext : Type 0 where
  pub refund_to : RefundTo

-- How `simulateContract` of `simulateRelayWithdraw` ends.
pub data Simulation : Type 0 where
  -- it returns, which the contract never does; it reverts with `SimulationResult(success, …)`; it
  -- throws in some other way
  returned failed : Simulation
  simulation_result : Bool → Simulation

-- A field of the bundler's answer: `number n` is an integer that is not negative.
pub data Quantity : Type 0 where
  missing other : Quantity
  number : ℕ → Quantity
  text : Text → Quantity

-- the `result` of a JSON-RPC body
pub data RpcResult : Type 0 where
  not_an_object : RpcResult
  object : (GasField → Quantity) → RpcResult

-- the body: an `error`, a `result`, or neither (`null` counts as neither)
pub data Body : Type 0 where
  rpc_error : Body
  rpc_result : RpcResult → Body
  neither : Body

pub data Fetched : Type 0 where
  timed_out network_error not_json : Fetched
  http_error : ℕ → Fetched
  body : Body → Fetched

-- the points of `sign` where it waits, in order
pub data Await : Type 0 where
  for_price for_code for_deposit for_registry for_pool for_simulation : Await
  for_sender_code for_bundler for_signature : Await

-- What one request meets outside: the clock, the answers to its reads (`none` is a read that
-- throws), and what the other requests do to the store while it waits.
pub record World : Type 0 where
  pub now : ℕ
  pub now_ms : ℕ
  pub token_per_eth : Address → ℕ → Option ℕ
  pub get_code : Text → Option (Option Text)
  pub deposit_wei : Option ℕ
  pub worker_master : Option Address
  pub is_spent : Address → Text → Option Bool
  pub is_known_root : Address → Text → Option Bool
  pub simulate_relay_withdraw : WithdrawArgs → Simulation
  pub get_sender_code : Text → Option (Option Text)
  pub estimate_user_operation_gas : RpcUserOperation → Option Text → Fetched
  pub sign_message : Text → Option Text
  pub writable : Bool
  pub meanwhile : Await → Store → Store

-- `refunds`: in worker mode the fee goes to the master
abbrev pub refunds : Service → Bool
refunds svc = svc.reward_account == svc.paymaster

-- `rules(sender)`
abbrev pub rules : Service → Text → SponsorRules
rules svc sender = record {
  paymaster = svc.paymaster;
  reward_account = svc.reward_account;
  allowed_instances = Dict.keys svc.instances;
  sender = sender;
}

-- `instance(address)`
unfoldable pub instance_info : Service → Address → Result Error InstanceInfo
instance_info svc address = or_throw (Dict.get svc.instances address) (invalid instance_not_served)
