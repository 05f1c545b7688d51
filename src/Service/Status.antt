-- ===== src/Service/Status.antt =====
-- `status` and `liveState` of relayer/src/service.ts.
pub mod Live
pub mod Prices
pub mod Parts
pub mod Unavailable
pub mod Registered
mod Examples
use tornado_4337_relayer.Base.{
  ℕ, ◌+◌, Bool, true, false, ◌&&◌, Option, none, some, List, [], ◌∷◌, ◌++◌, leb, ◌==◌, ok, err,
  if◌then◌else◌, Result,
}
use tornado_4337_relayer.Base.Text.{Text, text_key}
use tornado_4337_relayer.Base.Dict
use tornado_4337_relayer.Base.Dict.{Dict}
use tornado_4337_relayer.Errors.{Error}
use tornado_4337_relayer.Viem.{Address, zero_address}
use tornado_4337_relayer.UserOp.{or_else, to_lower_case}
use tornado_4337_relayer.Price.{wei_per_token_from}
use tornado_4337_relayer.Store.{
  Store, GasCost, known, unknown, outstanding, committed_gas_cost, prune,
}
use tornado_4337_relayer.Service.{
  Service, InstanceInfo, Mode, master, worker, unregistered, no_router, refunds,
}
use tornado_4337_relayer.Service.Registry.{RegistryInfo, Dao, probe_registry}
use tornado_4337_relayer.Service.Start.{Started}

-- What the chain and the price source answer while the status is made; `none` is a read that
-- throws. `stake_wei` is the `stake` of `getDepositInfo`.
pub record Answers : Type 0 where
  pub block_number : Option ℕ
  pub deposit_wei : Option ℕ
  pub stake_wei : Option ℕ
  pub dao : Dao
  pub token_per_eth : Address → ℕ → Option ℕ
  -- what the requests that run meanwhile do to the store
  pub meanwhile : Store → Store

-- the keys of `unavailable`
pub data Field : Type 0 where
  checked_at_block deposit_wei stake_wei registry committed_wei : Field
  eth_price : Text → Field

pub record LiveState : Type 0 where
  pub block_number : Option ℕ
  pub deposit : Option ℕ
  pub stake : Option ℕ
  pub registry : Option RegistryInfo
  pub registration_current : Bool
  pub committed : GasCost
  pub accepting : Bool
  pub unavailable : List Field

-- `attempt`: a read that throws leaves its field out, and says so
abbrev pub attempt : {A : Type 0} → Field → Option A → List Field
attempt field none = field ∷ []
attempt field (some a) = []

abbrev of_result : {A : Type 0} → Result Error A → Option A
of_result (ok a) = some a
of_result (err e) = none

abbrev pub is_no_router : Mode → Bool
is_no_router no_router = true
is_no_router _ = false

-- the registry as it is now; nothing is read where the start has seen no router
pub registry_now : Started → Answers → Option RegistryInfo
registry_now s now =
    of_result
      (probe_registry now.dao s.service.paymaster s.registry.router (Dict.keys s.service.instances))

abbrev pub registry_read : Started → Answers → Option RegistryInfo × List Field
registry_read s now =
    if is_no_router s.registry.mode
    then (none, [])
    else (registry_now s now, attempt registry (registry_now s now))

abbrev pub committed_field : GasCost → List Field
committed_field (known n) = []
committed_field (unknown count until) = committed_wei ∷ []

-- `deposit !== undefined && committed.known && deposit >= committed.wei + floor`
abbrev pub accepts : Option ℕ → GasCost → ℕ → Bool
accepts none committed floor = false
accepts (some d) (unknown count until) floor = false
accepts (some d) (known wei) floor = leb (wei + floor) d

is_current : Mode → Address → Option RegistryInfo → Bool
is_current no_router reward_account r = true
is_current unregistered reward_account r = true
is_current master reward_account none = false
is_current master reward_account (some r) = r.master_of == reward_account
is_current worker reward_account none = false
is_current worker reward_account (some r) = r.master_of == reward_account

unfoldable pub live_state : Started → Answers → ℕ → Store → LiveState
unfolding is_current registry_now
live_state s now time store =
    let committed = committed_gas_cost (outstanding store time) in
    let (found, missing) = registry_read s now in
    record {
      block_number = now.block_number;
      deposit = now.deposit_wei;
      stake = now.stake_wei;
      registry = found;
      registration_current = is_current s.registry.mode s.service.reward_account found;
      committed = committed;
      accepting = accepts now.deposit_wei committed (or_else s.service.min_deposit_wei 0);
      unavailable =
          attempt checked_at_block now.block_number
          ++ (attempt deposit_wei now.deposit_wei
              ++ (attempt stake_wei now.stake_wei ++ (missing ++ committed_field committed)));
    }

-- `ethPrices`, and what could not be priced
pub record EthPrices : Type 0 where
  pub prices : Dict Text ℕ
  pub failed : List Field

-- one round of the loop: the rate is asked for, and turned round
price_of : Answers → InstanceInfo → Option ℕ
price_of now i = elim (now.token_per_eth i.token i.decimals) [
  | none ↦ none
  | some rate ↦ wei_per_token_from rate i.decimals
]

add_price : Text → Option ℕ → EthPrices → EthPrices
add_price symbol none p = record p { failed = p.failed ++ (eth_price symbol ∷ []) }
add_price symbol (some wei) p = record p { prices = Dict.set p.prices symbol wei }

pub eth_prices : Answers → List InstanceInfo → EthPrices → EthPrices
unfolding price_of add_price
eth_prices now [] p = p
eth_prices now (i ∷ rest) p =
    eth_prices now rest
      (if i.token == zero_address then p else add_price (to_lower_case i.symbol) (price_of now i) p)

abbrev pub committed_wei_of : GasCost → Option ℕ
committed_wei_of (known wei) = some wei
committed_wei_of (unknown count until) = none

abbrev pub option_map : {A B : Type 0} → (A → B) → Option A → Option B
option_map f none = none
option_map f (some a) = some (f a)

-- the answer of `/status`, but for its constants and the list of pools
pub record Status : Type 0 where
  pub reward_account : Address
  pub refunds : Bool
  pub mode : Option Mode
  pub master : Option Address
  pub stake : Option ℕ
  pub min_stake : Option ℕ
  pub burn_per_withdraw : Option (Dict Address ℕ)
  pub mode_at_startup : Mode
  pub master_at_startup : Address
  pub wei : Option ℕ
  pub stake_wei : Option ℕ
  pub min_wei : ℕ
  pub committed_wei : Option ℕ
  pub accepting : Bool
  pub registered : Option Bool
  pub checked_at : ℕ
  pub checked_at_block : Option ℕ
  pub unavailable : List Field
  pub eth_prices : Dict Text ℕ

status_of : Started → Answers → ℕ → LiveState → Status
unfolding eth_prices
status_of s now time live =
    let p =
      eth_prices now (Dict.values s.service.instances) (record { prices = []; failed = [] }) in
    record {
      reward_account = s.service.reward_account;
      refunds = refunds s.service;
      mode = option_map (λ (r : RegistryInfo). r.mode) live.registry;
      master = option_map (λ (r : RegistryInfo). r.master_of) live.registry;
      stake = option_map (λ (r : RegistryInfo). r.stake) live.registry;
      min_stake = option_map (λ (r : RegistryInfo). r.min_stake) live.registry;
      burn_per_withdraw = option_map (λ (r : RegistryInfo). r.burn_per_withdraw) live.registry;
      mode_at_startup = s.registry.mode;
      master_at_startup = s.registry.master_of;
      wei = live.deposit;
      stake_wei = live.stake;
      min_wei = or_else s.service.min_deposit_wei 0;
      committed_wei = committed_wei_of live.committed;
      accepting = live.accepting;
      registered = option_map (λ (r : RegistryInfo). live.registration_current) live.registry;
      checked_at = time;
      checked_at_block = live.block_number;
      unavailable = live.unavailable ++ p.failed;
      eth_prices = p.prices;
    }

-- The answer, and the store, which is pruned first and read again when the chain has answered.
unfoldable pub status : Started → Answers → ℕ → Store → Status × Store
unfolding status_of
status s now time store =
    let after = now.meanwhile (prune store time) in
    (status_of s now time (live_state s now time after), after)
