-- ===== src/Service/Registry.antt =====
-- `RegistryInfo` and `probeRegistry` of relayer/src/service.ts: how the paymaster is registered.
pub mod Probed
use tornado_4337_relayer.Base.{
  ℕ, Option, none, some, List, [], ◌∷◌, ◌==◌, ◌++◌, replicate, Result, ok, err, ◌>>=◌, or_throw,
  if◌then◌else◌, address_key,
}
use tornado_4337_relayer.Base.Text.{Text, codes}
use tornado_4337_relayer.Base.Dict
use tornado_4337_relayer.Base.Dict.{Dict}
use tornado_4337_relayer.Errors.{Error, failure, thrown}
use tornado_4337_relayer.Viem.{Address, zero_address}
use tornado_4337_relayer.Service.{Mode, master, worker, unregistered, no_router}

pub record RegistryInfo : Type 0 where
  pub mode : Mode
  pub router : Address
  pub relayer_registry : Address
  pub master_of : Address
  pub stake : ℕ
  pub min_stake : ℕ
  pub ens_hash : Text
  pub burn_per_withdraw : Dict Address ℕ

-- What the router, the registry and the fee manager answer about the paymaster; `none` is a read
-- that throws.
pub record Dao : Type 0 where
  pub relayer_registry : Address → Option Address
  pub workers : Address → Option Address
  pub relayer_balance : Address → Option ℕ
  pub min_stake_amount : Address → Option ℕ
  pub relayer_ens_hash : Address → Option Text
  pub fee_manager : Address → Option Address
  pub instance_fee : Address → Address → Option ℕ

-- `none` of `probeRegistry`
abbrev pub without_router : Address → RegistryInfo
without_router router = record {
  mode = no_router;
  router = router;
  relayer_registry = zero_address;
  master_of = zero_address;
  stake = 0;
  min_stake = 0;
  ens_hash = codes "0x" ++ replicate 64 b'0';
  burn_per_withdraw = [];
}

-- the loop over the instances, which adds to `burn`
unfoldable pub read_burns :
    Dao → Address → List Address → Dict Address ℕ → Result Error (Dict Address ℕ)
read_burns dao fee_manager [] burn = ok burn
read_burns dao fee_manager (instance_address ∷ rest) burn = do
  fee ← or_throw (dao.instance_fee fee_manager instance_address) (failure thrown)
  read_burns dao fee_manager rest (Dict.set burn instance_address fee)

unfoldable pub burns : Dao → Address → List Address → Result Error (Dict Address ℕ)
burns dao fee_manager instances =
    if fee_manager == zero_address then ok [] else read_burns dao fee_manager instances []

abbrev pub mode_of : Address → Address → Mode
mode_of paymaster resolved =
    if resolved == zero_address
    then unregistered
    else if resolved == paymaster
    then master
    else worker

probe_routed : Dao → Address → Address → List Address → Result Error RegistryInfo
probe_routed dao paymaster router instances = do
  registry ← or_throw (dao.relayer_registry router) (failure thrown)
  resolved ← or_throw (dao.workers registry) (failure thrown)
  stake ← or_throw (dao.relayer_balance registry) (failure thrown)
  min_stake ← or_throw (dao.min_stake_amount registry) (failure thrown)
  ens_hash ← or_throw (dao.relayer_ens_hash registry) (failure thrown)
  fee_manager ← or_throw (dao.fee_manager registry) (failure thrown)
  burn ← burns dao fee_manager instances
  ok (record {
    mode = mode_of paymaster resolved;
    router = router;
    relayer_registry = registry;
    master_of = resolved;
    stake = stake;
    min_stake = min_stake;
    ens_hash = ens_hash;
    burn_per_withdraw = burn;
  })

unfoldable pub probe_registry : Dao → Address → Address → List Address → Result Error RegistryInfo
unfolding probe_routed
probe_registry dao paymaster router instances =
    if router == zero_address
    then ok (without_router router)
    else probe_routed dao paymaster router instances
