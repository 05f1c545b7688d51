-- ===== src/Service/Status/Examples.antt =====
-- The status of the service of Start/Examples, with the node's deposit and block read and the stake
-- not.
use tornado_4337_relayer.Base.{ℕ, ◌≡◌, ◌↔◌, refl, true, some, none, [], ◌∷◌, ok}
use tornado_4337_relayer.Base.Text.{text_eq}
use tornado_4337_relayer.Base.Dict
use tornado_4337_relayer.Store.{new_memory_store, prune, outstanding, committed_gas_cost}
use tornado_4337_relayer.Price.{wei_per_token_from}
use tornado_4337_relayer.Service.Checks.{covers, assert_registration_current}
use tornado_4337_relayer.Service.Registry.{probe_registry, burns, read_burns}
use tornado_4337_relayer.Service.Sign.Examples.{sample_world}
use tornado_4337_relayer.Service.Start.Examples.{dao, chain, worker_config, started, starts}
use tornado_4337_relayer.Service.{unregistered}
use tornado_4337_relayer.Service.Status.{Answers, stake_wei, live_state, status}
use tornado_4337_relayer.Service.Status.Live.{status-accepting_iff}
use tornado_4337_relayer.Service.Status.Unavailable.{Explained, status-Explained}
use tornado_4337_relayer.Service.Status.Registered.{status-registered_iff}

abbrev answers : Answers
answers = record {
  block_number = some 21;
  deposit_wei = some 100;
  stake_wei = none;
  dao = dao;
  token_per_eth = λ token decimals. some 1_000_000_000_000_000;
  meanwhile = λ s. s;
}

names_stake : (status started answers 1 new_memory_store).0.unavailable ≡ stake_wei ∷ []
unfolding status live_state probe_registry burns read_burns committed_gas_cost outstanding prune
    wei_per_token_from Dict.set text_eq
names_stake = refl

status-accepting_iff_example : ((status started answers 1 new_memory_store).0.accepting ≡ true) ↔ (
    (d : ℕ) × (answers.deposit_wei ≡ some d)
    × (covers started.service d 1 (prune new_memory_store 1) ≡ ok tt))
status-accepting_iff_example = status-accepting_iff started answers 1 new_memory_store

status-Explained_example :
    Explained started answers 1 new_memory_store ((status started answers 1 new_memory_store).0)
status-Explained_example = status-Explained started answers 1 new_memory_store

shows_master : (status started answers 1 new_memory_store).0.master ≡ some 6
unfolding status live_state probe_registry burns read_burns Dict.set
shows_master = refl

shows_registered : (status started answers 1 new_memory_store).0.registered ≡ some true
unfolding status live_state probe_registry burns read_burns Dict.set
shows_registered = refl

status-registered_iff_example :
    ((true ≡ true)
      ↔ ((assert_registration_current started.service sample_world new_memory_store).0 ≡ ok tt))
    × (started.registry.mode ≡ unregistered → true ≡ true)
status-registered_iff_example =
    status-registered_iff worker_config chain started answers 1 new_memory_store new_memory_store
      sample_world true 6 starts shows_registered shows_master refl
