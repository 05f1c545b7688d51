-- ===== src/Server/Examples.antt =====
-- A start in the environment of `Config.Examples`, with the instances in the `.env` file.
use tornado_4337_relayer.Base.{◌≡◌, refl, true, false, none, some, [], ◌∷◌, ◌^◌, ok}
use tornado_4337_relayer.Base.Text.{codes, text_eq, text_key}
use tornado_4337_relayer.Base.Trim.{trim, split_text}
use tornado_4337_relayer.Base.Decimal.{big_int, decimal}
use tornado_4337_relayer.Base.Integer.{pos}
use tornado_4337_relayer.Base.Dict
use tornado_4337_relayer.Setup.{Node, mined, add_stake, Machine, absent, configured_router, send}
use tornado_4337_relayer.Setup.Contract.{ensure_standalone_contract}
use tornado_4337_relayer.Setup.Compatible.{assert_paymaster_compatible}
use tornado_4337_relayer.Setup.Registered.{round, poll, ensure_registered}
use tornado_4337_relayer.Setup.Ensure.{ensure_paymaster_setup}
use tornado_4337_relayer.Service.Registry.{burns, read_burns, probe_registry}
use tornado_4337_relayer.Service.Start.{Started, create}
use tornado_4337_relayer.Service.Start.Examples.{chain, started}
use tornado_4337_relayer.Config.Number.{string_to_big_int}
use tornado_4337_relayer.Config.{
  alias_of, filled, alias_value, env_or, env, checked_address, addr, optional_addr, natural_of,
  big_int_env, number_env, flag_env, addresses_of, entries_of, integer_of,
}
use tornado_4337_relayer.Config.Shared.{signer_key_from_env, chain_id_from_env}
use tornado_4337_relayer.Config.Prices.{price_source_from_env}
use tornado_4337_relayer.Config.ForSetup.{setup_config_from_env}
use tornado_4337_relayer.Config.ForService.{
  simple_7702_account, allowed_sender_implementations_from_env, service_fee_bps_from_env,
  optional_big_int, config_from_env,
}
use tornado_4337_relayer.Config.Examples.{sample_host, sample_env}
use tornado_4337_relayer.Server.{load_env, load_variable, serve_from, server}
use tornado_4337_relayer.Server.Serves.{Serves, server-Serves}

abbrev live_node : Node
live_node = record {
  get_code = λ at a. some (some (codes "0x60"));
  chain_id = some 1;
  paymaster_and_data_length = λ a. some 317;
  entry_point = λ a. some 4;
  verifying_signer = λ at a. some 8;
  router = λ at a. some 9;
  relayer_registry = λ at a. some 10;
  workers = λ at registry a. some 6;
  deposit_info = λ a. some (record { deposit = 20; staked = false; stake = 0 });
  owner = λ a. some 8;
  outcome = λ tx. mined (record { success = true; contract_address = some 5; hash = codes "0xaa" });
  writable = true;
}

abbrev empty_machine : Machine
empty_machine = record { sent = []; file = absent }

abbrev staked : Machine
staked = record { sent = add_stake 5 86_400 (pos (10 ^ 17)) ∷ []; file = absent }

abbrev served : Started
served = record started {
  service = record started.service {
    allowed_sender_implementations = simple_7702_account ∷ [];
    service_fee_bps = 40;
    signature_ttl_sec = 300;
    min_deposit_wei = some 0;
    gas_price_margin_bps = 11_000;
  };
}

serves_sample :
    server sample_host sample_env none live_node 3 chain empty_machine ≡ (ok served, staked)
unfolding server serve_from load_env setup_config_from_env config_from_env signer_key_from_env
    chain_id_from_env big_int_env number_env flag_env addr optional_addr checked_address env env_or
    filled alias_value alias_of sample_env Dict.get text_eq natural_of string_to_big_int integer_of
    trim split_text entries_of addresses_of service_fee_bps_from_env
    allowed_sender_implementations_from_env price_source_from_env optional_big_int big_int decimal
    ensure_paymaster_setup ensure_standalone_contract send configured_router
    assert_paymaster_compatible ensure_registered poll round create probe_registry burns read_burns
    Dict.set
serves_sample = refl

-- a variable that is set, also to nothing, is not taken from the file
loads :
    (load_env sample_env
        (some ((codes "PORT", codes "1") ∷ (codes "RPC_URL", codes "x") ∷ []))
        (codes "PORT")
      ≡ some (codes "1"))
    × (load_env sample_env (some ((codes "RPC_URL", codes "x") ∷ [])) (codes "RPC_URL") ≡ some [])
unfolding load_env load_variable sample_env Dict.get text_eq
loads = (refl, refl)

server-Serves_example : Serves sample_host (load_env sample_env none) live_node 3 served
server-Serves_example =
    server-Serves sample_host sample_env none live_node 3 chain served empty_machine staked
      serves_sample
