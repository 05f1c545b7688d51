-- ===== src/Config/Examples.antt =====
-- An environment of a worker on mainnet, partly under the names of the classic relayer.
use tornado_4337_relayer.Base.{
  ℕ, ◌≡◌, ◌↔◌, refl, true, false, ◌==◌, if◌then◌else◌, none, some, [], ◌∷◌, ◌++◌, ok, err,
  replicate, map,
}
use tornado_4337_relayer.Base.Text.{Text, codes, text_eq, text_key}
use tornado_4337_relayer.Base.Trim.{is_space, trim, split_text}
use tornado_4337_relayer.Base.Decimal.{big_int, decimal}
use tornado_4337_relayer.Base.Integer.{pos, negsuc}
use tornado_4337_relayer.Base.Dict
use tornado_4337_relayer.Base.Dict.{Dict}
use tornado_4337_relayer.Viem.Sample.{sample_viem}
use tornado_4337_relayer.Config.Number.{string_to_big_int}
use tornado_4337_relayer.Config.{
  Env, Host, alias_of, filled, alias_value, env_or, env, checked_address, addr, optional_addr,
  natural_of, big_int_env, number_env, flag_env, addresses_of, entries_of, empty_allowlist,
  integer_of, missing_env, simulation_not_optional,
}
use tornado_4337_relayer.Config.Shared.{signer_key_from_env, chain_id_from_env}
use tornado_4337_relayer.Config.Prices.{oneinch, price_source_from_env}
use tornado_4337_relayer.Config.ForService.{
  Settings, simple_7702_account, allowed_sender_implementations_from_env, service_fee_bps_from_env,
  optional_big_int, config_from_env,
}
use tornado_4337_relayer.Config.Chosen.{Chosen, env_iff}
use tornado_4337_relayer.Config.Startable.{Startable, config_from_env-Startable}
use tornado_4337_relayer.Config.Listing.{
  IsPlain, IsSpelled, comma_separated, addresses_of-comma_separated,
}

abbrev pub sample_host : Host
sample_host = record {
  viem = sample_viem;
  account_address = λ key. 8;
  number = big_int;
  percent_bps = λ s. some (pos 40);
}

abbrev pub entries : Dict Text Text
entries =
    (codes "PRIVATE_KEY", codes "0x" ++ replicate 64 b'1')
    ∷ (codes "HTTP_RPC_URL", codes "http://node")
    ∷ (codes "RPC_URL", [])
    ∷ (codes "BUNDLER_URL", codes "http://bundler")
    ∷ (codes "ENTRY_POINT", codes "0x4")
    ∷ (codes "TORNADO_INSTANCES", codes "0x7, 0xb,")
    ∷ (codes "PAYMASTER_ADDRESS", codes "0x5")
    ∷ (codes "REWARD_ACCOUNT", codes "0x6")
    ∷ (codes "TORNADO_ROUTER", codes "0x9")
    ∷ (codes "RELAYER_FEE", codes "0.4")
    ∷ []

unfoldable pub sample_env : Env
unfolding Dict.get text_eq
sample_env = Dict.get entries

integers :
    (string_to_big_int (codes " 12 ") ≡ some (pos 12))
    × (string_to_big_int (codes "0x1F") ≡ some (pos 31))
    × (string_to_big_int (codes "-3") ≡ some (negsuc 2))
    × (string_to_big_int (codes "1.5") ≡ none)
    × (string_to_big_int [] ≡ some (pos 0))
unfolding string_to_big_int trim text_eq
integers = (refl, refl, refl, refl, refl)

from_alias : env sample_env (codes "RPC_URL") none ≡ ok (codes "http://node")
unfolding env env_or filled alias_value alias_of sample_env Dict.get text_eq
from_alias = refl

abbrev pub sample_settings : Settings
sample_settings = record {
  config = record {
    chain_id = 1;
    has_bundler_url = true;
    simulate_with_bundler = none;
    entry_point = 4;
    paymaster = 5;
    signer = 8;
    reward_account = some 6;
    allow_unregistered = false;
    allowed_sender_implementations = some (simple_7702_account ∷ []);
    instances = 7 ∷ (11 ∷ []);
    has_price_source = true;
    service_fee_bps = 40;
    signature_ttl_sec = 300;
    min_deposit_wei = some 0;
    max_sponsorship_gas_wei = none;
    gas_price_margin_bps = 11_000;
  };
  rpc_url = codes "http://node";
  bundler_url = codes "http://bundler";
  signer_key = codes "0x" ++ replicate 64 b'1';
  sponsorship_store = none;
  price_source = some (oneinch (codes "http://node") 0x07d91f5fb9bf7798734c3f606db065549f6893bb);
  bundler_timeout_ms = 20_000;
  sponsor_name = codes "tornado-4337-relayer";
}

pub reads_settings : config_from_env sample_host sample_env 5 ≡ ok sample_settings
unfolding config_from_env signer_key_from_env chain_id_from_env big_int_env number_env flag_env addr
    optional_addr checked_address env env_or filled alias_value alias_of sample_env Dict.get text_eq
    natural_of string_to_big_int integer_of trim split_text entries_of addresses_of
    service_fee_bps_from_env allowed_sender_implementations_from_env price_source_from_env
    optional_big_int big_int
reads_settings = refl

abbrev with : Text → Text → Env
with name value asked = if text_eq name asked then some value else sample_env asked

refusals :
    (config_from_env sample_host (with (codes "ALLOWED_SENDER_IMPLEMENTATIONS") (codes " , ")) 5
      ≡ err empty_allowlist)
    × (config_from_env sample_host (with (codes "SIMULATE_WITH_BUNDLER") (codes "false")) 5
        ≡ err (simulation_not_optional (codes "false")))
    × (config_from_env sample_host (with (codes "PRIVATE_KEY") []) 5
        ≡ err (missing_env (codes "RELAYER_PRIVATE_KEY")))
unfolding config_from_env signer_key_from_env chain_id_from_env big_int_env number_env flag_env addr
    optional_addr checked_address env env_or filled alias_value alias_of sample_env Dict.get text_eq
    natural_of string_to_big_int integer_of trim split_text entries_of addresses_of
    service_fee_bps_from_env allowed_sender_implementations_from_env price_source_from_env
    optional_big_int big_int
refusals = (refl, refl, refl)

env_iff_example :
    (env sample_env (codes "RPC_URL") none ≡ ok (codes "http://node"))
    ↔ Chosen sample_env (codes "RPC_URL") none (codes "http://node")
env_iff_example = env_iff sample_env (codes "RPC_URL") none (codes "http://node")

config_from_env-Startable_example : Startable sample_host sample_env sample_settings
config_from_env-Startable_example =
    config_from_env-Startable sample_host sample_env 5 sample_settings reads_settings

plain : (c : ℕ) → (c == b',') ≡ false → is_space c ≡ false → IsPlain c
plain c comma space = record { no_comma = comma; no_space = space }

five_IsSpelled : IsSpelled sample_viem 5
unfolding is_space decimal
five_IsSpelled = record {
  plain = (plain b'0' refl refl, (plain b'x' refl refl, (plain b'5' refl refl, tt)));
  not_empty = λ no_text. cc;
  is_address = refl;
  read_back = refl;
}

seven_IsSpelled : IsSpelled sample_viem 7
unfolding is_space decimal
seven_IsSpelled = record {
  plain = (plain b'0' refl refl, (plain b'x' refl refl, (plain b'7' refl refl, tt)));
  not_empty = λ no_text. cc;
  is_address = refl;
  read_back = refl;
}

addresses_of-comma_separated_example :
    addresses_of sample_viem
      (codes "TORNADO_INSTANCES")
      (entries_of (comma_separated (map sample_viem.address_text (5 ∷ 7 ∷ []))))
    ≡ ok (5 ∷ 7 ∷ [])
addresses_of-comma_separated_example =
    addresses_of-comma_separated sample_viem (codes "TORNADO_INSTANCES") (5 ∷ 7 ∷ [])
      (five_IsSpelled, (seven_IsSpelled, tt))
