-- ===== src/Config/ForSetup.antt =====
-- `setupConfigFromEnv`: where and how the paymaster is set up.
use tornado_4337_relayer.Base.{
  true, Option, none, some, [], ◌∷◌, ◌++◌, Result, ok, err, ◌>>=◌, if◌then◌else◌,
}
use tornado_4337_relayer.Base.Text.{Text, codes, text_eq, text_key}
use tornado_4337_relayer.Base.Decimal.{decimal}
use tornado_4337_relayer.Base.Dict
use tornado_4337_relayer.Base.Dict.{Dict}
use tornado_4337_relayer.Viem.{Address}
use tornado_4337_relayer.UserOp.{truthy}
use tornado_4337_relayer.Setup.{PaymasterSetupConfig, PaymasterMode, standalone, mode_7702}
use tornado_4337_relayer.Config.{
  Env, Host, ConfigError, unknown_mode, env, addr, optional_addr, big_int_env, number_env, flag_env,
}
use tornado_4337_relayer.Config.Shared.{entry_point_v08, signer_key_from_env, chain_id_from_env}

-- empty on purpose, as the source says
abbrev pub paymaster_7702_implementations : Dict Text Text
paymaster_7702_implementations = []

abbrev pub tornado_routers : Dict Text Text
tornado_routers =
    (codes "1", codes "0xd90e2f925DA726b50C4Ed8D0Fb90Ad053324F31b")
    ∷ (codes "11155111", codes "0xF2DafFd789ec02211a8f1be1034165cFf759a04D")
    ∷ []

unfoldable pub paymaster_mode_of : Text → Result ConfigError PaymasterMode
paymaster_mode_of mode =
    if text_eq mode (codes "7702")
    then ok mode_7702
    else if text_eq mode (codes "standalone")
    then ok standalone
    else err (unknown_mode mode)

-- `PaymasterSetupConfig`, with the fields that are texts beside it
pub record SetupSettings : Type 0 where
  pub config : PaymasterSetupConfig
  pub rpc_url : Text
  pub signer_key : Text
  pub implementation : Option Address
  pub state_file : Text

unfoldable pub setup_config_from_env : Host → Env → Result ConfigError SetupSettings
unfolding paymaster_mode_of
setup_config_from_env host process = do
  key ← signer_key_from_env host process
  chain_id ← chain_id_from_env process
  mode_text ← env process (codes "PAYMASTER_MODE") (some (codes "standalone"))
  mode ← paymaster_mode_of mode_text
  rpc_url ← env process (codes "RPC_URL") none
  entry_point ← addr host.viem process (codes "ENTRY_POINT") (some entry_point_v08)
  paymaster ← optional_addr host.viem process (codes "PAYMASTER_ADDRESS") none
  implementation ←
      optional_addr host.viem process (codes "PAYMASTER_IMPLEMENTATION")
        (Dict.get paymaster_7702_implementations (decimal chain_id))
  auto_setup ← flag_env process (codes "AUTO_SETUP") (some (codes "true")) (codes "true")
  stake_wei ← big_int_env process (codes "PAYMASTER_STAKE_WEI") (some (codes "100000000000000000"))
  unstake_delay_sec ← number_env host process (codes "UNSTAKE_DELAY_SEC") (some (codes "86400"))
  deposit_wei ← big_int_env process (codes "PAYMASTER_DEPOSIT_WEI") (some (codes "0"))
  router ←
      optional_addr host.viem process (codes "TORNADO_ROUTER")
        (Dict.get tornado_routers (decimal chain_id))
  gas_margin_bps ← big_int_env process (codes "GAS_MARGIN_BPS") (some (codes "1000"))
  post_op_gas_overhead ← big_int_env process (codes "POST_OP_GAS_OVERHEAD") (some (codes "45000"))
  state_file ←
      env process (codes "PAYMASTER_STATE_FILE")
        (some (codes "./.paymaster-" ++ (decimal chain_id ++ codes ".json")))
  reward_account ← optional_addr host.viem process (codes "REWARD_ACCOUNT") none
  wait ← flag_env process (codes "WAIT_FOR_REGISTRATION") (some (codes "true")) (codes "true")
  ok (record {
    config = record {
      chain_id = chain_id;
      entry_point = entry_point;
      signer = host.account_address key;
      mode = mode;
      paymaster = paymaster;
      auto_setup = auto_setup;
      stake_wei = stake_wei;
      unstake_delay_sec = unstake_delay_sec;
      deposit_wei = deposit_wei;
      router = router;
      gas_margin_bps = some gas_margin_bps;
      post_op_gas_overhead = some post_op_gas_overhead;
      has_state_file = truthy (some state_file);
      reward_account = reward_account;
      require_registration = some true;
      wait_for_registration = wait;
    };
    rpc_url = rpc_url;
    signer_key = key;
    implementation = implementation;
    state_file = state_file;
  })
