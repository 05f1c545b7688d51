-- ===== src/Config/Read.antt =====
-- What has been read when the configurations are returned.
use mathlib.Core.Path.{subst}
use tornado_4337_relayer.Base.{
  ◌≡◌, refl, true, Option, none, some, List, ◌++◌, ok, >>=-eq-ok, ok_injective,
}
use tornado_4337_relayer.Base.Text.{Text, codes, text_key}
use tornado_4337_relayer.Base.Decimal.{decimal}
use tornado_4337_relayer.Base.Dict
use tornado_4337_relayer.Viem.{Address}
use tornado_4337_relayer.UserOp.{truthy}
use tornado_4337_relayer.Config.{
  Env, Host, env, addr, optional_addr, number_env, big_int_env, flag_env, addresses_of, entries_of,
  filled,
}
use tornado_4337_relayer.Config.Shared.{entry_point_v08, signer_key_from_env, chain_id_from_env}
use tornado_4337_relayer.Config.Prices.{price_source_from_env}
use tornado_4337_relayer.Config.ForSetup.{
  SetupSettings, paymaster_mode_of, paymaster_7702_implementations, tornado_routers,
  setup_config_from_env,
}
use tornado_4337_relayer.Config.ForService.{
  Settings, check_simulate, refused_simulation, service_fee_bps_from_env,
  allowed_sender_implementations_from_env, optional_big_int, config_from_env,
}
use tornado_4337_relayer.Config.Identity.{Identity}

module _ (host : Host) (process : Env) where
  abbrev pub SetupRead : SetupSettings → Type 0
  SetupRead t =
      Identity host process t.config.chain_id t.config.entry_point t.config.signer
        t.config.reward_account t.signer_key t.rpc_url
      × (t.config.require_registration ≡ some true)

  pub setup_config-Read :
      (t : SetupSettings) → setup_config_from_env host process ≡ ok t → SetupRead t
  unfolding setup_config_from_env
  setup_config-Read t e =
      let (key, key_read, e1) = >>=-eq-ok (signer_key_from_env host process) _ e in
      let (chain_id, chain_id_read, e2) = >>=-eq-ok (chain_id_from_env process) _ e1 in
      let (mode_text, m0, e3) =
        >>=-eq-ok (env process (codes "PAYMASTER_MODE") (some (codes "standalone"))) _ e2 in
      let (mode, m1, e4) = >>=-eq-ok (paymaster_mode_of mode_text) _ e3 in
      let (rpc_url, rpc_url_read, e5) = >>=-eq-ok (env process (codes "RPC_URL") none) _ e4 in
      let (entry_point, entry_point_read, e6) =
        >>=-eq-ok (addr host.viem process (codes "ENTRY_POINT") (some entry_point_v08)) _ e5 in
      let (a0, r0, e7) =
        >>=-eq-ok (optional_addr host.viem process (codes "PAYMASTER_ADDRESS") none) _ e6 in
      let (a1, r1, e8) =
        >>=-eq-ok
          (optional_addr host.viem process (codes "PAYMASTER_IMPLEMENTATION")
            (Dict.get paymaster_7702_implementations (decimal chain_id)))
          _ e7 in
      let (a2, r2, e9) =
        >>=-eq-ok (flag_env process (codes "AUTO_SETUP") (some (codes "true")) (codes "true")) _
          e8 in
      let (a3, r3, e10) =
        >>=-eq-ok
          (big_int_env process (codes "PAYMASTER_STAKE_WEI") (some (codes "100000000000000000"))) _
          e9 in
      let (a4, r4, e11) =
        >>=-eq-ok (number_env host process (codes "UNSTAKE_DELAY_SEC") (some (codes "86400"))) _
          e10 in
      let (a5, r5, e12) =
        >>=-eq-ok (big_int_env process (codes "PAYMASTER_DEPOSIT_WEI") (some (codes "0"))) _ e11 in
      let (a6, r6, e13) =
        >>=-eq-ok
          (optional_addr host.viem process (codes "TORNADO_ROUTER")
            (Dict.get tornado_routers (decimal chain_id)))
          _ e12 in
      let (a7, r7, e14) =
        >>=-eq-ok (big_int_env process (codes "GAS_MARGIN_BPS") (some (codes "1000"))) _ e13 in
      let (a8, r8, e15) =
        >>=-eq-ok (big_int_env process (codes "POST_OP_GAS_OVERHEAD") (some (codes "45000"))) _
          e14 in
      let (a9, r9, e16) =
        >>=-eq-ok
          (env process (codes "PAYMASTER_STATE_FILE")
            (some (codes "./.paymaster-" ++ (decimal chain_id ++ codes ".json"))))
          _ e15 in
      let (reward_account, reward_account_read, e17) =
        >>=-eq-ok (optional_addr host.viem process (codes "REWARD_ACCOUNT") none) _ e16 in
      let (a10, r10, e18) =
        >>=-eq-ok
          (flag_env process (codes "WAIT_FOR_REGISTRATION") (some (codes "true")) (codes "true")) _
          e17 in
      subst SetupRead (ok_injective _ t e18) (
        record {
          key_read = key_read;
          chain_id_read = chain_id_read;
          rpc_url_read = rpc_url_read;
          entry_point_read = entry_point_read;
          reward_account_read = reward_account_read;
          signer_is = refl;
        },
        refl,
      )

  pub record ServiceRead (paymaster : Address) (s : Settings) : Type 0 where
    pub identity :
        Identity host process s.config.chain_id s.config.entry_point s.config.signer
          s.config.reward_account s.signer_key s.rpc_url
    pub paymaster_is : s.config.paymaster ≡ paymaster
    pub simulate_read : refused_simulation (process (codes "SIMULATE_WITH_BUNDLER")) ≡ none
    pub simulates : s.config.simulate_with_bundler ≡ none
    pub bundler_read : env process (codes "BUNDLER_URL") none ≡ ok s.bundler_url
    pub bundler_is : s.config.has_bundler_url ≡ truthy (some s.bundler_url)
    pub fee_read : service_fee_bps_from_env host process ≡ ok s.config.service_fee_bps
    pub list : List Address
    pub list_read : allowed_sender_implementations_from_env host process ≡ ok list
    pub list_is : s.config.allowed_sender_implementations ≡ some list
    pub pools : Text
    pub pools_read : env process (codes "TORNADO_INSTANCES") none ≡ ok pools
    pub instances_read :
        addresses_of host.viem (codes "TORNADO_INSTANCES") (entries_of pools)
        ≡ ok s.config.instances
    pub price_read :
        price_source_from_env host process s.rpc_url s.config.chain_id ≡ ok s.price_source

  check_simulate-none : (o : Option Text) → check_simulate o ≡ ok tt → o ≡ none
  unfolding check_simulate
  check_simulate-none none e = refl
  check_simulate-none (some value) e = cc

  pub config-Read :
      (paymaster : Address) (s : Settings)
      → config_from_env host process paymaster ≡ ok s
      → ServiceRead paymaster s
  unfolding config_from_env
  config-Read paymaster s e =
      let (u, simulate, e1) =
        >>=-eq-ok (check_simulate (refused_simulation (process (codes "SIMULATE_WITH_BUNDLER")))) _
          e in
      let (key, key_read, e2) = >>=-eq-ok (signer_key_from_env host process) _ e1 in
      let (chain_id, chain_id_read, e3) = >>=-eq-ok (chain_id_from_env process) _ e2 in
      let (rpc_url, rpc_url_read, e4) = >>=-eq-ok (env process (codes "RPC_URL") none) _ e3 in
      let (fee, fee_read, e5) = >>=-eq-ok (service_fee_bps_from_env host process) _ e4 in
      let (bundler, bundler_read, e6) = >>=-eq-ok (env process (codes "BUNDLER_URL") none) _ e5 in
      let (entry_point, entry_point_read, e7) =
        >>=-eq-ok (addr host.viem process (codes "ENTRY_POINT") (some entry_point_v08)) _ e6 in
      let (reward_account, reward_account_read, e8) =
        >>=-eq-ok (optional_addr host.viem process (codes "REWARD_ACCOUNT") none) _ e7 in
      let (a0, r0, e9) =
        >>=-eq-ok
          (flag_env process (codes "ALLOW_UNREGISTERED") (some (codes "false")) (codes "true")) _
          e8 in
      let (list, list_read, e10) =
        >>=-eq-ok (allowed_sender_implementations_from_env host process) _ e9 in
      let (pools, pools_read, e11) =
        >>=-eq-ok (env process (codes "TORNADO_INSTANCES") none) _ e10 in
      let (instances, instances_read, e12) =
        >>=-eq-ok (addresses_of host.viem (codes "TORNADO_INSTANCES") (entries_of pools)) _ e11 in
      let (price, price_read, e13) =
        >>=-eq-ok (price_source_from_env host process rpc_url chain_id) _ e12 in
      let (a1, r1, e14) =
        >>=-eq-ok (number_env host process (codes "SIGNATURE_TTL_SEC") (some (codes "300"))) _
          e13 in
      let (a2, r2, e15) =
        >>=-eq-ok (number_env host process (codes "BUNDLER_TIMEOUT_MS") (some (codes "20000"))) _
          e14 in
      let (a3, r3, e16) =
        >>=-eq-ok (big_int_env process (codes "MIN_DEPOSIT_WEI") (some (codes "0"))) _ e15 in
      let (a4, r4, e17) =
        >>=-eq-ok (optional_big_int (filled (process (codes "MAX_SPONSORSHIP_GAS_WEI")))) _ e16 in
      let (a5, r5, e18) =
        >>=-eq-ok (big_int_env process (codes "GAS_PRICE_MARGIN_BPS") (some (codes "11000"))) _
          e17 in
      let (a6, r6, e19) =
        >>=-eq-ok (env process (codes "SPONSOR_NAME") (some (codes "tornado-4337-relayer"))) _
          e18 in
      subst (ServiceRead paymaster) (ok_injective _ s e19) (record {
        identity = record {
          key_read = key_read;
          chain_id_read = chain_id_read;
          rpc_url_read = rpc_url_read;
          entry_point_read = entry_point_read;
          reward_account_read = reward_account_read;
          signer_is = refl;
        };
        paymaster_is = refl;
        simulate_read = check_simulate-none _ simulate;
        simulates = refl;
        bundler_read = bundler_read;
        bundler_is = refl;
        fee_read = fee_read;
        list = list;
        list_read = list_read;
        list_is = refl;
        pools = pools;
        pools_read = pools_read;
        instances_read = instances_read;
        price_read = price_read;
      })
