-- ===== src/Config/Identity.antt =====
-- The settings that the set-up and the service share, and where they were read.
use tornado_4337_relayer.Base.{ℕ, ◌≡◌, Option, none, some, ok}
use tornado_4337_relayer.Base.Text.{Text, codes, text_key}
use tornado_4337_relayer.Viem.{Address}
use tornado_4337_relayer.Config.{Env, Host, env, addr, optional_addr}
use tornado_4337_relayer.Config.Shared.{entry_point_v08, signer_key_from_env, chain_id_from_env}

module _ (host : Host) (process : Env) where
  -- the settings that the set-up and the service share
  pub record Identity (chain_id : ℕ) (entry_point signer : Address)
      (reward_account : Option Address) (key rpc_url : Text) : Type 0 where
    pub key_read : signer_key_from_env host process ≡ ok key
    pub chain_id_read : chain_id_from_env process ≡ ok chain_id
    pub rpc_url_read : env process (codes "RPC_URL") none ≡ ok rpc_url
    pub entry_point_read :
        addr host.viem process (codes "ENTRY_POINT") (some entry_point_v08) ≡ ok entry_point
    pub reward_account_read :
        optional_addr host.viem process (codes "REWARD_ACCOUNT") none ≡ ok reward_account
    pub signer_is : signer ≡ host.account_address key
