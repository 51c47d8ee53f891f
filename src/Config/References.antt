-- ===== src/Config/References.antt =====
-- What an accepted configuration refers to, it declares.
use netplan.Base.{
  ◌≡◌, refl, arith, Bool, false, true, Option, none, some, List, [], ok, Text, Unicode, All,
  AllPairs, Any, any-true, any-false, eq_ignore_ascii_case, for_each-All_of, for_each_after-All,
  for_each_after-AllPairs,
}
use netplan.Config.{
  NetplanConfig, WifiAction, scan, connect, disconnect, SmbAccount, SmbShare, SmbMapping, local,
}
use netplan.Config.Checks.{wifi_profile_name}
use netplan.Config.Smb.{
  find_smb_account, check_share_account, check_declared, check_share, check_mapping,
  validate_smb_account_reference, is_some,
}
use netplan.Config.Validate.{check_wifi_action, validate}
use netplan.Config.Accepted.{validate-Accepted}

-- A `connect` names the profile of some declared network.
abbrev pub ActionResolves : NetplanConfig → WifiAction → Type 0
ActionResolves config (connect selector profile) =
    Any (λ candidate. eq_ignore_ascii_case (wifi_profile_name candidate) profile ≡ true) config.wifi
ActionResolves config _ = Unit

-- The account that a name finds is declared under that name, and is a local one.
abbrev pub LocalAccount : NetplanConfig → Text → Type 0
LocalAccount config reference =
    (account : SmbAccount) × (find_smb_account config reference ≡ some account)
    × (account.kind ≡ local)

-- The accounts of a share are local ones, each named once.
pub record ShareResolves (config : NetplanConfig) (share : SmbShare) : Type 0 where
  pub declared : All (LocalAccount config) share.accounts
  pub once : AllPairs (λ a b. eq_ignore_ascii_case a b ≡ false) share.accounts

-- A mapping has an account that is declared and no credentials of its own, or no account and a
-- password only with a user name.
abbrev pub Credentials : NetplanConfig → Option Text → Bool → Bool → Type 0
Credentials config (some account) username password =
    (is_some (find_smb_account config account) ≡ true) × (username ≡ false) × (password ≡ false)
Credentials config none true password = Unit
Credentials config none false password = password ≡ false

pub record Resolves (config : NetplanConfig) : Type 0 where
  pub actions : All (ActionResolves config) config.wifi_actions
  pub shares : All (ShareResolves config) config.smb.shares
  pub mappings :
      All
        (λ (m : SmbMapping). Credentials config m.account (is_some m.username) (is_some m.password))
        config.smb.mappings

module _ (config : NetplanConfig) where
  action-Resolves :
      (action : WifiAction) → check_wifi_action config action ≡ ok tt → ActionResolves config action
  unfolding check_wifi_action
  action-Resolves (connect selector profile) h = any-true _ config.wifi (ground arith)
  action-Resolves (scan selector) h = tt
  action-Resolves (disconnect selector) h = tt

  declared-LocalAccount :
      (share : SmbShare) (reference : Text) (found : Option SmbAccount)
      → find_smb_account config reference ≡ found
      → check_declared share reference found ≡ ok tt
      → LocalAccount config reference
  declared-LocalAccount share reference none e h = cc
  declared-LocalAccount share reference (some account) e h = (account, e, ground arith)

  share_account-LocalAccount :
      (share : SmbShare) (s : List Text) (reference : Text)
      → check_share_account config share s reference ≡ ok tt
      → LocalAccount config reference
  unfolding check_share_account
  share_account-LocalAccount share s reference h =
      declared-LocalAccount share reference _ refl (ground arith)

  share_account-once :
      (share : SmbShare) (s : List Text) (reference : Text)
      → check_share_account config share s reference ≡ ok tt
      → All (λ o. eq_ignore_ascii_case o reference ≡ false) s
  unfolding check_share_account
  share_account-once share s reference h = any-false _ s (ground arith)

  share-Resolves :
      (s : List SmbShare) (share : SmbShare)
      → check_share config s share ≡ ok tt
      → ShareResolves config share
  unfolding check_share
  share-Resolves s share h = record {
    declared =
        for_each_after-All _ _ (share_account-LocalAccount share) [] share.accounts (ground arith);
    once = for_each_after-AllPairs _ _ (share_account-once share) share.accounts (ground arith);
  }

  mapping-Credentials :
      (s : List SmbMapping) (m : SmbMapping)
      → check_mapping config s m ≡ ok tt
      → Credentials config m.account (is_some m.username) (is_some m.password)
  unfolding check_mapping validate_smb_account_reference
  mapping-Credentials s m h = ground arith

  -- When `validate` accepts, every Wi-Fi connect names a declared profile, every account of a share
  -- is a declared local account named once, and a mapping either names a declared account and has
  -- no credentials of its own or has a password only beside a user name.
  pub validate-Resolves : (unicode : Unicode) → validate unicode config ≡ ok tt → Resolves config
  validate-Resolves unicode h =
      let a = validate-Accepted unicode config h in
      record {
        actions = for_each-All_of _ _ action-Resolves config.wifi_actions a.wifi_actions_ok;
        shares = for_each_after-All _ _ share-Resolves [] config.smb.shares a.shares_ok;
        mappings = for_each_after-All _ _ mapping-Credentials [] config.smb.mappings a.mappings_ok;
      }
