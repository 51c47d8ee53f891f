-- ===== src/Config/Unique.antt =====
-- The names that an accepted configuration declares once, up to the case of ASCII letters.
use netplan.Base.{
  ◌≡◌, arith, false, Option, none, some, List, [], ◌∷◌, All-map, ok, Text, Unicode, All, AllPairs,
  any, any-false, eq_ignore_ascii_case, fail_if-eq-ok, if_some, for_each_after-AllPairs,
}
use netplan.Error.{duplicate_drive}
use netplan.Config.{NetplanConfig, WifiProfile, SmbAccount, SmbShare, SmbMapping, ServiceConfig}
use netplan.Config.Checks.{wifi_profile_name, reject_if}
use netplan.Config.Protect.{both_some}
use netplan.Config.Smb.{check_account, check_share, check_mapping, same_drive, check_service}
use netplan.Config.Validate.{check_wifi_name, validate}
use netplan.Config.Accepted.{validate-Accepted}

-- Two names differ by more than the case of their ASCII letters.
abbrev pub NameApart : Text → Text → Type 0
NameApart a b = eq_ignore_ascii_case a b ≡ false

-- Two mappings do not both ask for one drive letter.
abbrev pub DriveApart : Option Text → Option Text → Type 0
DriveApart a b = both_some eq_ignore_ascii_case a b ≡ false

pub record UniqueNames (config : NetplanConfig) : Type 0 where
  pub wifi_profiles :
      AllPairs (λ a b. NameApart (wifi_profile_name a) (wifi_profile_name b)) config.wifi
  pub account_ids :
      AllPairs (λ (a : SmbAccount) (b : SmbAccount). NameApart a.id b.id) config.smb.accounts
  pub share_names :
      AllPairs (λ (a : SmbShare) (b : SmbShare). NameApart a.name b.name) config.smb.shares
  pub drives :
      AllPairs (λ (a : SmbMapping) (b : SmbMapping). DriveApart a.drive b.drive) config.smb.mappings
  pub service_names :
      AllPairs (λ (a : ServiceConfig) (b : ServiceConfig). NameApart a.name b.name) config.services

wifi-apart :
    (s : List WifiProfile) (x : WifiProfile)
    → check_wifi_name s x ≡ ok tt
    → All (λ o. NameApart (wifi_profile_name o) (wifi_profile_name x)) s
unfolding check_wifi_name
wifi-apart s x h = any-false _ s (fail_if-eq-ok _ _ h)

account-apart :
    (s : List SmbAccount) (x : SmbAccount)
    → check_account s x ≡ ok tt
    → All (λ (o : SmbAccount). NameApart o.id x.id) s
unfolding check_account
account-apart s x h = any-false _ s (ground arith)

share-apart :
    (config : NetplanConfig) (s : List SmbShare) (x : SmbShare)
    → check_share config s x ≡ ok tt
    → All (λ (o : SmbShare). NameApart o.name x.name) s
unfolding check_share
share-apart config s x h = any-false _ s (ground arith)

service-apart :
    (s : List ServiceConfig) (x : ServiceConfig)
    → check_service s x ≡ ok tt
    → All (λ (o : ServiceConfig). NameApart o.name x.name) s
unfolding check_service
service-apart s x h = any-false _ s (ground arith)

drive-apart_from :
    (s : List SmbMapping) (drive : Option Text)
    → if_some (λ d. reject_if (any (same_drive d) s) (duplicate_drive d)) drive ≡ ok tt
    → All (λ (o : SmbMapping). DriveApart o.drive drive) s
drive-apart_from s none h = no_drive s
  where
    no_drive : (xs : List SmbMapping) → All (λ (o : SmbMapping). DriveApart o.drive none) xs
    no_drive [] = tt
    no_drive (o ∷ xs) = (ground arith, no_drive xs)
drive-apart_from s (some d) h =
    All-map _ _ (λ o e. ground arith) s (any-false _ s (fail_if-eq-ok _ _ h))

drive-apart :
    (config : NetplanConfig) (s : List SmbMapping) (x : SmbMapping)
    → check_mapping config s x ≡ ok tt
    → All (λ (o : SmbMapping). DriveApart o.drive x.drive) s
unfolding check_mapping
drive-apart config s x h = drive-apart_from s x.drive (ground arith)

-- When `validate` accepts, Wi-Fi profile names, SMB account identifiers, share names, drive letters
-- and service names are pairwise different, ignoring the case of ASCII letters.
pub validate-UniqueNames :
    (unicode : Unicode) (config : NetplanConfig)
    → validate unicode config ≡ ok tt
    → UniqueNames config
validate-UniqueNames unicode config h =
    let a = validate-Accepted unicode config h in
    record {
      wifi_profiles = for_each_after-AllPairs _ _ wifi-apart config.wifi a.wifi_names_ok;
      account_ids = for_each_after-AllPairs _ _ account-apart config.smb.accounts a.accounts_ok;
      share_names = for_each_after-AllPairs _ _ (share-apart config) config.smb.shares a.shares_ok;
      drives = for_each_after-AllPairs _ _ (drive-apart config) config.smb.mappings a.mappings_ok;
      service_names = for_each_after-AllPairs _ _ service-apart config.services a.services_ok;
    }
