-- ===== src/Windows/Shares.antt =====
-- crates/netpland/src/platform/windows/smb.rs: accounts, shares and mappings of drives, and the
-- undoing of a change to one of them.
use netplan.Base.{
  ℕ, Bool, true, false, if◌then◌else◌, Option, none, some, List, [], ◌∷◌, ◌++◌, is_nil, find, Text,
  codes, eq_ignore_ascii_case, ok, err,
}
use netplan.Config.{
  NetplanConfig, SecretRef, SmbAccount, SmbAccountKind, credential, local, SmbShare, SmbMapping,
}
use netplan.Config.Checks.{unwrap_or}
use netplan.Platform.{PlatformError, PlatformResult, platform_error, invalid_config}
use netplan.Windows.{
  Call, System, ShareSnapshot, Sid, Access, generic_read, generic_all, world,
  builtin_administrators,
}
use netplan.Windows.Calls.{pure, fail, ◌>>=◌, ◌>>◌, lift_result, or_fail}
use netplan.Windows.Wifi.{resolve_secret}

-- `smb::Rollback`
pub data SmbRollback : Type 0 where
  account : (username : Text) → SmbRollback
  share : (name : Text) (previous : Option ShareSnapshot) → SmbRollback
  mapping : (target : Text) → SmbRollback

module _ {S : Type 0} (system : System S) where
  unfoldable pub set_share_snapshot : Text → ShareSnapshot → Call S (Unit {0})
  set_share_snapshot name snapshot = do
    system.net_share_set_snapshot name snapshot
    if is_nil snapshot.security_descriptor
        then pure tt
        else system.set_share_security name snapshot.security_descriptor

  abbrev pub execute_share : Text → Option ShareSnapshot → Call S (Unit {0})
  execute_share name (some snapshot) = set_share_snapshot name snapshot
  execute_share name none = system.delete_share name

  unfoldable pub execute_smb : SmbRollback → Call S (Unit {0})
  execute_smb (account username) = system.delete_account username
  execute_smb (share name previous) = execute_share name previous
  execute_smb (mapping target) = system.cancel_mapping target

  -- `secret.as_ref().map(resolve_secret).transpose()?`
  abbrev pub secret_or_none : Option SecretRef → Call S (Option Text)
  secret_or_none none = pure none
  secret_or_none (some secret) =
      lift_result (resolve_secret system secret) >>= λ value. pure (some value)

  abbrev pub add_account : SmbAccount → Call S (Option SmbRollback)
  add_account declared = do
    password ← secret_or_none declared.password
    system.net_user_add declared.username (unwrap_or [] password)
    pure (some (account declared.username))

  abbrev pub add_missing : SmbAccount → Bool → Call S (Option SmbRollback)
  add_missing declared true = pure none
  add_missing declared false = add_account declared

  abbrev pub apply_account_of : SmbAccount → SmbAccountKind → Call S (Option SmbRollback)
  apply_account_of declared credential = pure none
  apply_account_of declared local =
      system.account_exists declared.username >>= λ exists. add_missing declared exists

  unfoldable pub apply_account : SmbAccount → Call S (Option SmbRollback)
  apply_account declared = apply_account_of declared declared.kind

  abbrev pub account_named : NetplanConfig → Text → Call S SmbAccount
  account_named config reference =
      or_fail
        (platform_error invalid_config
          (codes "unknown SMB account reference " ++ system.debug reference))
        (find (λ (declared : SmbAccount). eq_ignore_ascii_case declared.id reference)
          config.smb.accounts)

  -- The accounts of a share, each with the access that the share grants
  unfoldable pub account_sids : NetplanConfig → Access → List Text → Call S (List (Sid × Access))
  account_sids config access [] = pure []
  account_sids config access (reference ∷ references) = do
    declared ← account_named config reference
    sid ← system.lookup_sid declared.username
    grants ← account_sids config access references
    pure ((sid, access) ∷ grants)

  abbrev pub share_grants : NetplanConfig → Access → List Text → Call S (List (Sid × Access))
  share_grants config access [] = system.well_known_sid world >>= λ sid. pure ((sid, access) ∷ [])
  share_grants config access (reference ∷ references) =
      account_sids config access (reference ∷ references)

  -- `ShareSecurity::new`
  unfoldable pub share_security : NetplanConfig → SmbShare → Call S (List ℕ)
  share_security config declared = do
    grants ←
        share_grants config (if declared.read_only then generic_read else generic_all)
          declared.accounts
    administrators ← system.well_known_sid builtin_administrators
    system.security_descriptor (grants ++ (administrators, generic_all) ∷ [])

  -- The answer when the restoration of the share, attempted at once, ends so
  abbrev unsecured : PlatformError → PlatformResult (Unit {0}) × S → PlatformResult SmbRollback × S
  unsecured error (ok restored, s) =
      (err (record { kind = error.kind; message = error.message; rolled_back = true }), s)
  unsecured error (err restore, s) = (
    err record {
      kind = error.kind;
      message = error.message ++ codes "; immediate share rollback failed: " ++ restore.message;
      rolled_back = false;
    },
    s,
  )

  abbrev secured_share :
      Text → ShareSnapshot → PlatformResult (Unit {0}) × S → PlatformResult SmbRollback × S
  secured_share name snapshot (ok done, s) = (ok (share name (some snapshot)), s)
  secured_share name snapshot (err error, s) = unsecured error (set_share_snapshot name snapshot s)

  abbrev pub change_share : SmbShare → List ℕ → Option ShareSnapshot → Call S SmbRollback
  change_share declared security none = do
    system.net_share_add declared.name declared.path declared.description security
    pure (share declared.name none)
  change_share declared security (some snapshot) = do
    system.net_share_set_info declared.name declared.path declared.description security
    λ s. secured_share declared.name snapshot (system.set_share_security declared.name security s)

  unfoldable pub apply_share : NetplanConfig → SmbShare → Call S SmbRollback
  apply_share config declared = do
    previous ← system.capture_share declared.name
    security ← share_security config declared
    change_share declared security previous

  abbrev pub credentials_of :
      NetplanConfig → SmbMapping → Option Text → Call S (Option Text × Option Text)
  credentials_of config declared (some reference) = do
    found ← account_named config reference
    password ← secret_or_none found.password
    pure (some found.username, password)
  credentials_of config declared none = do
    password ← secret_or_none declared.password
    pure (declared.username, password)

  unfoldable pub mapping_credentials :
      NetplanConfig → SmbMapping → Call S (Option Text × Option Text)
  mapping_credentials config declared = credentials_of config declared declared.account

  abbrev pub add_mapping : NetplanConfig → SmbMapping → Call S (Option SmbRollback)
  add_mapping config declared = do
    credentials ← mapping_credentials config declared
    system.add_connection declared.drive declared.remote credentials.0 credentials.1
    pure (some (mapping (unwrap_or declared.remote declared.drive)))

  abbrev pub map_unless :
      NetplanConfig → SmbMapping → Text → Option Text → Call S (Option SmbRollback)
  map_unless config declared drive none = add_mapping config declared
  map_unless config declared drive (some existing) =
      if eq_ignore_ascii_case existing declared.remote
      then pure none
      else fail (
          platform_error invalid_config (
            codes "SMB local device "
            ++ system.debug drive
            ++ codes " is already mapped to "
            ++ system.debug existing))

  abbrev pub map_drive : NetplanConfig → SmbMapping → Option Text → Call S (Option SmbRollback)
  map_drive config declared none = add_mapping config declared
  map_drive config declared (some drive) =
      system.current_mapping drive >>= λ existing. map_unless config declared drive existing

  unfoldable pub apply_mapping : NetplanConfig → SmbMapping → Call S (Option SmbRollback)
  apply_mapping config declared = map_drive config declared declared.drive
