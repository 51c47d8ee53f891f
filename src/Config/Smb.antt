-- ===== src/Config/Smb.antt =====
-- crates/netplan/src/config.rs: the checks of SMB accounts, shares and mappings, and of services.
use netplan.Base.{
  ℕ, Bool, true, false, not, ◌&&◌, ◌||◌, Option, none, some, List, [], ◌∷◌, any, find, is_nil, ltb,
  ◌==◌, Result, err, ◌>>◌, if_some, for_each_after, Text, codes, bytes, len, text_eq,
  is_ascii_alphabetic, eq_ignore_ascii_case, to_ascii_lowercase, contains, contains_any,
  starts_with, trim, split, drop_while,
}
use netplan.Error.{
  Error, validation, invalid_account_id, invalid_username, invalid_local_username,
  duplicate_account, invalid_share_name, duplicate_share, share_path_not_absolute,
  invalid_share_description, unknown_account, share_account_not_local, duplicate_account_reference,
  mapping_not_unc, invalid_drive_letter, duplicate_drive, account_with_inline_credentials,
  password_without_username, duplicate_service,
}
use netplan.Config.{
  NetplanConfig, SmbAccountKind, credential, local, SmbAccount, SmbShare, SmbMapping, ServiceConfig,
  ServiceState, running, stopped,
}
use netplan.Config.Checks.{reject_if, validate_optional_secret, validate_service_name}

abbrev pub is_some {ℓ} : {A : Type ℓ} → Option A → Bool
is_some none = false
is_some (some a) = true

abbrev pub is_some_and {ℓ} : {A : Type ℓ} → (A → Bool) → Option A → Bool
is_some_and p none = false
is_some_and p (some a) = p a

abbrev pub is_local : SmbAccountKind → Bool
is_local local = true
is_local credential = false

unfoldable pub check_account : List SmbAccount → SmbAccount → Result Error (Unit {0})
check_account before account = do
  reject_if (is_nil (trim account.id) || contains 0 account.id) invalid_account_id
  reject_if (is_nil (trim account.username) || contains 0 account.username)
      (invalid_username account.id)
  reject_if
      (is_local account.kind
        && (ltb 20 (len account.username)
            || contains_any (codes "\\/@[]:;|=+*?<>\",") account.username))
      (invalid_local_username account.id)
  reject_if (any (λ (other : SmbAccount). eq_ignore_ascii_case other.id account.id) before)
      (duplicate_account account.id)
  validate_optional_secret account.password

unfoldable pub find_smb_account : NetplanConfig → Text → Option SmbAccount
find_smb_account config reference =
    find (λ (account : SmbAccount). eq_ignore_ascii_case account.id reference) config.smb.accounts

abbrev pub check_declared : SmbShare → Text → Option SmbAccount → Result Error (Unit {0})
check_declared share account none = err (validation (unknown_account account))
check_declared share account (some declared) =
    reject_if (not (is_local declared.kind)) (share_account_not_local share.name account)

unfoldable pub check_share_account :
    NetplanConfig → SmbShare → List Text → Text → Result Error (Unit {0})
check_share_account config share before account = do
  check_declared share account (find_smb_account config account)
  reject_if (any (λ other. eq_ignore_ascii_case other account) before)
      (duplicate_account_reference share.name account)

abbrev starts_with_drive : List ℕ → Bool
starts_with_drive (a ∷ b ∷ c ∷ rest) =
    is_ascii_alphabetic a && b == b':' && (c == b'\\' || c == b'/')
starts_with_drive _ = false

unfoldable pub is_absolute_windows_path : Text → Bool
is_absolute_windows_path value =
    starts_with_drive (bytes value)
    || starts_with (codes "\\\\?\\") value
    || starts_with (codes "\\\\.\\") value

unfoldable pub check_share : NetplanConfig → List SmbShare → SmbShare → Result Error (Unit {0})
check_share config before share = do
  reject_if
      (is_nil (trim share.name)
        || ltb 80 (len share.name)
        || contains_any (codes "\\/\0") share.name
        || text_eq (to_ascii_lowercase share.name) (codes "pipe")
        || text_eq (to_ascii_lowercase share.name) (codes "mailslot"))
      (invalid_share_name share.name)
  reject_if (any (λ (other : SmbShare). eq_ignore_ascii_case other.name share.name) before)
      (duplicate_share share.name)
  reject_if (not (is_absolute_windows_path share.path) || contains 0 share.path)
      (share_path_not_absolute share.name)
  reject_if
      (is_some_and (λ description. ltb 48 (len description) || contains 0 description)
        share.description)
      (invalid_share_description share.name)
  for_each_after (check_share_account config share) [] share.accounts

abbrev two_parts : List Text → Bool
two_parts (a ∷ b ∷ rest) = not (is_nil a) && not (is_nil b)
two_parts _ = false

unfoldable pub is_unc_share : Text → Bool
is_unc_share path =
    starts_with (codes "\\\\") path && two_parts (split b'\\' (drop_while (λ c. c == b'\\') path))

abbrev is_drive : List ℕ → Bool
is_drive (a ∷ b ∷ []) = is_ascii_alphabetic a && b == b':'
is_drive _ = false

unfoldable pub is_drive_letter : Text → Bool
is_drive_letter value = is_drive (bytes value)

unfoldable pub validate_smb_account_reference : NetplanConfig → Text → Result Error (Unit {0})
validate_smb_account_reference config reference =
    reject_if (not (is_some (find_smb_account config reference))) (unknown_account reference)

abbrev pub same_drive : Text → SmbMapping → Bool
same_drive drive other = is_some_and (λ d. eq_ignore_ascii_case d drive) other.drive

unfoldable pub check_mapping :
    NetplanConfig → List SmbMapping → SmbMapping → Result Error (Unit {0})
check_mapping config before mapping = do
  reject_if (not (is_unc_share mapping.remote) || contains 0 mapping.remote)
      (mapping_not_unc mapping.remote)
  if_some (λ drive. reject_if (not (is_drive_letter drive)) (invalid_drive_letter drive))
      mapping.drive
  if_some (λ drive. reject_if (any (same_drive drive) before) (duplicate_drive drive)) mapping.drive
  if_some
      (λ account. do
        validate_smb_account_reference config account
        reject_if (is_some mapping.username || is_some mapping.password)
            (account_with_inline_credentials mapping.remote))
      mapping.account
  reject_if (is_some mapping.password && not (is_some mapping.username))
      (password_without_username mapping.remote)
  validate_optional_secret mapping.password

unfoldable pub check_service : List ServiceConfig → ServiceConfig → Result Error (Unit {0})
check_service before service = do
  validate_service_name service.name
  reject_if (any (λ (other : ServiceConfig). eq_ignore_ascii_case other.name service.name) before)
      (duplicate_service service.name)

abbrev pub is_stopped : ServiceState → Bool
is_stopped stopped = true
is_stopped running = false

unfoldable pub service_requested_stopped : NetplanConfig → Text → Bool
service_requested_stopped config name =
    any
      (λ (service : ServiceConfig).
        eq_ignore_ascii_case service.name name && is_stopped service.state)
      config.services
