-- ===== src/Config/Checks.antt =====
-- The checks of single fields in crates/netplan/src/config.rs.
use netplan.Base.{
  ℕ, ◌+◌, ◌*◌, ◌/◌, ◌%◌, ◌-◌, ◌^◌, Bool, true, false, not, ◌&&◌, ◌||◌, Option, none, some, [], ◌∷◌,
  take, any, all, keep, is_nil, leb, ltb, between, ◌==◌, if◌then◌else◌, Result, ok, err, ◌>>◌,
  fail_if, if_some, for_each, Text, codes, bytes, len, is_ascii_digit, is_ascii_alphanumeric,
  is_ascii_hexdigit, contains, contains_any, starts_with, ends_with, trim, split,
}
use netplan.Error.{
  Error, ValidationError, validation, selector_without_matcher, invalid_mac, mac_not_hexadecimal,
  mac_not_local_unicast, invalid_computer_name, invalid_workgroup, invalid_dns_suffix,
  no_static_address, invalid_host_address, invalid_gateway, invalid_dns_server, invalid_wins_server,
  invalid_psk, invalid_env_name, secret_with_nul, invalid_service_name,
}
use netplan.Config.{
  InterfaceSelector, IdentityConfig, Ipv4Config, dhcp, static, Ipv4Net, IpAddr, v4, v6, WifiProfile,
  SecretRef, env, literal,
}

-- `?` on a check that makes an `Error::Validation`.
abbrev pub reject_if : Bool → ValidationError → Result Error (Unit {0})
reject_if b e = fail_if b (validation e)

abbrev pub is_none {ℓ} : {A : Type ℓ} → Option A → Bool
is_none none = true
is_none (some a) = false

abbrev pub is_none_or {ℓ} : {A : Type ℓ} → (A → Bool) → Option A → Bool
is_none_or p none = true
is_none_or p (some a) = p a

abbrev pub unwrap_or {ℓ} : {A : Type ℓ} → A → Option A → A
unwrap_or d none = d
unwrap_or d (some a) = a

-- `mac.chars().filter(|ch| *ch != ':' && *ch != '-')`
abbrev pub compact_mac : Text → Text
compact_mac mac = keep (λ c. not (c == b':') && not (c == b'-')) mac

abbrev pub hex_value : ℕ → ℕ
hex_value c = if is_ascii_digit c then c - b'0' else if between b'A' b'F' c then c - 55 else c - 87

-- `u8::from_str_radix(text, 16)` on one or two characters: no sign stands among digits that were
-- checked, and two of them do not overflow.
abbrev pub from_str_radix_16 : Text → Option ℕ
from_str_radix_16 [] = none
from_str_radix_16 (a ∷ []) = if is_ascii_hexdigit a then some (hex_value a) else none
from_str_radix_16 (a ∷ b ∷ rest) =
    if is_ascii_hexdigit a && is_ascii_hexdigit b
    then some (16 * hex_value a + hex_value b)
    else none

-- `first_octet & 0b0000_0011 != 0b0000_0010`: the two low bits are the remainder by 4.
abbrev pub check_first_octet : Text → Option ℕ → Result Error (Unit {0})
check_first_octet mac none = err (validation (mac_not_hexadecimal mac))
check_first_octet mac (some octet) = reject_if (not (octet % 4 == 2)) (mac_not_local_unicast mac)

unfoldable pub validate_mac : Text → Result Error (Unit {0})
validate_mac mac = do
  let compact = compact_mac mac
  reject_if (not (len compact == 12) || not (all is_ascii_hexdigit (bytes compact)))
      (invalid_mac mac)
  check_first_octet mac (from_str_radix_16 (take 2 compact))

unfoldable pub validate_selector : InterfaceSelector → Result Error (Unit {0})
validate_selector selector = do
  reject_if
      (is_none selector.if_index
        && is_none_or is_nil selector.name
        && is_none_or is_nil selector.guid
        && is_none_or is_nil selector.mac_address
        && is_none_or is_nil selector.description_contains)
      selector_without_matcher
  if_some validate_mac selector.mac_address

abbrev is_name_byte : ℕ → Bool
is_name_byte byte = is_ascii_alphanumeric byte || byte == b'-'

unfoldable pub is_computer_name : Text → Bool
is_computer_name name =
    not (is_nil name)
    && leb (len name) 15
    && all is_name_byte (bytes name)
    && any (λ byte. not (is_ascii_digit byte)) (bytes name)
    && not (starts_with (b'-' ∷ []) name)
    && not (ends_with (b'-' ∷ []) name)

unfoldable pub is_workgroup : Text → Bool
is_workgroup workgroup =
    not (is_nil workgroup)
    && leb (len workgroup) 15
    && not (contains_any (codes "\\/:*?\"<>|\0") workgroup)

unfoldable pub is_dns_label : Text → Bool
is_dns_label label =
    not (is_nil label)
    && leb (len label) 63
    && all is_name_byte (bytes label)
    && not (starts_with (b'-' ∷ []) label)
    && not (ends_with (b'-' ∷ []) label)

unfoldable pub is_dns_name : Text → Bool
is_dns_name value = not (is_nil value) && leb (len value) 255 && all is_dns_label (split b'.' value)

unfoldable pub validate_identity : IdentityConfig → Result Error (Unit {0})
validate_identity identity = do
  if_some (λ name. reject_if (not (is_computer_name name)) (invalid_computer_name name))
      identity.computer_name
  if_some (λ workgroup. reject_if (not (is_workgroup workgroup)) (invalid_workgroup workgroup))
      identity.workgroup
  if_some (λ suffix. reject_if (not (is_dns_name suffix)) (invalid_dns_suffix suffix))
      identity.dns_suffix

-- `Ipv4Addr::is_unspecified`, `is_multicast`, `is_broadcast` of the standard library.
abbrev pub is_unusable_v4 : ℕ → Bool
is_unusable_v4 a = a == 0 || between 224 239 (a / 2 ^ 24) || a == 2 ^ 32 - 1

-- `IpAddr::is_unspecified`, `is_multicast`: multicast is ff00::/8.
abbrev is_unusable_dns : IpAddr → Bool
is_unusable_dns (v4 a) = a == 0 || between 224 239 (a / 2 ^ 24)
is_unusable_dns (v6 a) = a == 0 || a / 2 ^ 120 == 255

abbrev ip_value : IpAddr → ℕ
ip_value (v4 a) = a
ip_value (v6 a) = a

unfoldable pub validate_ipv4 : Ipv4Config → Result Error (Unit {0})
validate_ipv4 (dhcp dns_from_dhcp) = ok tt
validate_ipv4 (static addresses gateways dns wins) = do
  reject_if (is_nil addresses) no_static_address
  for_each
      (λ (address : Ipv4Net).
        reject_if (is_unusable_v4 address.addr) (invalid_host_address address.addr))
      addresses
  for_each (λ gateway. reject_if (is_unusable_v4 gateway) (invalid_gateway gateway)) gateways
  for_each (λ server. reject_if (is_unusable_dns server) (invalid_dns_server (ip_value server))) dns
  for_each (λ server. reject_if (is_unusable_v4 server) (invalid_wins_server server)) wins

abbrev pub wifi_profile_name : WifiProfile → Text
wifi_profile_name profile = unwrap_or profile.ssid profile.name

unfoldable pub validate_optional_secret : Option SecretRef → Result Error (Unit {0})
validate_optional_secret (some (env name)) =
    reject_if (is_nil (trim name) || contains 0 name) invalid_env_name
validate_optional_secret (some (literal value)) = reject_if (contains 0 value) secret_with_nul
validate_optional_secret none = ok tt

unfoldable pub validate_psk : Text → Result Error (Unit {0})
validate_psk secret =
    reject_if
      (not (between 8 63 (len secret))
        && not (len secret == 64 && all is_ascii_hexdigit (bytes secret)))
      invalid_psk

unfoldable pub validate_service_name : Text → Result Error (Unit {0})
validate_service_name name =
    reject_if (is_nil (trim name) || ltb 256 (len name) || contains_any (codes "\\/\0") name)
      (invalid_service_name name)
