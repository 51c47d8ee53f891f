-- ===== src/Tests/Configs.antt =====
-- Accepted and refused configurations.
use netplan.Base.{◌≡◌, ◌≢◌, ◌↔◌, refl, arith, none, some, List, ok, err, Text, codes, ℕ, ◌%◌}
use netplan.Config
use netplan.Config.{InterfaceSelector}
use netplan.Config.Checks.{
  validate_mac, validate_ipv4, validate_selector, compact_mac, is_computer_name, is_workgroup,
  is_dns_label, is_dns_name, validate_identity, validate_optional_secret, validate_psk,
  validate_service_name,
}
use netplan.Config.Protect.{
  canonical_mac, selectors_share_stable_matcher, reject_protected_selector,
}
use netplan.Config.Smb.{
  check_account, find_smb_account, check_share_account, is_absolute_windows_path, check_share,
  is_unc_share, is_drive_letter, validate_smb_account_reference, check_mapping, check_service,
  service_requested_stopped,
}
use netplan.Config.Validate.{
  check_key, check_wifi_name, check_wifi_action, check_hook, check_adapter, check_wifi,
  check_driver, validate,
}
use netplan.Config.Parse.{Decoders, parse, parse_iff, resolve_format}
use netplan.Base.Utf8.{from_utf8}
use netplan.Base.{text_eq}
use netplan.Config.Mac.{IsLocalUnicast, validate_mac_iff, second_digit}
use netplan.Config.Unique.{UniqueNames, validate-UniqueNames}
use netplan.Config.References.{Resolves, validate-Resolves}
use netplan.Tests.{ascii, office}

pub office-accepted : validate ascii office ≡ ok tt
unfolding validate validate_mac validate_ipv4 validate_selector is_computer_name is_workgroup
    is_dns_label is_dns_name validate_identity validate_optional_secret validate_psk
    validate_service_name canonical_mac selectors_share_stable_matcher reject_protected_selector
    check_account find_smb_account check_share_account is_absolute_windows_path check_share
    is_unc_share is_drive_letter validate_smb_account_reference check_mapping check_service
    service_requested_stopped check_key check_wifi_name check_wifi_action check_hook check_adapter
    check_wifi check_driver text_eq
office-accepted = refl

validate-UniqueNames_example : UniqueNames office
validate-UniqueNames_example = validate-UniqueNames ascii office office-accepted

validate-Resolves_example : Resolves office
validate-Resolves_example = validate-Resolves office ascii office-accepted

abbrev local_mac : Text
local_mac = codes "02:aa:22:33:44:55"

abbrev same_mac : Text
same_mac = codes "02-AA-22-33-44-55"

abbrev vendor_mac : Text
vendor_mac = codes "00:15:5d:01:02:03"

local_mac-accepted : validate_mac local_mac ≡ ok tt
unfolding validate_mac
local_mac-accepted = refl

same_mac-accepted : validate_mac same_mac ≡ ok tt
unfolding validate_mac
same_mac-accepted = refl

validate_mac_iff_example : (validate_mac local_mac ≡ ok tt) ↔ IsLocalUnicast (compact_mac local_mac)
validate_mac_iff_example = validate_mac_iff local_mac

abbrev by_vendor_mac : InterfaceSelector
by_vendor_mac = record {
  if_index = none;
  name = none;
  guid = none;
  mac_address = some vendor_mac;
  description_contains = none;
}

vendor-global : second_digit (compact_mac vendor_mac) % 4 ≢ 2
vendor-global h = omega (arith, h)

-- Decoders that know one document.
abbrev pub decoders : Decoders
decoders = record {
  json_from_str = λ text. ok office;
  yaml_from_str = λ text. err (codes "no mapping");
  utf8_error = λ bytes. codes "invalid UTF-8";
}

abbrev pub document : List ℕ
document = codes " {}"

from_utf8-brackets : from_utf8 document ≡ some document
unfolding from_utf8
from_utf8-brackets = refl

pub document-parses : parse decoders ascii document Config.auto ≡ ok office
unfolding resolve_format from_utf8
document-parses =
    (parse_iff decoders ascii document Config.auto office).1 (document, refl, refl, office-accepted)
