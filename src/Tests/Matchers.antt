-- ===== src/Tests/Matchers.antt =====
-- Two selectors of one interface, by a MAC address written in two ways.
use netplan.Base.{All, ◌≡◌, ◌↔◌, refl, subst, text_eq, true, none, some, ok, Text, codes}
use netplan.Config.{InterfaceSelector}
use netplan.Config.Checks.{validate_mac}
use netplan.Config.Protect.{canonical_mac, selectors_share_stable_matcher}
use netplan.Config.Matchers.{Shares, MacAccepted, selectors_share_stable_matcher_iff}
use netplan.Config.Disjoint.{SharesNone, validate-SharesNone}
use netplan.Config.Protection.{guarded_selectors}
use netplan.Tests.{ascii, office}
use netplan.Tests.Configs.{office-accepted}

abbrev by_mac : (guid mac : Text) → InterfaceSelector
by_mac guid mac = record {
  if_index = none;
  name = none;
  guid = some guid;
  mac_address = some mac;
  description_contains = none;
}

abbrev management : InterfaceSelector
management = by_mac (codes "{A}") (codes "02:11:22:33:44:AF")

abbrev aimed : InterfaceSelector
aimed = by_mac (codes "b") (codes "02-11-22-33-44-af")

mac-accepted : validate_mac (codes "02:11:22:33:44:AF") ≡ ok tt
unfolding validate_mac
mac-accepted = refl

other_mac-accepted : validate_mac (codes "02-11-22-33-44-af") ≡ ok tt
unfolding validate_mac
other_mac-accepted = refl

management-accepted : MacAccepted management
management-accepted mac e =
    let same : codes "02:11:22:33:44:AF" ≡ mac = cc in
    subst (λ m. validate_mac m ≡ ok tt) same mac-accepted

aimed-accepted : MacAccepted aimed
aimed-accepted mac e =
    let same : codes "02-11-22-33-44-af" ≡ mac = cc in
    subst (λ m. validate_mac m ≡ ok tt) same other_mac-accepted

selectors_share_stable_matcher_iff_example :
    (selectors_share_stable_matcher ascii management aimed ≡ true) ↔ Shares management aimed
selectors_share_stable_matcher_iff_example =
    selectors_share_stable_matcher_iff ascii management aimed management-accepted aimed-accepted

shared_test : selectors_share_stable_matcher ascii management aimed ≡ true
unfolding selectors_share_stable_matcher canonical_mac text_eq
shared_test = refl

validate-SharesNone_example : All (SharesNone office) (guarded_selectors office)
validate-SharesNone_example = validate-SharesNone ascii office office-accepted
