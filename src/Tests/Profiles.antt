-- ===== src/Tests/Profiles.antt =====
-- The document of a Wi-Fi profile whose texts have characters that XML reserves.
use netplan.Base.{◌≡◌, refl, true, none, some, [], ◌∷◌, all, Text, text_eq, codes, ok}
use netplan.Config.{WifiProfile, wpa2_personal, literal}
use netplan.Windows.Calls.{◌>>=◌, or_fail}
use netplan.Windows.Wifi.{
  profile_document, secured, profile_name, profile_xml, resolve_secret, validate_runtime_psk,
}
use netplan.Windows.Xml.{is_plain, pieces, read_xml}
use netplan.Windows.Described.{Describes, profile_xml-Describes}
use netplan.Tests.Machines.{Machine, bench}

abbrev tagged : WifiProfile
tagged = record {
  selector = none;
  name = none;
  ssid = codes "<name>&";
  authentication = wpa2_personal;
  psk = some (literal (codes "pass<&'\"1"));
  auto_connect = true;
  hidden = true;
}

abbrev desk : Machine
desk = record { name = codes "desk"; active = true; clock = 0 }

abbrev written : Text
written = profile_document tagged (secured wpa2_personal (codes "pass<&'\"1"))

tagged-written : profile_xml bench tagged desk ≡ (ok written, desk)
unfolding profile_xml ◌>>=◌ or_fail resolve_secret validate_runtime_psk
tagged-written = refl

plain_name : all is_plain (profile_name tagged) ≡ true
unfolding is_plain profile_name
plain_name = refl

plain_ssid : all is_plain tagged.ssid ≡ true
unfolding is_plain
plain_ssid = refl

profile_xml-Describes_example : Describes bench tagged wpa2_personal written
profile_xml-Describes_example =
    profile_xml-Describes bench tagged plain_name plain_ssid desk desk written tagged-written

-- A document whose elements are not nested is refused, and so is a bare ampersand.
crossed_test : read_xml (codes "<a><b>x</a></b>") ≡ none
unfolding read_xml pieces is_plain text_eq
crossed_test = refl

bare_test : read_xml (codes "<a>x & y</a>") ≡ none
unfolding read_xml pieces is_plain text_eq
bare_test = refl

read_test :
    read_xml (codes "<a b=\"c\">1&lt;2<d> </d></a>")
    ≡ some (
        (codes "a b=\"c\"", codes "1<2")
        ∷ (codes "d", codes " ")
        ∷ (codes "/d", [])
        ∷ (codes "/a", [])
        ∷ [])
unfolding read_xml pieces is_plain text_eq
read_test = refl
