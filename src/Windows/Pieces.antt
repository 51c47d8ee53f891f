-- ===== src/Windows/Pieces.antt =====
-- crates/netpland/src/platform/windows/wifi.rs: the pieces that a reader of XML finds in the document
-- of a Wi-Fi profile.
use netplan.Base.{
  ◌≡◌, refl, ◌∙◌, Bool, true, false, all, some, [], ◌∷◌, ◌++◌, Text, codes, if◌then◌else◌,
}
use netplan.Config.{WifiProfile}
use netplan.Windows.Wifi.{xml_escape, profile_name, profile_document}
use netplan.Windows.Xml.{Pieces, prolog, is_plain, pieces, within, pieces-xml_escape}

-- An element with a text, and one with elements, as a reader finds them
abbrev pub leaf : Text → Text → Pieces
leaf name text = (name, text) ∷ (b'/' ∷ name, []) ∷ []

abbrev pub node : (start name : Text) → Pieces → Pieces
node start name inner = (start, []) ∷ (inner ++ (b'/' ∷ name, []) ∷ [])

abbrev pub mode_of : Bool → Text
mode_of auto_connect = if auto_connect then codes "auto" else codes "manual"

abbrev pub protocol_name : Bool → Text
protocol_name wpa2 = if wpa2 then codes "WPA2PSK" else codes "WPA3SAE"

abbrev pub key_type_name : Bool → Text
key_type_name raw = if raw then codes "networkKey" else codes "passPhrase"

abbrev pub auth_encryption : (authentication encryption : Text) → Pieces
auth_encryption authentication encryption = node (codes "authEncryption") (codes "authEncryption") (
    leaf (codes "authentication") authentication
    ++ (leaf (codes "encryption") encryption ++ leaf (codes "useOneX") (codes "false")))

abbrev pub shared_key_of : (key_type secret : Text) → Pieces
shared_key_of key_type secret = node (codes "sharedKey") (codes "sharedKey") (
    leaf (codes "keyType") key_type
    ++ (leaf (codes "protected") (codes "false") ++ leaf (codes "keyMaterial") secret))

abbrev named : Text → Pieces
named ssid = node (codes "SSID") (codes "SSID") (leaf (codes "name") ssid)

abbrev found_ssid : (hidden : Bool) → Text → Pieces
found_ssid hidden ssid =
    node (codes "SSIDConfig") (codes "SSIDConfig")
      (named ssid ++ (if hidden then leaf (codes "nonBroadcast") (codes "true") else []))

-- The document of a profile whose security is found as these pieces
abbrev pub document_of : (hidden : Bool) (name ssid mode : Text) → Pieces → Pieces
document_of hidden name ssid mode security =
    (codes "?xml version=\"1.0\"?", [])
    ∷ node (codes "WLANProfile xmlns=\"https://www.microsoft.com/networking/WLAN/profile/v1\"")
        (codes "WLANProfile")
        (leaf (codes "name") name
          ++ (found_ssid hidden ssid
              ++ (leaf (codes "connectionType") (codes "ESS")
                  ++ (leaf (codes "connectionMode") mode
                      ++ (leaf (codes "autoSwitch") (codes "false")
                          ++ node (codes "MSM") (codes "MSM")
                              (node (codes "security") (codes "security") security))))))

-- What is read up to the mode of connection, the last piece first
abbrev before_ssid : Text → Pieces
before_ssid name =
    (codes "SSID", [])
    ∷ (codes "SSIDConfig", [])
    ∷ (codes "/name", [])
    ∷ (codes "name", name)
    ∷ (codes "WLANProfile xmlns=\"https://www.microsoft.com/networking/WLAN/profile/v1\"", [])
    ∷ (codes "?xml version=\"1.0\"?", [])
    ∷ []

abbrev before_config : (hidden : Bool) (name ssid : Text) → Pieces
before_config hidden name ssid =
    (if hidden then (codes "/nonBroadcast", []) ∷ (codes "nonBroadcast", codes "true") ∷ [] else [])
    ++ ((codes "/SSID", []) ∷ (codes "/name", []) ∷ (codes "name", ssid) ∷ before_ssid name)

abbrev before_mode : Bool → (name ssid : Text) → Pieces
before_mode hidden name ssid =
    (codes "/connectionType", [])
    ∷ (codes "connectionType", codes "ESS")
    ∷ (codes "/SSIDConfig", [])
    ∷ before_config hidden name ssid

-- The document behind the SSID, and behind the mode of connection
abbrev behind_mode : Text → Text
behind_mode security =
    codes "</connectionMode><autoSwitch>false</autoSwitch><MSM><security>"
    ++ (security ++ codes "</security></MSM></WLANProfile>")

abbrev behind_ssid : Bool → Text → Text
behind_ssid hidden rest =
    codes "</name></SSID>"
    ++ ((if hidden then codes "<nonBroadcast>true</nonBroadcast>" else [])
        ++ (codes "</SSIDConfig><connectionType>ESS</connectionType><connectionMode>" ++ rest))

pieces-behind_ssid :
    (hidden : Bool) (name ssid rest : Text)
    → pieces (within (before_ssid name) (codes "name") ssid) (behind_ssid hidden rest)
      ≡ pieces (within (before_mode hidden name ssid) (codes "connectionMode") []) rest
unfolding pieces is_plain
pieces-behind_ssid true name ssid rest = refl
pieces-behind_ssid false name ssid rest = refl

pieces-mode_of :
    (done : Pieces) (tag : Text) (auto_connect : Bool) (rest : Text)
    → pieces (within done tag []) (mode_of auto_connect ++ rest)
      ≡ pieces (within done tag (mode_of auto_connect)) rest
unfolding pieces is_plain
pieces-mode_of done tag true rest = refl
pieces-mode_of done tag false rest = refl

pub pieces-protocol_name :
    (done : Pieces) (tag : Text) (wpa2 : Bool) (rest : Text)
    → pieces (within done tag []) (protocol_name wpa2 ++ rest)
      ≡ pieces (within done tag (protocol_name wpa2)) rest
unfolding pieces is_plain
pieces-protocol_name done tag true rest = refl
pieces-protocol_name done tag false rest = refl

pub pieces-key_type_name :
    (done : Pieces) (tag : Text) (raw : Bool) (rest : Text)
    → pieces (within done tag []) (key_type_name raw ++ rest)
      ≡ pieces (within done tag (key_type_name raw)) rest
unfolding pieces is_plain
pieces-key_type_name done tag true rest = refl
pieces-key_type_name done tag false rest = refl

-- Up to the security
abbrev pub before_security : (hidden : Bool) (name ssid mode : Text) → Pieces
before_security hidden name ssid mode =
    (codes "MSM", [])
    ∷ (codes "/autoSwitch", [])
    ∷ (codes "autoSwitch", codes "false")
    ∷ (codes "/connectionMode", [])
    ∷ (codes "connectionMode", mode)
    ∷ before_mode hidden name ssid

pub pieces-profile_document :
    (declared : WifiProfile) (security : Text)
    → all is_plain (profile_name declared) ≡ true
    → all is_plain declared.ssid ≡ true
    → pieces (some ([], prolog)) (profile_document declared security)
      ≡ pieces
          (within
            (before_security declared.hidden
              (profile_name declared)
              declared.ssid
              (mode_of declared.auto_connect))
            (codes "security")
            [])
          (security ++ codes "</security></MSM></WLANProfile>")
unfolding pieces is_plain
pieces-profile_document declared security plain_name plain_ssid =
    let name = profile_name declared in
    let rest = mode_of declared.auto_connect ++ behind_mode security in
    pieces-xml_escape _ (codes "name") [] name
      (codes "</name><SSIDConfig><SSID><name>"
        ++ (xml_escape declared.ssid ++ behind_ssid declared.hidden rest))
      plain_name
    ∙ pieces-xml_escape (before_ssid name) (codes "name") [] declared.ssid
        (behind_ssid declared.hidden rest) plain_ssid
    ∙ pieces-behind_ssid declared.hidden name declared.ssid rest
    ∙ pieces-mode_of (before_mode declared.hidden name declared.ssid) (codes "connectionMode")
        declared.auto_connect (behind_mode security)
