-- ===== src/Windows/Keys.antt =====
-- crates/netpland/src/platform/windows/wifi.rs: the security in the document of a Wi-Fi profile, as
-- a reader of XML finds it.
use mathlib.Core.List.{append_assoc}
use netplan.Base.{
  ◌≡◌, refl, ap, ◌∙◌, text_eq, Bool, true, false, all, some, [], ◌∷◌, ◌++◌, Text, codes,
}
use netplan.Windows.Wifi.{xml_escape, open_security, shared_key}
use netplan.Windows.Xml.{Pieces, is_plain, pieces, within, accepted, pieces-xml_escape}
use netplan.Windows.Pieces.{
  protocol_name, key_type_name, auth_encryption, shared_key_of, document_of, before_security,
  pieces-protocol_name, pieces-key_type_name,
}

abbrev pub behind_security : Text
behind_security = codes "</security></MSM></WLANProfile>"

pub pieces-open_security :
    (hidden : Bool) (name ssid mode : Text)
    → accepted (
        pieces
          (within (before_security hidden name ssid mode) (codes "security") [])
          (open_security ++ behind_security))
      ≡ some (document_of hidden name ssid mode (auth_encryption (codes "open") (codes "none")))
unfolding pieces is_plain text_eq
pieces-open_security true name ssid mode = refl
pieces-open_security false name ssid mode = refl

abbrev before_key : (done : Pieces) (authentication key_type : Text) → Pieces
before_key done authentication key_type =
    (codes "/protected", [])
    ∷ (codes "protected", codes "false")
    ∷ (codes "/keyType", [])
    ∷ (codes "keyType", key_type)
    ∷ (codes "sharedKey", [])
    ∷ (codes "/authEncryption", [])
    ∷ (codes "/useOneX", [])
    ∷ (codes "useOneX", codes "false")
    ∷ (codes "/encryption", [])
    ∷ (codes "encryption", codes "AES")
    ∷ (codes "/authentication", [])
    ∷ (codes "authentication", authentication)
    ∷ (codes "authEncryption", [])
    ∷ (codes "security", [])
    ∷ done

abbrev behind_key_type : Text → Text
behind_key_type key = codes "</keyType><protected>false</protected><keyMaterial>" ++ key

abbrev behind_protocol : Text → Text → Text
behind_protocol key_type key =
    codes
      "</authentication><encryption>AES</encryption><useOneX>false</useOneX></authEncryption><sharedKey><keyType>"
    ++ (key_type ++ behind_key_type key)

shared_key-append :
    (authentication key_type secret : Text)
    → shared_key authentication key_type secret ++ behind_security
      ≡ codes "<authEncryption><authentication>"
        ++ (authentication
            ++ behind_protocol key_type
                (xml_escape secret ++ (codes "</keyMaterial></sharedKey>" ++ behind_security)))
shared_key-append authentication key_type secret =
    ap (λ t. codes "<authEncryption><authentication>" ++ t)
      (append_assoc authentication _ behind_security
        ∙ ap
            (λ t.
              authentication
              ++ (codes
                    "</authentication><encryption>AES</encryption><useOneX>false</useOneX></authEncryption><sharedKey><keyType>"
                  ++ t))
            (append_assoc key_type _ behind_security
              ∙ ap (λ t. key_type ++ behind_key_type t)
                  (append_assoc (xml_escape secret) (codes "</keyMaterial></sharedKey>")
                    behind_security)))

pub pieces-shared_key :
    (done : Pieces) (wpa2 raw : Bool) (secret : Text)
    → all is_plain secret ≡ true
    → pieces
        (within done (codes "security") [])
        (shared_key (protocol_name wpa2) (key_type_name raw) secret ++ behind_security)
      ≡ pieces
          (within
            (before_key done (protocol_name wpa2) (key_type_name raw))
            (codes "keyMaterial")
            secret)
          (codes "</keyMaterial></sharedKey></security></MSM></WLANProfile>")
unfolding pieces is_plain
pieces-shared_key done wpa2 raw secret plain =
    let end = codes "</keyMaterial></sharedKey>" ++ behind_security in
    let key = xml_escape secret ++ end in
    ap (pieces (within done (codes "security") []))
      (shared_key-append (protocol_name wpa2) (key_type_name raw) secret)
    ∙ pieces-protocol_name _ (codes "authentication") wpa2 (behind_protocol (key_type_name raw) key)
    ∙ pieces-key_type_name _ (codes "keyType") raw (behind_key_type key)
    ∙ pieces-xml_escape (before_key done (protocol_name wpa2) (key_type_name raw))
        (codes "keyMaterial") [] secret end plain

pub pieces-secured_end :
    (hidden : Bool) (name ssid mode authentication key_type secret : Text)
    → accepted (
        pieces
          (within
            (before_key (before_security hidden name ssid mode) authentication key_type)
            (codes "keyMaterial")
            secret)
          (codes "</keyMaterial></sharedKey></security></MSM></WLANProfile>"))
      ≡ some (
          document_of hidden name ssid mode
            (auth_encryption authentication (codes "AES") ++ shared_key_of key_type secret))
unfolding pieces is_plain text_eq
pieces-secured_end true name ssid mode authentication key_type secret = refl
pieces-secured_end false name ssid mode authentication key_type secret = refl
