-- ===== src/Windows/Described.antt =====
-- crates/netpland/src/platform/windows/wifi.rs: what a reader of XML finds in the document of a
-- Wi-Fi profile.
use netplan.Base.{
  ℕ, ◌<◌, ◌≡◌, refl, sym, ap, ◌∙◌, subst, inl, inr, arith, between, Bool, true, ◌&&◌, Bool-cases,
  and-true, all, some, List, [], ◌∷◌, ◌++◌, Text, bytes, bytes-of_ascii, is_ascii_hexdigit, codes,
  ok,
}
use netplan.Config.{
  WifiAuthentication, open_network, wpa2_personal, wpa3_personal, SecretRef, WifiProfile,
}
use netplan.Windows.{System}
use netplan.Windows.Calls.{bind-ok, or_fail-ok, ok-pair, pure, ◌>>=◌}
use netplan.Windows.Wifi.{
  is_wpa2, is_raw_key, profile_name, open_security, shared_key, secured, profile_document,
  resolve_secret, validate_runtime_psk, secured_xml, security_xml, profile_xml,
}
use netplan.Windows.Xml.{Pieces, is_plain, accepted, read_xml}
use netplan.Windows.Pieces.{
  mode_of, protocol_name, key_type_name, auth_encryption, shared_key_of, document_of,
  before_security, pieces-profile_document,
}
use netplan.Windows.Keys.{pieces-open_security, pieces-shared_key, pieces-secured_end}

all-plain :
    (p : ℕ → Bool) (plain : (c : ℕ) → p c ≡ true → is_plain c ≡ true) (s : List ℕ)
    → all p s ≡ true
    → all is_plain s ≡ true
all-plain p plain [] h = refl
all-plain p plain (c ∷ s) h =
    let (now, later) = and-true (p c) (all p s) h in
    rw (plain c now, all-plain p plain s later) refl

printable-plain : (c : ℕ) → between 32 126 c ≡ true → is_plain c ≡ true
unfolding is_plain
printable-plain c h = ground arith

hexdigit-plain : (c : ℕ) → is_ascii_hexdigit c ≡ true → is_plain c ≡ true
unfolding is_plain
hexdigit-plain c h = ground arith

bytes-plain :
    (p : ℕ → Bool) (ascii : (b : ℕ) → p b ≡ true → b < 128)
    (plain : (c : ℕ) → p c ≡ true → is_plain c ≡ true) (secret : Text)
    → all p (bytes secret) ≡ true
    → all is_plain secret ≡ true
bytes-plain p ascii plain secret h =
    all-plain p plain secret (subst (λ s. all p s ≡ true) (bytes-of_ascii p ascii secret h) h)

-- A secret that the daemon accepts has only characters that stand in XML as they are.
secret-plain :
    (secret : Text) (authentication : WifiAuthentication)
    → validate_runtime_psk secret authentication ≡ ok tt
    → all is_plain secret ≡ true
unfolding validate_runtime_psk
secret-plain secret authentication h = elim (Bool-cases (all (between 32 126) (bytes secret))) [
  | inl e ↦ bytes-plain (between 32 126) (λ b at. ground arith) printable-plain secret e
  | inr e ↦ elim (Bool-cases (all is_ascii_hexdigit (bytes secret))) [
    | inl f ↦ bytes-plain is_ascii_hexdigit (λ b at. ground arith) hexdigit-plain secret f
    | inr f ↦ absurd (ground arith)
  ]
]

module _ (declared : WifiProfile) where
  -- The document's pieces, the texts of the profile among them as they are
  abbrev pub document : Pieces → Pieces
  document security =
      document_of declared.hidden (profile_name declared) declared.ssid
        (mode_of declared.auto_connect) security

  module _ (plain_name : all is_plain (profile_name declared) ≡ true)
      (plain_ssid : all is_plain declared.ssid ≡ true) where
    read_xml-open :
        read_xml (profile_document declared open_security)
        ≡ some (document (auth_encryption (codes "open") (codes "none")))
    unfolding read_xml
    read_xml-open =
        ap accepted (pieces-profile_document declared open_security plain_name plain_ssid)
        ∙ pieces-open_security declared.hidden (profile_name declared) declared.ssid
            (mode_of declared.auto_connect)

    read_xml-shared_key :
        (wpa2 raw : Bool) (secret : Text)
        → all is_plain secret ≡ true
        → read_xml
            (profile_document declared (shared_key (protocol_name wpa2) (key_type_name raw) secret))
          ≡ some (
              document (
                auth_encryption (protocol_name wpa2) (codes "AES")
                ++ shared_key_of (key_type_name raw) secret))
    unfolding read_xml
    read_xml-shared_key wpa2 raw secret plain =
        let security = shared_key (protocol_name wpa2) (key_type_name raw) secret in
        let done =
          before_security declared.hidden (profile_name declared) declared.ssid
            (mode_of declared.auto_connect) in
        ap accepted (
          pieces-profile_document declared security plain_name plain_ssid
          ∙ pieces-shared_key done wpa2 raw secret plain)
        ∙ pieces-secured_end declared.hidden (profile_name declared) declared.ssid
            (mode_of declared.auto_connect) (protocol_name wpa2) (key_type_name raw) secret

module _ {S : Type 0} (system : System S) (declared : WifiProfile) where
  -- A key as the document names it: only a raw key of WPA2 is a network key.
  abbrev pub key_type_of : WifiAuthentication → Text → Text
  key_type_of authentication secret = key_type_name (is_wpa2 authentication && is_raw_key secret)

  abbrev pub SecuredAs : WifiAuthentication → Text → Type 0
  SecuredAs authentication xml =
      (reference : SecretRef) × (declared.psk ≡ some reference)
      × (secret : Text) × (resolve_secret system reference ≡ ok secret)
      × (read_xml xml
          ≡ some (
              document declared (
                auth_encryption (protocol_name (is_wpa2 authentication)) (codes "AES")
                ++ shared_key_of (key_type_of authentication secret) secret)))

  abbrev pub Describes : WifiAuthentication → Text → Type 0
  Describes open_network xml =
      read_xml xml ≡ some (document declared (auth_encryption (codes "open") (codes "none")))
  Describes wpa2_personal xml = SecuredAs wpa2_personal xml
  Describes wpa3_personal xml = SecuredAs wpa3_personal xml

  module _ (plain_name : all is_plain (profile_name declared) ≡ true)
      (plain_ssid : all is_plain declared.ssid ≡ true) where
    secured_xml-as :
        (s t : S) (security : Text)
        → secured_xml system declared s ≡ (ok security, t)
        → SecuredAs declared.authentication (profile_document declared security)
    secured_xml-as s t security h =
        let (reference, u, given, h1) = bind-ok _ _ s h in
        let (secret, v, found, h2) = bind-ok _ _ u h1 in
        let (done, w, valid, h3) = bind-ok _ _ v h2 in
        let there : secured declared.authentication secret ≡ security = (ok-pair h3).0 in
        let wpa2 = is_wpa2 declared.authentication in
        (
          reference,
          (or_fail-ok _ declared.psk s given).0,
          secret,
          ap (λ p. p.0) found,
          ap (λ text. read_xml (profile_document declared text)) (sym there)
              ∙ read_xml-shared_key declared plain_name plain_ssid wpa2 (wpa2 && is_raw_key secret)
                  secret (secret-plain secret declared.authentication (ap (λ p. p.0) valid)),
        )

    documented :
        (authentication : WifiAuthentication) (s t : S) (xml : Text)
        → declared.authentication ≡ authentication
        → (security_xml system declared authentication >>= λ security.
              pure (profile_document declared security))
            s
          ≡ (ok xml, t)
        → Describes authentication xml
    unfolding ◌>>=◌
    documented open_network s t xml e h =
        subst (Describes open_network) (ok-pair h).0 (read_xml-open declared plain_name plain_ssid)
    documented wpa2_personal s t xml e h =
        let (security, u, k, l) = bind-ok (secured_xml system declared) _ s h in
        subst (SecuredAs wpa2_personal) (ok-pair l).0 (
          subst (λ a. SecuredAs a (profile_document declared security)) e
            (secured_xml-as s u security k))
    documented wpa3_personal s t xml e h =
        let (security, u, k, l) = bind-ok (secured_xml system declared) _ s h in
        subst (SecuredAs wpa3_personal) (ok-pair l).0 (
          subst (λ a. SecuredAs a (profile_document declared security)) e
            (secured_xml-as s u security k))

    -- Where the name and the SSID have only characters of XML 1.0 and no carriage return, a reader of
    -- XML finds in the document that `profile_xml` makes a well nested document of exactly the
    -- elements of a WLAN profile, and in them the name and the SSID as they are, however many of
    -- their characters XML reserves, with nonBroadcast exactly for a hidden network and the mode of
    -- connection; for an open network the authentication alone, and for another one WPA2PSK or
    -- WPA3SAE, and the secret that the reference resolves to as it is, as a network key exactly where
    -- it is a raw key of WPA2.
    pub profile_xml-Describes :
        (s t : S) (xml : Text)
        → profile_xml system declared s ≡ (ok xml, t)
        → Describes declared.authentication xml
    unfolding profile_xml
    profile_xml-Describes s t xml h = documented declared.authentication s t xml refl h
