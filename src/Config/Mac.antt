-- ===== src/Config/Mac.antt =====
-- MAC addresses: what `validate_mac` accepts, and when `canonical_mac` sees the same address.
use netplan.Base.{
  if_some-eq-ok, seq-eq-ok, fail_if-eq-ok, ℕ, ◌+◌, ◌*◌, ◌-◌, ◌%◌, ◌<◌, ◌≡◌, ◌≢◌, ◌↔◌, refl, ap,
  arith, inl, inr, Bool, false, true, not, ◌||◌, some, [], ◌∷◌, map, Result, ok, err, Text, Unicode,
  length, take, all, between, ◌==◌, and-true, Bool-cases, if◌then◌else◌, bytes, len, text_eq_sound,
  text_eq_refl, bytes-of_ascii, ascii-bytes, is_ascii_hexdigit,
}
use netplan.Error.{
  Error, ValidationError, validation, mac_not_hexadecimal, mac_not_local_unicast, invalid_mac,
}
use netplan.Config.{InterfaceSelector}
use netplan.Config.Checks.{
  reject_if, validate_mac, validate_selector, compact_mac, check_first_octet, from_str_radix_16,
  hex_value,
}
use netplan.Config.Protect.{canonical_mac, equal_optional_mac, flat_upper}

hexdigit_ascii : (b : ℕ) → is_ascii_hexdigit b ≡ true → b < 128
hexdigit_ascii b h = ground arith

-- The value of the second digit, whose low bits are the group bit and the local bit of the address.
abbrev pub second_digit : Text → ℕ
second_digit (a ∷ b ∷ rest) = hex_value b
second_digit _ = 0

-- Twelve hexadecimal digits of a locally administered unicast address.
abbrev pub IsLocalUnicast : Text → Type 0
IsLocalUnicast digits =
    (length digits ≡ 12) × (all is_ascii_hexdigit digits ≡ true) × (second_digit digits % 4 ≡ 2)

low_bits : (x y : ℕ) → (16 * x + y) % 4 ≡ y % 4
low_bits x y = omega arith

octet_iff : (n : ℕ) (e : ValidationError) → (reject_if (not (n == 2)) e ≡ ok tt) ↔ (n ≡ 2)
octet_iff n e = (λ h. ground arith, λ h. ground arith)

check-octet :
    (mac digits : Text)
    → length digits ≡ 12
    → all is_ascii_hexdigit digits ≡ true
    → (check_first_octet mac (from_str_radix_16 (take 2 digits)) ≡ ok tt)
      ↔ (second_digit digits % 4 ≡ 2)
check-octet mac [] l h = absurd (omega arith)
check-octet mac (a ∷ []) l h = absurd (omega arith)
check-octet mac (a ∷ b ∷ rest) l h =
    let (ha, r) = and-true (is_ascii_hexdigit a) _ h in
    let (hb, _) = and-true (is_ascii_hexdigit b) _ r in
    rw (ha, hb) (rw (low_bits (hex_value a) (hex_value b)) (octet_iff (hex_value b % 4) _))

-- The two tests on the bytes, read as tests on the characters.
digits_iff :
    (s : Text)
    → (not (len s == 12) || not (all is_ascii_hexdigit (bytes s)) ≡ false)
      ↔ (length s ≡ 12) × (all is_ascii_hexdigit s ≡ true)
digits_iff s = (there, back)
  where
    there :
        not (len s == 12) || not (all is_ascii_hexdigit (bytes s)) ≡ false
        → (length s ≡ 12) × (all is_ascii_hexdigit s ≡ true)
    there h =
        let hex : all is_ascii_hexdigit (bytes s) ≡ true = ground arith in
        let same = bytes-of_ascii is_ascii_hexdigit hexdigit_ascii s hex in
        let twelve : len s ≡ 12 = ground arith in (rw same at twelve, rw same at hex)

    back :
        (length s ≡ 12) × (all is_ascii_hexdigit s ≡ true)
        → not (len s == 12) || not (all is_ascii_hexdigit (bytes s)) ≡ false
    back (l, h) = rw (ascii-bytes is_ascii_hexdigit hexdigit_ascii s h) (rw (l, h) refl)

-- `validate_mac` accepts exactly the texts that, without their separators, are the twelve
-- hexadecimal digits of a locally administered unicast address.
pub validate_mac_iff : (mac : Text) → (validate_mac mac ≡ ok tt) ↔ IsLocalUnicast (compact_mac mac)
unfolding validate_mac
validate_mac_iff mac = (there, back)
  where
    there : validate_mac mac ≡ ok tt → IsLocalUnicast (compact_mac mac)
    there h =
        let (a, b) = seq-eq-ok _ _ h in
        let (l, hex) = (digits_iff (compact_mac mac)).0 (fail_if-eq-ok _ _ a) in
        (l, hex, (check-octet mac (compact_mac mac) l hex).0 b)

    back : IsLocalUnicast (compact_mac mac) → validate_mac mac ≡ ok tt
    back (l, hex, low) =
        rw ((digits_iff (compact_mac mac)).1 (l, hex))
          ((check-octet mac (compact_mac mac) l hex).1 low)

octet-reads :
    (b : Bool) (mac other : Text)
    → reject_if b (mac_not_local_unicast mac) ≢ err (validation (mac_not_hexadecimal other))
octet-reads true mac other h = cc
octet-reads false mac other h = cc

radix-reads :
    (mac other digits : Text)
    → length digits ≡ 12
    → all is_ascii_hexdigit digits ≡ true
    → check_first_octet mac (from_str_radix_16 (take 2 digits))
      ≢ err (validation (mac_not_hexadecimal other))
radix-reads mac other [] l h = absurd (omega arith)
radix-reads mac other (a ∷ []) l h = absurd (omega arith)
radix-reads mac other (a ∷ b ∷ rest) l h =
    let (ha, r) = and-true (is_ascii_hexdigit a) _ h in
    let (hb, _) = and-true (is_ascii_hexdigit b) _ r in rw (ha, hb) (octet-reads _ mac other)

-- `validate_mac` never reports that the first octet could not be read.
validate_mac-reads :
    (mac other : Text) → validate_mac mac ≢ err (validation (mac_not_hexadecimal other))
unfolding validate_mac
validate_mac-reads mac other h =
    elim (Bool-cases (
      not (len (compact_mac mac) == 12) || not (all is_ascii_hexdigit (bytes (compact_mac mac))))) [
        | inl bad ↦
            let h' : ◌≡◌ {A = Result Error (Unit {0})} (err (validation (invalid_mac mac)))
                (err (validation (mac_not_hexadecimal other))) =
              rw bad at h in
            cc
        | inr good ↦
            let (l, hex) = (digits_iff (compact_mac mac)).0 good in
            radix-reads mac other (compact_mac mac) l hex (rw good at h)
      ]

-- A selector that gives a MAC address which is not locally administered and unicast is refused.
validate_selector-refuses :
    (selector : InterfaceSelector) (mac : Text)
    → selector.mac_address ≡ some mac
    → second_digit (compact_mac mac) % 4 ≢ 2
    → validate_selector selector ≢ ok tt
unfolding validate_selector
validate_selector-refuses selector mac e global h =
    global ((validate_mac_iff mac).0 (if_some-eq-ok _ _ mac (seq-eq-ok _ _ h).1 e)).2

cons_iff : (x y : ℕ) (xs ys : Text) → (x ∷ xs ≡ y ∷ ys) ↔ ((x ≡ y) × (xs ≡ ys))
cons_iff x y xs ys = (λ h. ground arith, λ h. ground arith)

abbrev upper : ℕ → ℕ
upper c = if between b'a' b'z' c then c - 32 else c

upper-hex :
    (x y : ℕ)
    → is_ascii_hexdigit x ≡ true
    → is_ascii_hexdigit y ≡ true
    → (upper x ≡ upper y) ↔ (hex_value x ≡ hex_value y)
upper-hex x y hx hy = (λ h. ground arith, λ h. ground arith)

module _ (unicode : Unicode) where
  flat_upper-map : (s : Text) → all is_ascii_hexdigit s ≡ true → flat_upper unicode s ≡ map upper s
  flat_upper-map [] h = refl
  flat_upper-map (c ∷ s) h =
      let (now, later) = and-true (is_ascii_hexdigit c) _ h in
      rw (unicode.ascii_uppercase c (hexdigit_ascii c now))
        (ap (λ r. upper c ∷ r) (flat_upper-map s later))

  map-upper_iff :
      (xs ys : Text)
      → all is_ascii_hexdigit xs ≡ true
      → all is_ascii_hexdigit ys ≡ true
      → (map upper xs ≡ map upper ys) ↔ (map hex_value xs ≡ map hex_value ys)
  map-upper_iff [] [] hx hy = (λ h. refl, λ h. refl)
  map-upper_iff [] (y ∷ ys) hx hy = (λ h. cc, λ h. cc)
  map-upper_iff (x ∷ xs) [] hx hy = (λ h. cc, λ h. cc)
  map-upper_iff (x ∷ xs) (y ∷ ys) hx hy =
      let (hx0, hxs) = and-true (is_ascii_hexdigit x) _ hx in
      let (hy0, hys) = and-true (is_ascii_hexdigit y) _ hy in
      let head = upper-hex x y hx0 hy0 in
      let rest = map-upper_iff xs ys hxs hys in
      (
        λ h. let (p, q) = (cons_iff _ _ _ _).0 h in (cons_iff _ _ _ _).1 (head.0 p, rest.0 q),
        λ h. let (p, q) = (cons_iff _ _ _ _).0 h in (cons_iff _ _ _ _).1 (head.1 p, rest.1 q),
      )

  -- For two accepted MAC addresses the protection check sees one address exactly when their twelve
  -- digits have the same values, whatever separators and letter case they are written with.
  pub equal_optional_mac_iff :
      (a b : Text)
      → validate_mac a ≡ ok tt
      → validate_mac b ≡ ok tt
      → (equal_optional_mac unicode (some a) (some b) ≡ true)
        ↔ (map hex_value (compact_mac a) ≡ map hex_value (compact_mac b))
  unfolding canonical_mac
  equal_optional_mac_iff a b ha hb =
      let hex_a = ((validate_mac_iff a).0 ha).1 in
      let hex_b = ((validate_mac_iff b).0 hb).1 in
      let (there, back) = map-upper_iff (compact_mac a) (compact_mac b) hex_a hex_b in
      rw (flat_upper-map (compact_mac a) hex_a, flat_upper-map (compact_mac b) hex_b)
        (λ h. there (text_eq_sound _ _ h), λ h. rw (back h) (text_eq_refl _))
