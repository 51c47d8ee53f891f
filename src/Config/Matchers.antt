-- ===== src/Config/Matchers.antt =====
-- crates/netplan/src/config.rs: which selectors `selectors_share_stable_matcher` takes for the same
-- interface.
use netplan.Base.{
  ◌==◌, ==_iff, ◌≡◌, ◌↔◌, ◌⊎◌, refl, arith, inl, inr, Bool, true, false, ◌||◌, Option, none, some,
  [], ◌∷◌, map, ok, Text, Unicode, text_eq, text_eq_sound, text_eq_refl, to_ascii_lowercase,
  trim_matches, eq_ignore_ascii_case,
}
use netplan.Config.{InterfaceSelector}
use netplan.Config.Checks.{validate_mac, compact_mac, hex_value}
use netplan.Config.Protect.{
  both_some, guid_eq, equal_optional_mac, canonical_mac, selectors_share_stable_matcher,
}
use netplan.Config.Mac.{equal_optional_mac_iff}

-- Both are given, and their values are related.
abbrev pub Both : {A : Type 0} → (A → A → Type 0) → Option A → Option A → Type 0
Both {A} R left right = (a : A) × (left ≡ some a) × (b : A) × (right ≡ some b) × R a b

both_some_iff :
    {A : Type 0} (test : A → A → Bool) (R : A → A → Type 0) (left right : Option A)
    → ((a b : A) → left ≡ some a → right ≡ some b → (test a b ≡ true) ↔ R a b)
    → (both_some test left right ≡ true) ↔ Both R left right
both_some_iff test R none right each = (λ h. cc, λ h. let (a, e, b, f, related) = h in cc)
both_some_iff test R (some a) none each = (λ h. cc, λ h. let (x, e, b, f, related) = h in cc)
both_some_iff test R (some a) (some b) each = (
  λ h. (a, refl, b, refl, (each a b refl refl).0 h),
  λ h.
      let (x, e, y, f, related) = h in
      let first : a ≡ x = cc in
      let second : b ≡ y = cc in
      let found : test x y ≡ true = (each x y e f).1 related in rw (first, second) found,
)

or_iff : {A B : Type 0} (a b : Bool) → (a ≡ true) ↔ A → (b ≡ true) ↔ B → (a || b ≡ true) ↔ (A ⊎ B)
or_iff true b f g = (λ h. inl (f.0 refl), λ h. refl)
or_iff false b f g =
    (λ h. inr (g.0 h), λ h. elim h [ inl x ↦ absurd (ground arith) | inr y ↦ g.1 y ])

text_eq_iff : (a b : Text) → (text_eq a b ≡ true) ↔ (a ≡ b)
text_eq_iff a b = (text_eq_sound a b, λ e. rw e (text_eq_refl b))

abbrev pub SameUpToCase : Text → Text → Type 0
SameUpToCase a b = to_ascii_lowercase a ≡ to_ascii_lowercase b

abbrev braces : Text
braces = b'{' ∷ b'}' ∷ []

abbrev pub SameGuid : Text → Text → Type 0
SameGuid a b = SameUpToCase (trim_matches braces a) (trim_matches braces b)

-- The values of the digits agree.
abbrev pub SameDigits : Text → Text → Type 0
SameDigits a b = map hex_value (compact_mac a) ≡ map hex_value (compact_mac b)

abbrev pub Shares : InterfaceSelector → InterfaceSelector → Type 0
Shares protected target =
    (((Both (λ i j. i ≡ j) protected.if_index target.if_index
          ⊎ Both SameUpToCase protected.name target.name)
        ⊎ Both SameGuid protected.guid target.guid)
      ⊎ Both SameDigits protected.mac_address target.mac_address)
    ⊎ Both SameUpToCase protected.description_contains target.description_contains

abbrev pub MacAccepted : InterfaceSelector → Type 0
MacAccepted selector = (mac : Text) → selector.mac_address ≡ some mac → validate_mac mac ≡ ok tt

module _ (unicode : Unicode) where
  equal_optional_mac-SameDigits :
      (left right : Option Text)
      → ((mac : Text) → left ≡ some mac → validate_mac mac ≡ ok tt)
      → ((mac : Text) → right ≡ some mac → validate_mac mac ≡ ok tt)
      → (equal_optional_mac unicode left right ≡ true) ↔ Both SameDigits left right
  equal_optional_mac-SameDigits left right valid_left valid_right =
      both_some_iff (λ a b. text_eq (canonical_mac unicode a) (canonical_mac unicode b)) SameDigits
        left right
        (λ a b e f. equal_optional_mac_iff unicode a b (valid_left a e) (valid_right b f))

  -- Two selectors whose MAC addresses, where they have one, `validate_mac` accepts are taken for the
  -- same interface exactly when both give one index, or both give names or parts of a description
  -- that agree up to the case of ASCII letters, or GUIDs that do without the braces around them, or
  -- MAC addresses whose digits have the same values.
  pub selectors_share_stable_matcher_iff :
      (protected target : InterfaceSelector)
      → MacAccepted protected
      → MacAccepted target
      → (selectors_share_stable_matcher unicode protected target ≡ true) ↔ Shares protected target
  unfolding selectors_share_stable_matcher
  selectors_share_stable_matcher_iff protected target valid_protected valid_target =
      let same_text = λ (l r : Option Text).
        both_some_iff eq_ignore_ascii_case SameUpToCase l r
          (λ a b e f. text_eq_iff (to_ascii_lowercase a) (to_ascii_lowercase b)) in
      or_iff _ _
        (or_iff _ _
          (or_iff _ _
            (or_iff _ _
              (both_some_iff ◌==◌ (λ i j. i ≡ j) protected.if_index target.if_index
                (λ i j e f. ==_iff i j))
              (same_text protected.name target.name))
            (both_some_iff guid_eq SameGuid protected.guid target.guid
              (λ a b e f. text_eq_iff _ _)))
          (equal_optional_mac-SameDigits protected.mac_address target.mac_address valid_protected
            valid_target))
        (same_text protected.description_contains target.description_contains)
