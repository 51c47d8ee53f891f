-- ===== src/Config/Protect.antt =====
-- crates/netplan/src/config.rs: when a selector names a protected management interface.
use netplan.Base.{
  ℕ, Bool, false, ◌||◌, Option, none, some, [], ◌∷◌, ◌++◌, any, ◌==◌, Result, Text, Unicode,
  text_eq, eq_ignore_ascii_case, trim_matches,
}
use netplan.Error.{Error, SelectorLabel, by_index, by_name, stable_selector, protected_interface}
use netplan.Config.{NetplanConfig, InterfaceSelector}
use netplan.Config.Checks.{reject_if, compact_mac}

-- `matches!((left, right), (Some(left), Some(right)) if test(left, right))`
abbrev pub both_some : {A : Type 0} → (A → A → Bool) → Option A → Option A → Bool
both_some test (some a) (some b) = test a b
both_some test _ _ = false

abbrev pub equal_optional_text : Option Text → Option Text → Bool
equal_optional_text = both_some eq_ignore_ascii_case

abbrev pub guid_eq : Text → Text → Bool
guid_eq a b =
    eq_ignore_ascii_case (trim_matches (b'{' ∷ b'}' ∷ []) a) (trim_matches (b'{' ∷ b'}' ∷ []) b)

abbrev pub equal_optional_guid : Option Text → Option Text → Bool
equal_optional_guid = both_some guid_eq

abbrev label : Option ℕ → Option Text → SelectorLabel
label (some index) name = by_index index
label none (some name) = by_name name
label none none = stable_selector

abbrev pub selector_label : InterfaceSelector → SelectorLabel
selector_label selector = label selector.if_index selector.name

module _ (unicode : Unicode) where
  abbrev pub flat_upper : Text → Text
  flat_upper [] = []
  flat_upper (c ∷ s) = unicode.to_uppercase c ++ flat_upper s

  unfoldable pub canonical_mac : Text → Text
  canonical_mac value = flat_upper (compact_mac value)

  abbrev pub equal_optional_mac : Option Text → Option Text → Bool
  equal_optional_mac = both_some (λ a b. text_eq (canonical_mac a) (canonical_mac b))

  unfoldable pub selectors_share_stable_matcher : InterfaceSelector → InterfaceSelector → Bool
  selectors_share_stable_matcher protected target =
      both_some ◌==◌ protected.if_index target.if_index
      || equal_optional_text protected.name target.name
      || equal_optional_guid protected.guid target.guid
      || equal_optional_mac protected.mac_address target.mac_address
      || equal_optional_text protected.description_contains target.description_contains

  unfoldable pub reject_protected_selector :
      NetplanConfig → InterfaceSelector → Result Error (Unit {0})
  reject_protected_selector config target =
      reject_if
        (any (λ protected. selectors_share_stable_matcher protected target)
          config.protect.management_interfaces)
        (protected_interface (selector_label target))
