-- ===== src/Config/Disjoint.antt =====
-- crates/netplan/src/config.rs: an accepted configuration has nothing in common with the protected
-- interfaces.
use netplan.Base.{
  ◌≡◌, false, List, [], ◌∷◌, ◌++◌, map, ok, Unicode, All, All-append, All-zip, for_each-All_of,
  if_some-eq-ok, seq-eq-ok,
}
use netplan.Config.{NetplanConfig, InterfaceSelector, AdapterConfig, WifiProfile}
use netplan.Config.Checks.{validate_selector}
use netplan.Config.Protect.{selectors_share_stable_matcher}
use netplan.Config.Validate.{selectors, filter_map, action_selector, validate}
use netplan.Config.Accepted.{validate-Accepted}
use netplan.Config.Protection.{guarded_selectors, KeepsOff, validate-KeepsOff}
use netplan.Config.Matchers.{Shares, MacAccepted, selectors_share_stable_matcher_iff}

All-parts : {A : Type 0} (P : A → Type 0) (xs ys : List A) → All P (xs ++ ys) → All P xs × All P ys
All-parts P [] ys h = (tt, h)
All-parts P (x ∷ xs) ys h = let (a, b) = All-parts P xs ys h.1 in ((h.0, a), b)

validate_selector-MacAccepted :
    (selector : InterfaceSelector) → validate_selector selector ≡ ok tt → MacAccepted selector
unfolding validate_selector
validate_selector-MacAccepted selector h mac e = if_some-eq-ok _ _ mac (seq-eq-ok _ _ h).1 e

-- No protected selector has a matcher in common with this one.
abbrev pub SharesNone : NetplanConfig → InterfaceSelector → Type 0
SharesNone config selector =
    All (λ protected. ¬ Shares protected selector) config.protect.management_interfaces

module _ (unicode : Unicode) (config : NetplanConfig) where
  -- The protected selectors, and those that are held against them
  accepted-MacAccepted :
      validate unicode config ≡ ok tt
      → All MacAccepted config.protect.management_interfaces
        × All MacAccepted (guarded_selectors config)
  accepted-MacAccepted h =
      let a = validate-Accepted unicode config h in
      let all_of =
        for_each-All_of _ _ validate_selector-MacAccepted (selectors config) a.selectors_ok in
      let (protected, rest) = All-parts _ config.protect.management_interfaces _ all_of in
      let (adapters, rest1) =
        All-parts _ (map (λ (adapter : AdapterConfig). adapter.selector) config.adapters) _ rest in
      let (wifi, rest2) =
        All-parts _ (filter_map (λ (wifi : WifiProfile). wifi.selector) config.wifi) _ rest1 in
      let (actions, drivers) =
        All-parts _ (filter_map action_selector config.wifi_actions) _ rest2 in
      (protected, All-append _ _ _ adapters (All-append _ _ _ wifi drivers))

  KeepsOff-SharesNone :
      (selector : InterfaceSelector)
      → All MacAccepted config.protect.management_interfaces
      → KeepsOff unicode config selector
      → MacAccepted selector
      → SharesNone config selector
  KeepsOff-SharesNone selector protected apart valid =
      All-zip {P = MacAccepted} {Q = λ p. selectors_share_stable_matcher unicode p selector ≡ false}
        {R = λ p. ¬ Shares p selector}
        (λ p mac off shared.
          let on = (selectors_share_stable_matcher_iff unicode p selector mac valid).1 shared in cc)
        config.protect.management_interfaces protected apart

  -- When `validate` accepts, no selector of an adapter, of a Wi-Fi profile or of an adapter restart
  -- has with a protected one an index in common, nor a name or a part of a description up to the case
  -- of ASCII letters, nor a GUID up to that and to the braces around it, nor the values of the digits
  -- of a MAC address.
  pub validate-SharesNone :
      validate unicode config ≡ ok tt → All (SharesNone config) (guarded_selectors config)
  validate-SharesNone h =
      let (protected, guarded) = accepted-MacAccepted h in
      All-zip {P = KeepsOff unicode config} {Q = MacAccepted} {R = SharesNone config}
        (λ selector off valid. KeepsOff-SharesNone selector protected off valid)
        (guarded_selectors config) (validate-KeepsOff unicode config h) guarded
