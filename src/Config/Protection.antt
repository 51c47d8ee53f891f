-- ===== src/Config/Protection.antt =====
-- `reject_protected_selector` over a whole configuration.
use netplan.Base.{
  inl, inr, Option-cases, ◌≡◌, false, Option, none, some, List, [], ◌∷◌, ◌++◌, map, ok, Unicode,
  All, All-append, any-false, fail_if-eq-ok, if_some, seq-eq-ok, for_each-All_of,
}
use netplan.Config.{
  NetplanConfig, InterfaceSelector, AdapterConfig, WifiProfile, DriverOperation, install,
  restart_adapter,
}
use netplan.Config.Protect.{selectors_share_stable_matcher, reject_protected_selector}
use netplan.Config.Validate.{
  check_adapter, check_wifi, check_driver, driver_selector, filter_map, validate,
}
use netplan.Config.Accepted.{validate-Accepted}

-- The selectors of everything that `validate` holds against the protected interfaces: adapters,
-- Wi-Fi profiles and adapter restarts.
abbrev pub guarded_selectors : NetplanConfig → List InterfaceSelector
guarded_selectors config =
    map (λ (adapter : AdapterConfig). adapter.selector) config.adapters
    ++ (filter_map (λ (wifi : WifiProfile). wifi.selector) config.wifi
        ++ filter_map driver_selector config.drivers)

-- No protected selector has a matcher of its own in common with this one.
abbrev pub KeepsOff : Unicode → NetplanConfig → InterfaceSelector → Type 0
KeepsOff unicode config selector =
    All (λ protected. selectors_share_stable_matcher unicode protected selector ≡ false)
      config.protect.management_interfaces

abbrev Optional : {A : Type 0} → (A → Type 0) → Option A → Type 0
Optional P none = Unit
Optional P (some a) = P a

All-map_image :
    {A B : Type 0} (P : B → Type 0) (f : A → B) (xs : List A)
    → All (λ x. P (f x)) xs
    → All P (map f xs)
All-map_image P f [] h = tt
All-map_image P f (x ∷ xs) h = (h.0, All-map_image P f xs h.1)

All-filter_map :
    {A B : Type 0} (P : B → Type 0) (f : A → Option B) (xs : List A)
    → All (λ x. Optional P (f x)) xs
    → All P (filter_map f xs)
All-filter_map P f [] h = tt
All-filter_map P f (x ∷ xs) h = elim (Option-cases (f x)) [
  | inl e ↦ rw (e, filter_map) (All-filter_map P f xs h.1)
  | inr (b, e) ↦ rw (e, filter_map) (rw e at (h.0), All-filter_map P f xs h.1)
]

module _ (unicode : Unicode) (config : NetplanConfig) where
  reject-KeepsOff :
      (selector : InterfaceSelector)
      → reject_protected_selector unicode config selector ≡ ok tt
      → KeepsOff unicode config selector
  unfolding reject_protected_selector
  reject-KeepsOff selector h = any-false _ _ (fail_if-eq-ok _ _ h)

  adapter-KeepsOff :
      (adapter : AdapterConfig)
      → check_adapter unicode config adapter ≡ ok tt
      → KeepsOff unicode config adapter.selector
  unfolding check_adapter
  adapter-KeepsOff adapter h = reject-KeepsOff adapter.selector (seq-eq-ok _ _ h).0

  Optional-KeepsOff :
      (o : Option InterfaceSelector)
      → if_some (reject_protected_selector unicode config) o ≡ ok tt
      → Optional (KeepsOff unicode config) o
  Optional-KeepsOff none h = tt
  Optional-KeepsOff (some selector) h = reject-KeepsOff selector h

  wifi-KeepsOff :
      (wifi : WifiProfile)
      → check_wifi unicode config wifi ≡ ok tt
      → Optional (KeepsOff unicode config) wifi.selector
  unfolding check_wifi
  wifi-KeepsOff wifi h = Optional-KeepsOff wifi.selector (seq-eq-ok _ _ h).0

  driver-KeepsOff :
      (driver : DriverOperation)
      → check_driver unicode config driver ≡ ok tt
      → Optional (KeepsOff unicode config) (driver_selector driver)
  unfolding check_driver
  driver-KeepsOff (install inf_path hardware_id force restart) h = tt
  driver-KeepsOff (restart_adapter selector) h = reject-KeepsOff selector h

  pub validate-KeepsOff :
      validate unicode config ≡ ok tt → All (KeepsOff unicode config) (guarded_selectors config)
  validate-KeepsOff h =
      let a = validate-Accepted unicode config h in
      All-append _ _ _
        (All-map_image _ _ _ (for_each-All_of _ _ adapter-KeepsOff config.adapters a.adapters_ok))
        (All-append _ _ _
          (All-filter_map _ _ _ (for_each-All_of _ _ wifi-KeepsOff config.wifi a.wifi_ok))
          (All-filter_map _ _ _ (for_each-All_of _ _ driver-KeepsOff config.drivers a.drivers_ok)))
