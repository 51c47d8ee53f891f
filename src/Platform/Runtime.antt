-- ===== src/Platform/Runtime.antt =====
-- What `validate_runtime_protection` guarantees of the adapters that a live apply reaches.
use netplan.Base.{
  ℕ, ◌==◌, ==_iff, ◌≡◌, ◌≢◌, refl, sym, subst, arith, inl, inr, Bool, false, Option, none, some,
  List, [], ◌∷◌, ◌++◌, map, any, any-false, find, Result, ok, collect, bind-eq-ok, ok-inj,
  seq-eq-ok, Unicode, All, All-map, All-snoc, Bool-cases,
}
use netplan.Config.{NetplanConfig, InterfaceSelector, AdapterConfig, WifiProfile}
use netplan.Config.Validate.{action_selector, driver_selector, filter_map}
use netplan.Platform.{PlatformWording}
use netplan.Platform.Resolve.{
  AdapterSnapshot, AdapterInventory, Interface, resolve_adapter, resolve_wifi_interface,
  adapter_targets, wifi_targets, restart_targets, resolve_index, refuse_target,
  validate_runtime_protection,
}

find-none : {A : Type 0} (p : A → Bool) (xs : List A) → find p xs ≡ none → All (λ x. p x ≡ false) xs
find-none p [] h = tt
find-none p (x ∷ xs) h = elim (Bool-cases (p x)) [
  | inl e ↦ absurd (found (rw (e, find) at h))
  | inr e ↦ (e, find-none p xs (rw (e, find) at h))
]
  where
    found : some x ≡ none → ⊥
    found q = cc

collect-All :
    {E A B : Type 0} (f : A → Result E B) (R : B → Type 0) (xs : List A) (ys : List B)
    → collect f xs ≡ ok ys
    → All R ys
    → All (λ x. (y : B) × (f x ≡ ok y) × R y) xs
collect-All f R [] ys h r = tt
collect-All f R (x ∷ xs) ys h r =
    let (y, e, rest) = bind-eq-ok (f x) _ h in
    let (zs, e', last) = bind-eq-ok (collect f xs) _ rest in
    let r' = subst (λ l. All R l) (sym (ok-inj last)) r in
    ((y, e, r'.0), collect-All f R xs zs e' r'.1)

module _ (unicode : Unicode) (say : PlatformWording) (inventory : AdapterInventory) where
  -- The selector is that of exactly one adapter, and its index satisfies `Q`.
  abbrev ResolvesTo : (ℕ → Type 0) → InterfaceSelector → Type 0
  ResolvesTo Q selector =
      (y : AdapterSnapshot) × (resolve_adapter unicode say inventory selector ≡ ok y)
      × Q y.info.if_index

  abbrev WifiResolvesTo : List Interface → (ℕ → Type 0) → Option InterfaceSelector → Type 0
  WifiResolvesTo interfaces Q selector =
      (y : Interface) × (resolve_wifi_interface unicode say inventory interfaces selector ≡ ok y)
      × Q y.if_index

  adapter_targets-All :
      (Q : ℕ → Type 0) (ts us : List ℕ) (adapters : List AdapterConfig)
      → adapter_targets unicode say inventory ts adapters ≡ ok us
      → All Q us
      → All Q ts × All (λ (a : AdapterConfig). ResolvesTo Q a.selector) adapters
  unfolding adapter_targets
  adapter_targets-All Q ts us [] h q = (rw (ok-inj h) q, tt)
  adapter_targets-All Q ts us (a ∷ as') h q =
      let (y, e, rest) = bind-eq-ok (resolve_adapter unicode say inventory a.selector) _ h in
      let (_, rest') = seq-eq-ok _ _ rest in
      let (q', later) = adapter_targets-All Q (ts ++ y.info.if_index ∷ []) us as' rest' q in
      let (old, new) = All-snoc Q ts y.info.if_index q' in (old, ((y, e, new), later))

  wifi_targets-All :
      (Q : ℕ → Type 0) (interfaces : List Interface) (ts us : List ℕ)
      (selectors : List (Option InterfaceSelector))
      → wifi_targets unicode say inventory interfaces ts selectors ≡ ok us
      → All Q us
      → All Q ts × All (WifiResolvesTo interfaces Q) selectors
  unfolding wifi_targets
  wifi_targets-All Q interfaces ts us [] h q = (rw (ok-inj h) q, tt)
  wifi_targets-All Q interfaces ts us (s ∷ ss) h q =
      let (y, e, rest) =
        bind-eq-ok (resolve_wifi_interface unicode say inventory interfaces s) _ h in
      let (q', later) = wifi_targets-All Q interfaces (ts ++ y.if_index ∷ []) us ss rest q in
      let (old, new) = All-snoc Q ts y.if_index q' in (old, ((y, e, new), later))

  restart_targets-All :
      (Q : ℕ → Type 0) (ts us : List ℕ) (selectors : List InterfaceSelector)
      → restart_targets unicode say inventory ts selectors ≡ ok us
      → All Q us
      → All Q ts × All (ResolvesTo Q) selectors
  unfolding restart_targets
  restart_targets-All Q ts us [] h q = (rw (ok-inj h) q, tt)
  restart_targets-All Q ts us (s ∷ ss) h q =
      let (y, e, rest) = bind-eq-ok (resolve_adapter unicode say inventory s) _ h in
      let (q', later) = restart_targets-All Q (ts ++ y.info.if_index ∷ []) us ss rest q in
      let (old, new) = All-snoc Q ts y.info.if_index q' in (old, ((y, e, new), later))

  -- None of the indexes in `protected` is `i`.
  abbrev Avoids : List ℕ → ℕ → Type 0
  Avoids protected i = All (λ p. p ≢ i) protected

  avoids : (protected : List ℕ) (i : ℕ) → any (λ p. p == i) protected ≡ false → Avoids protected i
  avoids protected i h =
      All-map (λ p. (p == i) ≡ false) (λ p. p ≢ i) (λ p e same. ground (arith, ==_iff p i))
        protected (any-false (λ p. p == i) protected h)

  refuse_target-none : (o : Option ℕ) → refuse_target unicode say o ≡ ok tt → o ≡ none
  refuse_target-none none h = refl
  refuse_target-none (some i) h = cc

  -- What a live configuration reaches once `protected` are the indexes that are to be kept off:
  -- every adapter, Wi-Fi profile, Wi-Fi action and adapter restart resolves, and to another index.
  abbrev pub Reaches : NetplanConfig → List Interface → List ℕ → Type 0
  Reaches config interfaces protected =
      All (λ (a : AdapterConfig). ResolvesTo (Avoids protected) a.selector) config.adapters
      × All (WifiResolvesTo interfaces (Avoids protected))
          (map (λ (p : WifiProfile). p.selector) config.wifi)
      × All (WifiResolvesTo interfaces (Avoids protected)) (map action_selector config.wifi_actions)
      × All (ResolvesTo (Avoids protected)) (filter_map driver_selector config.drivers)

  -- When `validate_runtime_protection` accepts a configuration on a machine, every selector of
  -- `protect.management_interfaces` is that of one adapter, and every adapter entry, Wi-Fi
  -- profile, Wi-Fi action and adapter restart of the configuration resolves to an interface whose
  -- index differs from the indexes of all those adapters.
  pub validate_runtime_protection-KeepsOff :
      (config : NetplanConfig) (interfaces : List Interface)
      → validate_runtime_protection unicode say config inventory interfaces ≡ ok tt
      → (protected : List ℕ) × (collect
            (resolve_index unicode say inventory)
            config.protect.management_interfaces
          ≡ ok protected)
        × Reaches config interfaces protected
  unfolding validate_runtime_protection
  validate_runtime_protection-KeepsOff config interfaces h =
      let (protected, e, h0) = bind-eq-ok (collect (resolve_index unicode say inventory) _) _ h in
      let (t0, e0, h1) = bind-eq-ok (adapter_targets unicode say inventory [] _) _ h0 in
      let (t1, e1, h2) = bind-eq-ok (wifi_targets unicode say inventory interfaces t0 _) _ h1 in
      let (t2, e2, h3) = bind-eq-ok (wifi_targets unicode say inventory interfaces t1 _) _ h2 in
      let (t3, e3, h4) = bind-eq-ok (restart_targets unicode say inventory t2 _) _ h3 in
      let free = find-none _ t3 (refuse_target-none _ h4) in
      let q3 : All (Avoids protected) t3 = All-map _ _ (avoids protected) t3 free in
      let (q2, restarts) = restart_targets-All (Avoids protected) t2 t3 _ e3 q3 in
      let (q1, actions) = wifi_targets-All (Avoids protected) interfaces t1 t2 _ e2 q2 in
      let (q0, profiles) = wifi_targets-All (Avoids protected) interfaces t0 t1 _ e1 q1 in
      let (_, entries) = adapter_targets-All (Avoids protected) [] t0 _ e0 q0 in
      (protected, e, (entries, profiles, actions, restarts))
