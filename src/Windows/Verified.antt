-- ===== src/Windows/Verified.antt =====
-- crates/netpland/src/platform/windows/apply.rs: what `NetworkRestore::restore` has verified when it
-- succeeds.
use netplan.Base.{
  ◌==◌, ==_iff, ◌≡◌, ◌≢◌, refl, sym, ap, ◌∙◌, inl, inr, arith, Bool, true, false, not, ◌&&◌, ◌||◌,
  Bool-cases, and-true, some, List, [], ◌∷◌, find, is_nil, all, All, Result, ok, err, ◌++◌, map_err,
  if◌then◌else◌, Text, codes, text_eq_sound,
}
use netplan.Model.{IpAddressInfo}
use netplan.Config.{IpAddr, v4, v6}
use netplan.Platform.{PlatformError, PlatformResult}
use netplan.Platform.Resolve.{AdapterSnapshot, AdapterInventory}
use netplan.Windows.{System}
use netplan.Windows.Calls.{bind-ok, ok-pair, or_fail-ok, ok-err, pure, fail}
use netplan.Windows.Tools.{internal_error, show_v4}
use netplan.Windows.Network.{
  NetworkRestore, adapter_with, list_eq, ip_eq, inventory_or, has_address,
}
use netplan.Windows.Restore.{
  same, capture, restored_matches, verify_restored, restore_settings, remove_targets,
  restore_network, manual_snapshot_matches, address_eq,
}

list_eq_sound :
    {A : Type 0} (eq : A → A → Bool) (sound : (a b : A) → eq a b ≡ true → a ≡ b) (xs ys : List A)
    → list_eq eq xs ys ≡ true
    → xs ≡ ys
list_eq_sound eq sound [] [] h = refl
list_eq_sound eq sound [] (y ∷ ys) h = absurd (ground arith)
list_eq_sound eq sound (x ∷ xs) [] h = absurd (ground arith)
list_eq_sound eq sound (x ∷ xs) (y ∷ ys) h =
    let (now, later) = and-true (eq x y) (list_eq eq xs ys) h in
    cc (sound x y now, list_eq_sound eq sound xs ys later)

ip_eq_sound : (a b : IpAddr) → ip_eq a b ≡ true → a ≡ b
ip_eq_sound (v4 a) (v4 b) h = ap v4 ((==_iff a b).0 h)
ip_eq_sound (v6 a) (v6 b) h = ap v6 ((==_iff a b).0 h)
ip_eq_sound (v4 a) (v6 b) h = absurd (ground arith)
ip_eq_sound (v6 a) (v4 b) h = absurd (ground arith)

address_eq_sound : (a b : IpAddressInfo) → address_eq a b ≡ true → a ≡ b
address_eq_sound a b h =
    let (p, q) = and-true _ _ h in go a b (text_eq_sound _ _ p) ((==_iff _ _).0 q)
  where
    go : (a b : IpAddressInfo) → a.address ≡ b.address → a.prefix_length ≡ b.prefix_length → a ≡ b
    go a b e f = cc

same_sound : (a b : Bool) → same a b ≡ true → a ≡ b
same_sound true b h = sym h
same_sound false true h = absurd (ground arith)
same_sound false false h = refl

-- What an adapter shows agrees with what was captured of it, and with what was to be removed again.
abbrev pub Restored : NetworkRestore → NetworkRestore → Type 0
Restored captured current =
    (current.snapshot.dhcp_enabled ≡ captured.snapshot.dhcp_enabled)
    × (captured.snapshot.manual_ipv4 ≡ []
        → All (λ address. has_address (show_v4 address) current.snapshot ≡ false)
            captured.applied_addresses)
    × (captured.snapshot.manual_ipv4 ≢ []
        → (current.snapshot.manual_ipv4 ≡ captured.snapshot.manual_ipv4)
          × (current.snapshot.gateways ≡ captured.snapshot.gateways))
    × (current.dns_from_dhcp ≡ captured.dns_from_dhcp)
    × (captured.dns_from_dhcp ≡ false → current.snapshot.dns ≡ captured.snapshot.dns)
    × (current.wins_from_dhcp ≡ captured.wins_from_dhcp)
    × (captured.wins_from_dhcp ≡ false → current.snapshot.wins ≡ captured.snapshot.wins)

all-All :
    {A : Type 0} (p : A → Bool) (xs : List A)
    → all (λ x. not (p x)) xs ≡ true
    → All (λ x. p x ≡ false) xs
all-All p [] h = tt
all-All p (x ∷ xs) h =
    let (now, later) = and-true (not (p x)) _ h in (ground arith, all-All p xs later)

source_iff :
    {A : Type 0} (eq : A → A → Bool) (sound : (a b : A) → eq a b ≡ true → a ≡ b) (now then_ : Bool)
    (xs ys : List A)
    → same now then_ && (then_ || list_eq eq xs ys) ≡ true
    → (now ≡ then_) × (then_ ≡ false → xs ≡ ys)
source_iff eq sound now then_ xs ys h =
    let (p, q) = and-true (same now then_) _ h in
    (same_sound now then_ p, λ e. list_eq_sound eq sound xs ys (rw e at q))

is_nil_iff :
    {A : Type 0} (xs : List A) → (is_nil xs ≡ true → xs ≡ []) × (xs ≡ [] → is_nil xs ≡ true)
is_nil_iff [] = (λ h. refl, λ h. refl)
is_nil_iff (x ∷ xs) = (λ h. absurd (ground arith), λ h. absurd (ground arith))

restored_matches-Restored :
    (captured current : NetworkRestore)
    → restored_matches captured current ≡ true
    → Restored captured current
unfolding restored_matches manual_snapshot_matches
restored_matches-Restored captured current h =
    let (h1, wins) = and-true _ _ h in
    let (h2, dns) = and-true _ _ h1 in
    let (sourced, addressed) = and-true _ _ h2 in
    let (dns_source, dns_same) = source_iff ip_eq ip_eq_sound _ _ _ _ dns in
    let (wins_source, wins_same) =
      source_iff (λ a b. a == b) (λ a b. (==_iff a b).0) _ _ _ _ wins in
    (
      same_sound _ _ sourced,
      λ e.
          all-All (λ address. has_address (show_v4 address) current.snapshot)
            captured.applied_addresses
            (rw ((is_nil_iff captured.snapshot.manual_ipv4).1 e) at addressed),
      λ e. elim (Bool-cases (is_nil captured.snapshot.manual_ipv4)) [
        | inl b ↦ absurd (e ((is_nil_iff captured.snapshot.manual_ipv4).0 b))
        | inr b ↦
            let (p, q) = and-true _ _ (rw b at addressed) in
            (
              list_eq_sound address_eq address_eq_sound _ _ p,
              list_eq_sound (λ a b. a == b) (λ a b. (==_iff a b).0) _ _ q,
            )
      ],
      dns_source,
      dns_same,
      wins_source,
      wins_same,
    )

module _ {S : Type 0} (system : System S) where
  listed :
      (context : Text) (s : S) {inventory : AdapterInventory} {v : S}
      → inventory_or system context s ≡ (ok inventory, v)
      → system.enumerate_inventory s ≡ (ok inventory, v)
  listed context s h = go (system.enumerate_inventory s) h
    where
      go :
          {inventory : AdapterInventory} {v : S} (answer : Result Text AdapterInventory × S)
          → ◌≡◌ {A = PlatformResult AdapterInventory × S}
              (
                map_err (λ error. internal_error (context ++ codes " failed: " ++ error)) answer.0,
                answer.1,
              )
              (ok inventory, v)
          → answer ≡ (ok inventory, v)
      go (ok found, u) q = let (a, b) = ok-pair q in cc
      go (err error, u) q = absurd (ok-err (sym q))

  -- The adapter that the last inventory lists, and what is captured of it then.
  abbrev pub Verified : NetworkRestore → S → Type 0
  Verified restore t =
      (u v : S) × (inventory : AdapterInventory) × (adapter : AdapterSnapshot)
      × (current : NetworkRestore) × (system.enumerate_inventory u ≡ (ok inventory, v))
      × (find (λ (a : AdapterSnapshot). a.info.if_index == restore.snapshot.info.if_index)
            inventory.adapters
          ≡ some adapter)
      × (capture system adapter v ≡ (ok current, t))
      × Restored restore current

  if-ok :
      (b : Bool) (error : PlatformError) (s : S) {t : S}
      → (if b then pure tt else fail error) s ≡ (ok tt, t)
      → (b ≡ true) × (s ≡ t)
  if-ok true error s h = (refl, ap (λ p. p.1) h)
  if-ok false error s h = absurd (ok-err (sym h))

  verify_restored-Verified :
      (restore : NetworkRestore) (s t : S)
      → verify_restored system restore restore.snapshot.info.if_index s ≡ (ok tt, t)
      → Verified restore t
  unfolding verify_restored
  verify_restored-Verified restore s t h =
      let (inventory, v, e, h1) =
        bind-ok (inventory_or system (codes "adapter rollback verification")) _ s h in
      let (adapter, w, f, h2) =
        bind-ok (adapter_with system _ (codes "during rollback verification") inventory) _ v h1 in
      let (found, same_state) = or_fail-ok _ _ v f in
      let (current, x, c, h3) = bind-ok (capture system adapter) _ w h2 in
      let (matches, done) = if-ok (restored_matches restore current) _ x h3 in
      (
        s,
        v,
        inventory,
        adapter,
        current,
        listed (codes "adapter rollback verification") s e,
        found,
        ap (capture system adapter) same_state ∙ c ∙ ap (λ y. (ok current, y)) done,
        restored_matches-Restored restore current matches,
      )

  -- When the restoration of an adapter succeeds, the adapter is in the last inventory, and what is
  -- captured of it then agrees with what was captured at first: whether its address comes from DHCP,
  -- the manual addresses and gateways where there were some (and else none of the addresses added),
  -- the sources of its DNS and WINS servers, and those that do not come from DHCP.
  pub restore_network-Verified :
      (restore : NetworkRestore) (s t : S)
      → restore_network system restore s ≡ (ok tt, t)
      → Verified restore t
  unfolding restore_network
  restore_network-Verified restore s t h =
      let (d0, u, e0, h0) = bind-ok (restore_settings system restore) _ s h in
      let (d1, v, e1, h1) = bind-ok (remove_targets system restore) _ u h0 in
      verify_restored-Verified restore v t h1
