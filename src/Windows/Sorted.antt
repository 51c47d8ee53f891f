-- ===== src/Windows/Sorted.antt =====
-- crates/netpland/src/platform/windows.rs: the order of the networks that `wifi_scan` answers.
use netplan.Base.{
  ◌==◌, ltb, ◌≤◌, arith, not, if◌then◌else◌, ◌≡◌, refl, ap, sym, subst, ℕ, Bool, true, false,
  Bool-cases, inl, inr, Option, List, [], ◌∷◌, ok, All, AllPairs, All-map, ◌&&◌,
}
use netplan.Model.{WifiNetwork}
use netplan.Platform.Resolve.{AdapterInventory, Interface}
use netplan.Windows.{System}
use netplan.Windows.Calls.{bind-ok, ok-pair, ok-err}
use netplan.Windows.Radio.{Radio}
use netplan.Windows.Scans.{network_before, sort_networks, place}
use netplan.Windows.Ranking.{network_before_trans, network_before_asym}
use netplan.Windows.Requests.{scan_selected, wifi_scan}

-- The code does not place the second before the first.
abbrev InOrder : WifiNetwork → WifiNetwork → Type 0
InOrder x y = network_before y x ≡ false

All-place :
    (P : WifiNetwork → Type 0) (network : WifiNetwork) (networks : List WifiNetwork)
    → P network
    → All P networks
    → All P (place network networks)
All-place P network [] p ps = (p, tt)
All-place P network (first ∷ rest) p ps = elim (Bool-cases (network_before first network)) [
  | inl e ↦ rw e (ps.0, All-place P network rest p ps.1)
  | inr e ↦ rw e (p, ps)
]

place-AllPairs :
    (network : WifiNetwork) (networks : List WifiNetwork)
    → AllPairs InOrder networks
    → AllPairs InOrder (place network networks)
place-AllPairs network [] h = (tt, tt)
place-AllPairs network (first ∷ rest) h = elim (Bool-cases (network_before first network)) [
  | inl e ↦ rw e (
    All-place (InOrder first) network rest (network_before_asym first network e) h.0,
    place-AllPairs network rest h.1,
  )
  | inr e ↦ rw e (
    (
      e,
      All-map (InOrder first) (InOrder network)
          (λ later l. network_before_trans network first later e l) rest h.0,
    ),
    h,
  )
]

sort_networks-AllPairs : (networks : List WifiNetwork) → AllPairs InOrder (sort_networks networks)
unfolding sort_networks
sort_networks-AllPairs [] = tt
sort_networks-AllPairs (network ∷ networks) =
    place-AllPairs network (sort_networks networks) (sort_networks-AllPairs networks)

-- A connected network stands before the others, and of two that are both connected, or both not, the
-- first has at least the signal of the second.
abbrev pub Ranked : WifiNetwork → WifiNetwork → Type 0
Ranked x y =
    (y.connected ≡ true → x.connected ≡ true)
    × (x.connected ≡ y.connected → y.signal_quality ≤ x.signal_quality)

signals-ranked : (m n : ℕ) (s : Bool) → (if not (n == m) then ltb m n else s) ≡ false → n ≤ m
signals-ranked m n s h = elim (Bool-cases (n == m)) [
  | inl e ↦ ground arith
  | inr e ↦ let k : ltb m n ≡ false = rw e at h in ground arith
]

rank-connected :
    (a b : Bool) (m n : ℕ) (s : Bool)
    → (s ≡ false → n ≤ m)
    → (if b && not a then true else if a && not b then false else s) ≡ false
    → (b ≡ true → a ≡ true) × (a ≡ b → n ≤ m)
rank-connected true true m n s f h = (λ e. refl, λ e. f h)
rank-connected true false m n s f h = (λ e. refl, λ e. absurd (ground arith))
rank-connected false true m n s f h = absurd (ground arith)
rank-connected false false m n s f h = (λ e. e, λ e. f h)

InOrder-Ranked : (x y : WifiNetwork) → InOrder x y → Ranked x y
unfolding network_before
InOrder-Ranked x y =
    rank-connected x.connected y.connected _ _ _
      (signals-ranked x.signal_quality y.signal_quality _)

AllPairs-Ranked :
    (networks : List WifiNetwork) → AllPairs InOrder networks → AllPairs Ranked networks
AllPairs-Ranked [] h = tt
AllPairs-Ranked (x ∷ xs) h =
    (All-map (InOrder x) (Ranked x) (InOrder-Ranked x) xs h.0, AllPairs-Ranked xs h.1)

module _ {S : Type 0} (system : System S) (radio : Radio S) where
  scan_selected-AllPairs :
      (inventory : AdapterInventory) (refresh : Bool) (ms : ℕ) (split : List Interface × List ℕ)
      (s : S) {refreshed : Bool} {networks : List WifiNetwork} {t : S}
      → scan_selected system radio inventory refresh ms split s ≡ (ok (refreshed, networks), t)
      → AllPairs InOrder networks
  scan_selected-AllPairs inventory refresh ms ([], radio_off) s h = absurd (ok-err (sym h))
  scan_selected-AllPairs inventory refresh ms (first ∷ scannable, radio_off) s h =
      let (answer, u, e, g) = bind-ok _ _ s h in
      subst (AllPairs InOrder) (ap (λ p. p.1) (ok-pair g).0) (sort_networks-AllPairs answer.1)

  -- Where a scan request is answered, the networks of the answer are ranked: of any two of them, a
  -- connected one stands before one that is not, and where both are connected, or neither is, the
  -- earlier has at least the signal quality of the later.
  pub wifi_scan-Ranked :
      (if_index : Option ℕ) (refresh : Bool) (ms : ℕ) (s : S) {refreshed : Bool}
      {networks : List WifiNetwork} {t : S}
      → wifi_scan system radio if_index refresh ms s ≡ (ok (refreshed, networks), t)
      → AllPairs Ranked networks
  unfolding wifi_scan
  wifi_scan-Ranked if_index refresh ms s h =
      let (inventory, s1, e1, h1) = bind-ok _ _ s h in
      let (opened, s2, e2, h2) = bind-ok _ _ s1 h1 in
      let (interfaces, s3, e3, h3) = bind-ok _ _ s2 h2 in
      let (selected, s4, e4, h4) = bind-ok _ _ s3 h3 in
      let (split, s5, e5, h5) = bind-ok _ _ s4 h4 in
      AllPairs-Ranked _ (scan_selected-AllPairs inventory refresh ms split s5 h5)
