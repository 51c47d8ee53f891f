-- ===== src/Plan/Parts.antt =====
-- The identity and adapter operations of a plan: their places and their identifiers.
use netplan.Base.{
  subst, sym, ◌∙◌, ℕ, ◌≤◌, ◌<◌, ◌≡◌, ◌≢◌, refl, ap, arith, Bool, true, false, Option, none, some,
  List, [], ◌∷◌, ◌++◌, Text, codes, length, drop, All, AllPairs, All-append, All-map,
}
use netplan.Config.{IdentityConfig, AdapterConfig, Ipv4Config}
use netplan.Plan.{Operation, Wording, decimal, indexed, when_some}
use netplan.Plan.Decimal.{stops, after_digits, read-decimal, after-decimal}
use netplan.Plan.Order.{place, index_at, Block, indexed-Block}
use netplan.Plan.Operations.{
  identity_operations, adapter_operations, state_if, adapter_state, adapter_mac, adapter_ipv4,
}

abbrev pub Placed : ℕ → List Operation → Type 0
Placed k = All (λ (op : Operation). place op.id ≡ k)

abbrev pub Different : List Operation → Type 0
Different = AllPairs (λ (a : Operation) (b : Operation). a.id ≢ b.id)

abbrev pub Indexed : ℕ → ℕ → List Operation → Type 0
Indexed width i = All (λ (op : Operation). index_at width op.id ≡ i)

-- Identifiers of one adapter with different ends are different.
ends-ne :
    (i : ℕ) (s t : Text)
    → stops s ≡ true
    → stops t ≡ true
    → s ≢ t
    → codes "adapter." ++ (decimal i ++ s) ≢ codes "adapter." ++ (decimal i ++ t)
ends-ne i s t hs ht ne e =
    ne (sym (after-decimal i s hs) ∙ ap (λ id. after_digits (drop 8 id)) e ∙ after-decimal i t ht)

optional-All :
    {A : Type 0} (P : Operation → Type 0) (f : A → Operation) (o : Option A)
    → ((a : A) → P (f a))
    → All P (when_some (λ a. f a ∷ []) o)
optional-All P f none h = tt
optional-All P f (some a) h = (h a, tt)

optional-Different :
    {A : Type 0} (f : A → Operation) (o : Option A) → Different (when_some (λ a. f a ∷ []) o)
optional-Different f none = tt
optional-Different f (some a) = (tt, tt)

-- Operations whose identifiers satisfy predicates that no text satisfies both.
Different-append :
    (P Q : Text → Type 0) (xs ys : List Operation)
    → ((id : Text) → P id → Q id → ⊥)
    → All (λ (x : Operation). P x.id) xs
    → All (λ (y : Operation). Q y.id) ys
    → Different xs
    → Different ys
    → Different (xs ++ ys)
Different-append P Q [] ys n p q d e = e
Different-append P Q (x ∷ xs) ys n p q d e = (
  All-append _ xs ys d.0 (All-map _ _ (λ y qy same. n x.id p.0 (subst Q (sym same) qy)) ys q),
  Different-append P Q xs ys n p.1 q d.1 e,
)

module _ (w : Wording) where
  pub identity-Block :
      (identity : Option IdentityConfig) → Block 1 (when_some (identity_operations w) identity)
  unfolding identity_operations
  identity-Block none = record { placed = tt; different = tt }
  identity-Block (some identity) = record {
    placed = All-append _ _ _ (optional-All _ _ identity.computer_name (λ v. refl)) (
        All-append _ _ _ (optional-All _ _ identity.workgroup (λ v. refl))
          (optional-All _ _ identity.dns_suffix (λ v. refl)));
    different =
        Different-append (λ id. length id ≡ 22) (λ id. length id < 21) _ _ (λ id p q. omega arith)
          (optional-All _ _ identity.computer_name (λ v. refl))
          (All-append _ _ _ (optional-All _ _ identity.workgroup (λ v. omega arith))
            (optional-All _ _ identity.dns_suffix (λ v. omega arith)))
          (optional-Different _ identity.computer_name)
          (Different-append (λ id. length id ≡ 18) (λ id. length id ≡ 19) _ _
            (λ id p q. omega arith) (optional-All _ _ identity.workgroup (λ v. refl))
            (optional-All _ _ identity.dns_suffix (λ v. refl))
            (optional-Different _ identity.workgroup) (optional-Different _ identity.dns_suffix));
  }

  module _ (target : Text) (i : ℕ) where
    state-All :
        (P : Operation → Type 0) (wanted : Bool) (enabled : Option Bool)
        → ((b : Bool) → P (adapter_state w i b target))
        → All P (state_if w i wanted enabled target)
    state-All P true (some true) h = (h true, tt)
    state-All P true (some false) h = tt
    state-All P true none h = tt
    state-All P false (some true) h = tt
    state-All P false (some false) h = (h false, tt)
    state-All P false none h = tt

    adapter_list : Option Bool → Option Text → Option Ipv4Config → List Operation
    adapter_list enabled mac ipv4 =
        state_if w i true enabled target
        ++ (when_some (λ m. adapter_mac w i target m ∷ []) mac
            ++ (when_some (λ v. adapter_ipv4 w i target v ∷ []) ipv4
                ++ state_if w i false enabled target))

    adapter_list-All :
        (P : Text → Type 0) (enabled : Option Bool) (mac : Option Text) (ipv4 : Option Ipv4Config)
        → P (codes "adapter." ++ (decimal i ++ codes ".enabled"))
        → P (codes "adapter." ++ (decimal i ++ codes ".mac"))
        → P (codes "adapter." ++ (decimal i ++ codes ".ipv4"))
        → All (λ (op : Operation). P op.id) (adapter_list enabled mac ipv4)
    unfolding adapter_list adapter_state adapter_mac adapter_ipv4
    adapter_list-All P enabled mac ipv4 e m v =
        All-append _ _ _ (state-All _ true enabled (λ b. e)) (
          All-append _ _ _ (optional-All _ _ mac (λ x. m)) (
            All-append _ _ _ (optional-All _ _ ipv4 (λ x. v)) (state-All _ false enabled (λ b. e))))

    -- The length of what stands behind the index of an adapter's operation.
    abbrev end_length : Text → ℕ
    end_length id = length (after_digits (drop 8 id))

    end-length :
        (s : Text) → stops s ≡ true → end_length (codes "adapter." ++ (decimal i ++ s)) ≡ length s
    end-length s h = ap length (after-decimal i s h)

    settings-Different :
        (mac : Option Text) (ipv4 : Option Ipv4Config) (last : List Operation)
        → All (λ (op : Operation). end_length op.id ≡ 8) last
        → Different last
        → Different (
            when_some (λ m. adapter_mac w i target m ∷ []) mac
            ++ (when_some (λ v. adapter_ipv4 w i target v ∷ []) ipv4 ++ last))
    unfolding adapter_mac adapter_ipv4
    settings-Different mac ipv4 last at d =
        Different-append (λ id. end_length id ≡ 4) (λ id. 5 ≤ end_length id) _ _
          (λ id p q. omega arith) (optional-All _ _ mac (λ m. end-length (codes ".mac") refl))
          (All-append _ _ last
            (optional-All _ _ ipv4 (λ v. omega (arith, end-length (codes ".ipv4") refl)))
            (All-map _ _ (λ op e. omega (arith, e)) last at))
          (optional-Different _ mac)
          (Different-append (λ id. end_length id ≡ 5) (λ id. end_length id ≡ 8) _ last
            (λ id p q. omega arith) (optional-All _ _ ipv4 (λ v. end-length (codes ".ipv4") refl))
            at (optional-Different _ ipv4) d)

    adapter_list-Different :
        (enabled : Option Bool) (mac : Option Text) (ipv4 : Option Ipv4Config)
        → Different (adapter_list enabled mac ipv4)
    unfolding adapter_list adapter_state adapter_mac adapter_ipv4
    adapter_list-Different (some true) mac ipv4 = (
      All-append _ _ _ (optional-All _ _ mac (λ m. ends-ne i _ _ refl refl (λ e. cc)))
          (All-append _ _ [] (optional-All _ _ ipv4 (λ v. ends-ne i _ _ refl refl (λ e. cc))) tt),
      settings-Different mac ipv4 [] tt tt,
    )
    adapter_list-Different (some false) mac ipv4 =
        settings-Different mac ipv4 _ (end-length (codes ".enabled") refl, tt) (tt, tt)
    adapter_list-Different none mac ipv4 = settings-Different mac ipv4 [] tt tt

  pub adapter-Block :
      (i : ℕ) (xs : List AdapterConfig) → Block 2 (indexed (adapter_operations w) i xs)
  unfolding adapter_operations adapter_list
  adapter-Block =
      indexed-Block (adapter_operations w) 8 2
        (λ i (x : AdapterConfig).
          adapter_list-All _ i (λ id. index_at 8 id ≡ i) x.enabled x.mac_address x.ipv4
            (read-decimal i _ refl) (read-decimal i _ refl) (read-decimal i _ refl))
        (λ i (x : AdapterConfig). adapter_list-Different _ i x.enabled x.mac_address x.ipv4)
        (λ i (x : AdapterConfig).
          adapter_list-All _ i (λ id. place id ≡ 2) x.enabled x.mac_address x.ipv4 refl refl refl)
