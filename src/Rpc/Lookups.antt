-- ===== src/Rpc/Lookups.antt =====
-- crates/netplan-cli/src/jsonrpc.rs: what `required_capabilities` and `get_adapter` find.
use netplan.Base.{
  ◌≡◌, ◌≢◌, ◌↔◌, ◌⊎◌, inl, inr, refl, sym, ap, ◌∙◌, subst, arith, Bool, true, false, Bool-cases,
  List, [], ◌∷◌, ◌++◌, any, keep, All, AllPairs, Any, All-append, All-map, any-false, Text, text_eq,
  text_eq_sound, text_eq_refl, Unicode, ok,
}
use netplan.Model.{AdapterInfo}
use netplan.Plan.{Operation}
use netplan.Protocol.{Response}
use netplan.Protocol
use netplan.Rpc.{Value, AdapterSelectorParams, Serde}
use netplan.Rpc.Answers.{required_from, required_capabilities, adapter_matches}
use netplan.Rpc.Gateway.{Host, done, only_match, get_adapter}

abbrev pub Distinct : List Text → Type 0
Distinct = AllPairs (λ a b. a ≢ b)

-- The text is one of the list.
abbrev pub Listed : Text → List Text → Type 0
Listed c texts = Any (λ d. d ≡ c) texts

-- An operation needs the capability.
abbrev pub Needed : Text → List Operation → Type 0
Needed c operations = Any (λ (o : Operation). o.capability ≡ c) operations

Distinct-snoc :
    (xs : List Text) (y : Text) → Distinct xs → All (λ x. x ≢ y) xs → Distinct (xs ++ y ∷ [])
Distinct-snoc [] y d n = (tt, tt)
Distinct-snoc (x ∷ xs) y d n =
    (All-append (λ z. x ≢ z) xs (y ∷ []) d.0 (n.0, tt), Distinct-snoc xs y d.1 n.1)

of_snoc : (c y : Text) (xs : List Text) → Listed c (xs ++ y ∷ []) → Listed c xs ⊎ (y ≡ c)
of_snoc c y [] (inl e) = inr e
of_snoc c y [] (inr b) = absurd b
of_snoc c y (x ∷ xs) (inl e) = inl (inl e)
of_snoc c y (x ∷ xs) (inr m) = elim (of_snoc c y xs m) [ inl l ↦ inl (inr l) | inr e ↦ inr e ]

to_snoc : (c y : Text) (xs : List Text) → Listed c xs ⊎ (y ≡ c) → Listed c (xs ++ y ∷ [])
to_snoc c y [] (inl b) = absurd b
to_snoc c y [] (inr e) = inl e
to_snoc c y (x ∷ xs) (inl (inl e)) = inl e
to_snoc c y (x ∷ xs) (inl (inr m)) = inr (to_snoc c y xs (inl m))
to_snoc c y (x ∷ xs) (inr e) = inr (to_snoc c y xs (inr e))

-- Whether the loop has found a capability before
abbrev found : List Text → Text → Bool
found capabilities capability = any (λ c. text_eq c capability) capabilities

found-Listed :
    (capabilities : List Text) (c : Text) → found capabilities c ≡ true → Listed c capabilities
found-Listed [] c h = cc
found-Listed (x ∷ xs) c h = elim (Bool-cases (text_eq x c)) [
  | inl e ↦ inl (text_eq_sound x c e)
  | inr e ↦ inr (found-Listed xs c (rw e at h))
]

not_found-All :
    (capabilities : List Text) (c : Text)
    → found capabilities c ≡ false
    → All (λ x. x ≢ c) capabilities
not_found-All capabilities c h =
    All-map (λ x. text_eq x c ≡ false) (λ x. x ≢ c)
      (λ x e p. let k = subst (λ t. text_eq x t ≡ true) p (text_eq_refl x) in cc) capabilities
      (any-false (λ x. text_eq x c) capabilities h)

required_from-Distinct :
    (capabilities : List Text) (operations : List Operation)
    → Distinct capabilities
    → Distinct (required_from capabilities operations)
required_from-Distinct capabilities [] d = d
required_from-Distinct capabilities (o ∷ os) d =
    elim (Bool-cases (found capabilities o.capability)) [
      | inl old ↦ rw old (required_from-Distinct capabilities os d)
      | inr new ↦ rw new (
          required_from-Distinct (capabilities ++ o.capability ∷ []) os (
            Distinct-snoc capabilities o.capability d
              (not_found-All capabilities o.capability new)))
    ]

required_from-Needed :
    (c : Text) (capabilities : List Text) (operations : List Operation)
    → Listed c (required_from capabilities operations)
    → Listed c capabilities ⊎ Needed c operations
required_from-Needed c capabilities [] h = inl h
required_from-Needed c capabilities (o ∷ os) h =
    elim (Bool-cases (found capabilities o.capability)) [
      | inl old ↦ elim (required_from-Needed c capabilities os (rw old at h)) [
        | inl l ↦ inl l
        | inr n ↦ inr (inr n)
      ]
      | inr new ↦
          elim (required_from-Needed c (capabilities ++ o.capability ∷ []) os (rw new at h)) [
            | inl l ↦ elim (of_snoc c o.capability capabilities l) [
              | inl m ↦ inl m
              | inr e ↦ inr (inl e)
            ]
            | inr n ↦ inr (inr n)
          ]
    ]

Needed-required_from :
    (c : Text) (capabilities : List Text) (operations : List Operation)
    → Listed c capabilities ⊎ Needed c operations
    → Listed c (required_from capabilities operations)
Needed-required_from c capabilities [] (inl l) = l
Needed-required_from c capabilities [] (inr n) = absurd n
Needed-required_from c capabilities (o ∷ os) h =
    elim (Bool-cases (found capabilities o.capability)) [
      | inl old ↦
          rw old (Needed-required_from c capabilities os (after_old c o capabilities os old h))
      | inr new ↦ rw new (
          Needed-required_from c (capabilities ++ o.capability ∷ []) os
            (after_new c o capabilities os h))
    ]
  where
    after_old :
        (c : Text) (o : Operation) (capabilities : List Text) (os : List Operation)
        → found capabilities o.capability ≡ true
        → Listed c capabilities ⊎ Needed c (o ∷ os)
        → Listed c capabilities ⊎ Needed c os
    after_old c o capabilities os old (inl l) = inl l
    after_old c o capabilities os old (inr (inl e)) =
        inl (subst (λ d. Listed d capabilities) e (found-Listed capabilities o.capability old))
    after_old c o capabilities os old (inr (inr n)) = inr n

    after_new :
        (c : Text) (o : Operation) (capabilities : List Text) (os : List Operation)
        → Listed c capabilities ⊎ Needed c (o ∷ os)
        → Listed c (capabilities ++ o.capability ∷ []) ⊎ Needed c os
    after_new c o capabilities os (inl l) = inl (to_snoc c o.capability capabilities (inl l))
    after_new c o capabilities os (inr (inl e)) = inl (to_snoc c o.capability capabilities (inr e))
    after_new c o capabilities os (inr (inr n)) = inr n

-- The capabilities that a plan is said to require are those of its operations, each once.
required_capabilities-Needed :
    (operations : List Operation)
    → Distinct (required_capabilities operations)
      × ((c : Text) → Listed c (required_capabilities operations) ↔ Needed c operations)
unfolding required_capabilities
required_capabilities-Needed operations = (
  required_from-Distinct [] operations tt,
  (λ c. (
    (λ l. elim (required_from-Needed c [] operations l) [ inl b ↦ absurd b | inr n ↦ n ]),
    (λ n. Needed-required_from c [] operations (inr n)),
  )),
)

-- Of the list, exactly one adapter satisfies the test.
abbrev pub OnlyOne : (AdapterInfo → Bool) → List AdapterInfo → AdapterInfo → Type 0
OnlyOne p adapters adapter =
    (before : List AdapterInfo) × (after : List AdapterInfo) × (adapters
      ≡ before ++ adapter ∷ after)
    × All (λ a. p a ≡ false) before
    × (p adapter ≡ true)
    × All (λ a. p a ≡ false) after

module _ (p : AdapterInfo → Bool) where
  keep-true :
      (x : AdapterInfo) (xs : List AdapterInfo) → p x ≡ true → keep p (x ∷ xs) ≡ x ∷ keep p xs
  keep-true x xs e = rw (e, keep) refl

  keep-false : (x : AdapterInfo) (xs : List AdapterInfo) → p x ≡ false → keep p (x ∷ xs) ≡ keep p xs
  keep-false x xs e = rw (e, keep) refl

  keep-none : (xs : List AdapterInfo) → keep p xs ≡ [] → All (λ a. p a ≡ false) xs
  keep-none [] h = tt
  keep-none (x ∷ xs) h = elim (Bool-cases (p x)) [
    | inl e ↦ let k : x ∷ keep p xs ≡ [] = sym (keep-true x xs e) ∙ h in absurd (ground arith)
    | inr e ↦ (e, keep-none xs (sym (keep-false x xs e) ∙ h))
  ]

  none-keep : (xs : List AdapterInfo) → All (λ a. p a ≡ false) xs → keep p xs ≡ []
  none-keep [] h = refl
  none-keep (x ∷ xs) h = keep-false x xs h.0 ∙ none-keep xs h.1

  keep-OnlyOne : (xs : List AdapterInfo) (a : AdapterInfo) → keep p xs ≡ a ∷ [] → OnlyOne p xs a
  keep-OnlyOne [] a h = absurd (ground arith)
  keep-OnlyOne (x ∷ xs) a h = elim (Bool-cases (p x)) [
    | inl e ↦
        let k : x ∷ keep p xs ≡ a ∷ [] = sym (keep-true x xs e) ∙ h in
        let same : x ≡ a = cc in
        let rest : keep p xs ≡ [] = cc in
        ([], xs, ap (λ y. y ∷ xs) same, tt, subst (λ y. p y ≡ true) same e, keep-none xs rest)
    | inr e ↦
        let (before, after, split, none_before, matches, none_after) =
          keep-OnlyOne xs a (sym (keep-false x xs e) ∙ h) in
        (x ∷ before, after, ap (λ ys. x ∷ ys) split, (e, none_before), matches, none_after)
  ]

  OnlyOne-keep :
      (before after : List AdapterInfo) (a : AdapterInfo)
      → All (λ b. p b ≡ false) before
      → p a ≡ true
      → All (λ b. p b ≡ false) after
      → keep p (before ++ a ∷ after) ≡ a ∷ []
  OnlyOne-keep [] after a b m n = keep-true a after m ∙ ap (λ ys. a ∷ ys) (none-keep after n)
  OnlyOne-keep (x ∷ before) after a b m n =
      keep-false x (before ++ a ∷ after) b.0 ∙ OnlyOne-keep before after a b.1 m n

module _ {S : Type 0} (serde : Serde) (unicode : Unicode) (host : Host S) where
  only_match-done :
      (selector : AdapterSelectorParams) (matches : List AdapterInfo) (value : Value)
      → only_match serde selector matches ≡ done value
      → (a : AdapterInfo) × (matches ≡ a ∷ []) × (value ≡ serde.adapter a)
  only_match-done selector [] value h = absurd (ground arith)
  only_match-done selector (a ∷ []) value h = (a, refl, cc)
  only_match-done selector (a ∷ b ∷ rest) value h = absurd (ground arith)

  -- Where the daemon has given its adapters, `get_adapter` answers with a value exactly when one of
  -- them, and no other, matches the selector, and the value is that adapter.
  pub get_adapter-OnlyOne :
      (selector : AdapterSelectorParams) (s t : S) (adapters : List AdapterInfo) (value : Value)
      → host.call_daemon Protocol.list_adapters s ≡ (ok (Protocol.adapters adapters), t)
      → (get_adapter serde unicode host selector s).0 ≡ done value ↔ (
          (a : AdapterInfo) × OnlyOne (λ b. adapter_matches unicode b selector) adapters a
          × (value ≡ serde.adapter a))
  unfolding get_adapter
  get_adapter-OnlyOne selector s t adapters value h =
      let p = λ (b : AdapterInfo). adapter_matches unicode b selector in
      rw h (
        (λ e.
            let (a, one, v) = only_match-done selector (keep p adapters) value e in
            (a, keep-OnlyOne p adapters a one, v)),
        (λ found.
            let (a, (before, after, split, b, m, n), v) = found in
            let kept : keep p adapters ≡ a ∷ [] = rw split (OnlyOne-keep p before after a b m n) in
            rw (kept, v) refl),
      )
