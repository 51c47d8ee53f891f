-- ===== src/Plan/Order.antt =====
-- The place that an operation's identifier gives it, and lists in the order of their places.
use netplan.Base.{
  ap, ℕ, suc, ◌≤◌, ◌<◌, ◌≡◌, ◌≢◌, arith, List, [], ◌∷◌, ◌++◌, if◌then◌else◌, Text, codes, text_eq,
  starts_with, drop, All, AllPairs, All-append, All-map,
}
use netplan.Plan.{Operation, indexed}
use netplan.Plan.Decimal.{read, after_digits}

-- The stage of a hook by the end of its identifier.
abbrev pub stage_place : Text → ℕ
stage_place name =
    if text_eq name (codes ".before_apply")
    then 0
    else if text_eq name (codes ".after_apply")
    then 11
    else 12

-- The place of an operation in the order of execution, by the front of its identifier: hooks before
-- the apply, identity, adapters, Wi-Fi profiles, Wi-Fi actions, services, accounts, shares,
-- mappings, firewall, drivers, hooks after the apply, hooks after a rollback.
abbrev pub place : Text → ℕ
place id =
    if starts_with (codes "hook.") id
    then stage_place (after_digits (drop 5 id))
    else if starts_with (codes "identity.") id
    then 1
    else if starts_with (codes "adapter.") id
    then 2
    else if starts_with (codes "wifi.profile.") id
    then 3
    else if starts_with (codes "wifi.action.") id
    then 4
    else if starts_with (codes "service.") id
    then 5
    else if starts_with (codes "smb.account.") id
    then 6
    else if starts_with (codes "smb.share.") id
    then 7
    else if starts_with (codes "smb.mapping.") id
    then 8
    else if starts_with (codes "firewall.") id
    then 9
    else 10

-- The index in an identifier, behind a prefix of `k` characters.
abbrev pub index_at : ℕ → Text → ℕ
index_at k id = read (drop k id)

-- The earlier operation does not belong behind the later one, and has another identifier.
abbrev pub Precedes : Operation → Operation → Type 0
Precedes a b = (place a.id ≤ place b.id) × (a.id ≢ b.id)

-- Operations of one place, with different identifiers.
pub record Block (k : ℕ) (ops : List Operation) : Type 0 where
  pub placed : All (λ (op : Operation). place op.id ≡ k) ops
  pub different : AllPairs (λ (a : Operation) (b : Operation). a.id ≢ b.id) ops

-- Operations in order, none of them before the place `k`.
pub record From (k : ℕ) (ops : List Operation) : Type 0 where
  pub bounded : All (λ (op : Operation). k ≤ place op.id) ops
  pub ordered : AllPairs Precedes ops

Block-ordered :
    (k : ℕ) (ops : List Operation)
    → All (λ (op : Operation). place op.id ≡ k) ops
    → AllPairs (λ (a : Operation) (b : Operation). a.id ≢ b.id) ops
    → AllPairs Precedes ops
Block-ordered k [] p d = tt
Block-ordered k (op ∷ ops) p d = (pairs ops p.1 d.0, Block-ordered k ops p.1 d.1)
  where
    pairs :
        (xs : List Operation)
        → All (λ (x : Operation). place x.id ≡ k) xs
        → All (λ (x : Operation). op.id ≢ x.id) xs
        → All (Precedes op) xs
    pairs [] q n = tt
    pairs (x ∷ xs) q n = ((omega (arith, p.0, q.0), n.0), pairs xs q.1 n.1)

across :
    (k m : ℕ) (op : Operation) (ys : List Operation)
    → k < m
    → place op.id ≡ k
    → All (λ (y : Operation). m ≤ place y.id) ys
    → All (Precedes op) ys
across k m op [] h p b = tt
across k m op (y ∷ ys) h p b = (
  (omega (arith, p, b.0), λ e. absurd (omega (arith, p, b.0, ap place e))),
  across k m op ys h p b.1,
)

AllPairs-append :
    (k m : ℕ) (xs ys : List Operation)
    → k < m
    → All (λ (x : Operation). place x.id ≡ k) xs
    → AllPairs Precedes xs
    → All (λ (y : Operation). m ≤ place y.id) ys
    → AllPairs Precedes ys
    → AllPairs Precedes (xs ++ ys)
AllPairs-append k m [] ys h p d b e = e
AllPairs-append k m (x ∷ xs) ys h p d b e = (
  All-append (Precedes x) xs ys d.0 (across k m x ys h p.0 b),
  AllPairs-append k m xs ys h p.1 d.1 b e,
)

pub Block-append :
    (k m : ℕ) (xs ys : List Operation) → k < m → Block k xs → From m ys → From k (xs ++ ys)
Block-append k m xs ys h b f = record {
  bounded =
      All-append _ xs ys (All-map _ _ (λ op e. omega (arith, e)) xs b.placed)
        (All-map _ _ (λ op e. omega (arith, e)) ys f.bounded);
  ordered =
      AllPairs-append k m xs ys h b.placed (Block-ordered k xs b.placed b.different) f.bounded
        f.ordered;
}

pub From-nil : (k : ℕ) → From k []
From-nil k = record { bounded = tt; ordered = tt }

-- A loop over indexed elements whose operations carry their index behind a prefix.
module _ {ℓ} {A : Type ℓ} (f : ℕ → A → List Operation) (width : ℕ)
    (each : (i : ℕ) (x : A) → All (λ (op : Operation). index_at width op.id ≡ i) (f i x))
    (own : (i : ℕ) (x : A)
      → AllPairs (λ (a : Operation) (b : Operation). a.id ≢ b.id) (f i x)) where
  pub indexed-after :
      (i : ℕ) (xs : List A) → All (λ (op : Operation). i ≤ index_at width op.id) (indexed f i xs)
  indexed-after i [] = tt
  indexed-after i (x ∷ xs) =
      All-append _ (f i x) _ (All-map _ _ (λ op e. omega (arith, e)) (f i x) (each i x))
        (All-map _ _ (λ op e. omega (arith, e)) _ (indexed-after (suc i) xs))

  later :
      (i : ℕ) (op : Operation) (ys : List Operation)
      → index_at width op.id ≡ i
      → All (λ (y : Operation). suc i ≤ index_at width y.id) ys
      → All (λ (y : Operation). op.id ≢ y.id) ys
  later i op [] e h = tt
  later i op (y ∷ ys) e h =
      (λ p. absurd (omega (arith, e, h.0, ap (index_at width) p)), later i op ys e h.1)

  join :
      (i : ℕ) (xs ys : List Operation)
      → All (λ (x : Operation). index_at width x.id ≡ i) xs
      → AllPairs (λ (a : Operation) (b : Operation). a.id ≢ b.id) xs
      → All (λ (y : Operation). suc i ≤ index_at width y.id) ys
      → AllPairs (λ (a : Operation) (b : Operation). a.id ≢ b.id) ys
      → AllPairs (λ (a : Operation) (b : Operation). a.id ≢ b.id) (xs ++ ys)
  join i [] ys e d h n = n
  join i (x ∷ xs) ys e d h n =
      (All-append _ xs ys d.0 (later i x ys e.0 h), join i xs ys e.1 d.1 h n)

  pub indexed-different :
      (i : ℕ) (xs : List A)
      → AllPairs (λ (a : Operation) (b : Operation). a.id ≢ b.id) (indexed f i xs)
  indexed-different i [] = tt
  indexed-different i (x ∷ xs) =
      join i (f i x) _ (each i x) (own i x) (indexed-after (suc i) xs)
        (indexed-different (suc i) xs)

-- The same loop, each of whose operations has the place `k`.
pub indexed-Block {ℓ} :
    {A : Type ℓ} (f : ℕ → A → List Operation) (width k : ℕ)
    → ((i : ℕ) (x : A) → All (λ (op : Operation). index_at width op.id ≡ i) (f i x))
    → ((i : ℕ) (x : A) → AllPairs (λ (a : Operation) (b : Operation). a.id ≢ b.id) (f i x))
    → ((i : ℕ) (x : A) → All (λ (op : Operation). place op.id ≡ k) (f i x))
    → (i : ℕ) (xs : List A) → Block k (indexed f i xs)
indexed-Block f width k each own at i xs = record {
  placed = placed i xs;
  different = indexed-different f width each own i xs;
}
  where
    placed : (j : ℕ) (ys : List _) → All (λ (op : Operation). place op.id ≡ k) (indexed f j ys)
    placed j [] = tt
    placed j (y ∷ ys) = All-append _ (f j y) _ (at j y) (placed (suc j) ys)

pub Block-From : (k : ℕ) (ops : List Operation) → Block k ops → From k ops
Block-From k ops b = record {
  bounded = All-map _ _ (λ op e. omega (arith, e)) ops b.placed;
  ordered = Block-ordered k ops b.placed b.different;
}
