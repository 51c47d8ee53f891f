-- ===== src/Daemon/Reordering.antt =====
-- crates/netpland/src/main.rs: folds over the table of jobs in another order, and the order in which
-- `list_jobs` sorts.
use netplan.Base.{
  ℕ, ◌≡◌, ◌≢◌, inl, inr, refl, ap, ◌∙◌, subst, arith, true, false, Bool-cases, List, [], ◌∷◌, All,
  AllPairs, bytes,
}
use mathlib.Core.List.{Permᴰ, foldr}
use netplan.Protocol.{JobSummary}
use netplan.Daemon.Jobs.{bytes_before, comes_before, insert_sorted}
use netplan.Daemon.Listing.{comes_before-asym, comes_before_trans}

module _ {A : Type 0} where
  All-Permᴰ : (P : A → Type 0) {xs ys : List A} → Permᴰ xs ys → All P xs → All P ys
  All-Permᴰ P Permᴰ.nil h = h
  All-Permᴰ P (Permᴰ.cons e p) h = (subst P e h.0, All-Permᴰ P p h.1)
  All-Permᴰ P (Permᴰ.swap e f) h = (subst P f h.1.0, (subst P e h.0, h.1.1))
  All-Permᴰ P (Permᴰ.trans p q) h = All-Permᴰ P q (All-Permᴰ P p h)

  module _ (R : A → A → Type 0) (sym_R : (a b : A) → R a b → R b a) where
    pub AllPairs-Permᴰ : {xs ys : List A} → Permᴰ xs ys → AllPairs R xs → AllPairs R ys
    AllPairs-Permᴰ Permᴰ.nil h = h
    AllPairs-Permᴰ (Permᴰ.cons {l₂ = ys} e p) h =
        (subst (λ a. All (R a) ys) e (All-Permᴰ (R _) p h.0), AllPairs-Permᴰ p h.1)
    AllPairs-Permᴰ (Permᴰ.swap {a = a} {b = b} {b' = b'} {l = l} e f) ((r, ra), (rb, rest)) =
        let swapped : AllPairs R (b ∷ a ∷ l) = ((sym_R a b r, rb), (ra, rest)) in
        subst (λ x. AllPairs R (x ∷ b' ∷ l)) f (subst (λ x. AllPairs R (b ∷ x ∷ l)) e swapped)
    AllPairs-Permᴰ (Permᴰ.trans p q) h = AllPairs-Permᴰ q (AllPairs-Permᴰ p h)

    -- A fold whose steps commute for elements that are apart
    pub foldr-Permᴰ :
        {B : Type 0} (f : A → B → B) (z : B)
        → ((a b : A) (x : B) → R a b → f a (f b x) ≡ f b (f a x))
        → {xs ys : List A} → Permᴰ xs ys
        → AllPairs R xs
        → foldr f z xs ≡ foldr f z ys
    foldr-Permᴰ f z comm Permᴰ.nil h = refl
    foldr-Permᴰ f z comm (Permᴰ.cons e p) h = rw (e, foldr-Permᴰ f z comm p h.1) refl
    foldr-Permᴰ f z comm (Permᴰ.swap e g) h = rw (← e, ← g) (comm _ _ _ h.0.0)
    foldr-Permᴰ f z comm (Permᴰ.trans p q) h =
        foldr-Permᴰ f z comm p h ∙ foldr-Permᴰ f z comm q (AllPairs-Permᴰ p h)

bytes_before-total :
    (xs ys : List ℕ) → bytes_before xs ys ≡ false → bytes_before ys xs ≡ false → xs ≡ ys
bytes_before-total [] [] h k = refl
bytes_before-total [] (y ∷ ys) h k = cc
bytes_before-total (x ∷ xs) [] h k = cc
bytes_before-total (x ∷ xs) (y ∷ ys) h k = ground (arith, bytes_before-total xs ys)

abbrev pub Apart : JobSummary → JobSummary → Type 0
Apart a b = bytes a.job_id ≢ bytes b.job_id

comes_before-total :
    (a b : JobSummary) → Apart a b → comes_before a b ≡ false → comes_before b a ≡ true
comes_before-total a b apart h =
    ground (arith, bytes_before-total (bytes a.job_id) (bytes b.job_id), apart)

comes_before-between :
    (a b x : JobSummary)
    → comes_before x a ≡ true
    → comes_before x b ≡ false
    → comes_before b a ≡ true
comes_before-between a b x p q = elim (Bool-cases (comes_before b a)) [
  | inl e ↦ e
  | inr e ↦ let late = comes_before_trans a b x e q in cc
]

-- Summaries of different jobs go into a sorted list in either order.
pub insert_sorted_comm :
    (a b : JobSummary) (xs : List JobSummary)
    → Apart a b
    → insert_sorted a (insert_sorted b xs) ≡ insert_sorted b (insert_sorted a xs)
insert_sorted_comm a b [] apart = elim (Bool-cases (comes_before a b)) [
  | inl e ↦ rw (e, comes_before-asym a b e) refl
  | inr e ↦ rw (e, comes_before-total a b apart e) refl
]
insert_sorted_comm a b (x ∷ xs) apart = elim (Bool-cases (comes_before x a)) [
  | inl p ↦ elim (Bool-cases (comes_before x b)) [
    | inl q ↦ rw (p, q, p) (ap (λ r. x ∷ r) (insert_sorted_comm a b xs apart))
    | inr q ↦ rw (p, q, comes_before-between a b x p q, p) refl
  ]
  | inr p ↦ elim (Bool-cases (comes_before x b)) [
    | inl q ↦ rw (p, q, comes_before-between b a x q p, p) refl
    | inr q ↦ elim (Bool-cases (comes_before a b)) [
      | inl e ↦ rw (p, q, e, comes_before-asym a b e) refl
      | inr e ↦ rw (p, q, e, comes_before-total a b apart e, p) refl
    ]
  ]
]
