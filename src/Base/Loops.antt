-- ===== src/Base/Loops.antt =====
-- What the success of a checking loop says of the elements of its list.
use mathlib.Core.Path.{◌≡◌, refl}
use mathlib.Core.List.{List, [], ◌∷◌, ◌++◌}
use netplan.Base.Lists.{All, AllPairs}
use netplan.Base.Results.{Result, ok, for_each, for_each_after, seq-eq-ok}

module _ {E A : Type 0} (f : A → Result E (Unit {0})) where
  pub for_each-All : (xs : List A) → for_each f xs ≡ ok tt → All (λ x. f x ≡ ok tt) xs
  for_each-All [] h = tt
  for_each-All (x ∷ xs) h = let (a, b) = seq-eq-ok (f x) (for_each f xs) h in (a, for_each-All xs b)

  pub All-for_each : (xs : List A) → All (λ x. f x ≡ ok tt) xs → for_each f xs ≡ ok tt
  All-for_each [] h = refl
  All-for_each (x ∷ xs) h = rw h.0 (All-for_each xs h.1)

module _ {ℓ} {A : Type ℓ} where
  pub All-snoc : (P : A → Type 0) (xs : List A) (x : A) → All P (xs ++ x ∷ []) → All P xs × P x
  All-snoc P [] x h = (tt, h.0)
  All-snoc P (y ∷ ys) x h = let (a, b) = All-snoc P ys x h.1 in ((h.0, a), b)

  pub All-zip :
      {P Q R : A → Type 0} (f : (a : A) → P a → Q a → R a) (xs : List A)
      → All P xs
      → All Q xs
      → All R xs
  All-zip f [] p q = tt
  All-zip f (x ∷ xs) p q = (f x p.0 q.0, All-zip f xs p.1 q.1)

-- A loop whose body compares an element with all that stand before it.
module _ {E A : Type 0} (f : List A → A → Result E (Unit {0})) (R : A → A → Type 0)
    (before : (s : List A) (x : A) → f s x ≡ ok tt → All (λ o. R o x) s) where
  for_each_after-seen :
      (seen xs : List A)
      → for_each_after f seen xs ≡ ok tt
      → All (λ o. All (R o) xs) seen × AllPairs R xs
  for_each_after-seen seen [] h = (All-zip (λ a p q. tt) seen (unit seen) (unit seen), tt)
    where
      unit : (ys : List A) → All (λ y. Unit {0}) ys
      unit [] = tt
      unit (y ∷ ys) = (tt, unit ys)
  for_each_after-seen seen (x ∷ xs) h =
      let (a, b) = seq-eq-ok (f seen x) (for_each_after f (seen ++ x ∷ []) xs) h in
      let (olds, pairs) = for_each_after-seen (seen ++ x ∷ []) xs b in
      let (old, new) = All-snoc (λ o. All (R o) xs) seen x olds in
      (All-zip (λ o p q. (p, q)) seen (before seen x a) old, (new, pairs))

  pub for_each_after-AllPairs : (xs : List A) → for_each_after f [] xs ≡ ok tt → AllPairs R xs
  for_each_after-AllPairs xs h = (for_each_after-seen [] xs h).1

-- What the body checks of each element, whatever stands before it.
module _ {E A : Type 0} (f : List A → A → Result E (Unit {0})) (P : A → Type 0)
    (each : (s : List A) (x : A) → f s x ≡ ok tt → P x) where
  pub for_each_after-All : (seen xs : List A) → for_each_after f seen xs ≡ ok tt → All P xs
  for_each_after-All seen [] h = tt
  for_each_after-All seen (x ∷ xs) h =
      let (a, b) = seq-eq-ok (f seen x) (for_each_after f (seen ++ x ∷ []) xs) h in
      (each seen x a, for_each_after-All (seen ++ x ∷ []) xs b)

-- From the loop's fact about each element to the part of it that matters.
module _ {E A : Type 0} (f : A → Result E (Unit {0})) (P : A → Type 0)
    (each : (x : A) → f x ≡ ok tt → P x) where
  pub for_each-All_of : (xs : List A) → for_each f xs ≡ ok tt → All P xs
  for_each-All_of [] h = tt
  for_each-All_of (x ∷ xs) h =
      let (a, b) = seq-eq-ok (f x) (for_each f xs) h in (each x a, for_each-All_of xs b)
