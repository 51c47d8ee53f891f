-- ===== src/Base/Results.antt =====
-- `Result<T, E>`, its `?` as a bind, and the loops `for x in xs { f(x)?; }` of the program.
use mathlib.Core.Path.{◌≡◌, refl}
use mathlib.Core.Logic.{◌⊎◌, inl, inr}
use native.Mathlib.Omega.{arith}
use mathlib.Core.Bool.{Bool, true, false}
use mathlib.Core.List.{List, [], ◌∷◌, ◌++◌}
use mathlib.Core.Option.{Option, none, some}

pub data Result (E A : Type 0) : Type 0 where
  ok : A → Result E A
  err : E → Result E A

infixl 5 ◌>>=◌ ◌>>◌
abbrev pub ◌>>=◌ : {E A B : Type 0} → Result E A → (A → Result E B) → Result E B
ok a >>= f = f a
err e >>= f = err e

abbrev pub ◌>>◌ : {E B : Type 0} → Result E (Unit {0}) → Result E B → Result E B
m >> k = m >>= λ _. k

-- `if bad { return Err(e); }`
abbrev pub fail_if : {E : Type 0} → Bool → E → Result E (Unit {0})
fail_if true e = err e
fail_if false e = ok tt

-- `if let Some(x) = value { f(x)?; }`
abbrev pub if_some : {E A : Type 0} → (A → Result E (Unit {0})) → Option A → Result E (Unit {0})
if_some f none = ok tt
if_some f (some a) = f a

abbrev pub map_err : {E F A : Type 0} → (E → F) → Result E A → Result F A
map_err f (ok a) = ok a
map_err f (err e) = err (f e)

-- `for x in xs { f(x)?; }`
abbrev pub for_each : {E A : Type 0} → (A → Result E (Unit {0})) → List A → Result E (Unit {0})
for_each f [] = ok tt
for_each f (x ∷ xs) = f x >>= λ _. for_each f xs

-- `for (index, x) in xs.iter().enumerate() { f(&xs[..index], x)?; }`, the first argument of `f`
-- being what stands before `x`.
abbrev pub for_each_after :
    {E A : Type 0} → (List A → A → Result E (Unit {0})) → List A → List A → Result E (Unit {0})
for_each_after f seen [] = ok tt
for_each_after f seen (x ∷ xs) = f seen x >>= λ _. for_each_after f (seen ++ x ∷ []) xs

-- `xs.into_iter().map(f).collect::<Result<_>>()`
abbrev pub collect : {E A B : Type 0} → (A → Result E B) → List A → Result E (List B)
collect f [] = ok []
collect f (x ∷ xs) = f x >>= λ y. collect f xs >>= λ ys. ok (y ∷ ys)

pub bind-eq-ok :
    {E A B : Type 0} (m : Result E A) (f : A → Result E B) {b : B}
    → (m >>= f) ≡ ok b
    → (a : A) × (m ≡ ok a) × (f a ≡ ok b)
bind-eq-ok (ok a) f h = (a, refl, h)
bind-eq-ok (err e) f h = cc

pub seq-eq-ok :
    {E B : Type 0} (m : Result E (Unit {0})) (k : Result E B) {b : B}
    → (m >> k) ≡ ok b
    → (m ≡ ok tt) × (k ≡ ok b)
seq-eq-ok (ok tt) k h = (refl, h)
seq-eq-ok (err e) k h = cc

pub fail_if-eq-ok : {E : Type 0} (b : Bool) (e : E) → fail_if b e ≡ ok tt → b ≡ false
fail_if-eq-ok true e h = cc
fail_if-eq-ok false e h = refl

pub if_some-eq-ok :
    {E A : Type 0} (f : A → Result E (Unit {0})) (o : Option A) (a : A)
    → if_some f o ≡ ok tt
    → o ≡ some a
    → f a ≡ ok tt
if_some-eq-ok f none a h e = cc
if_some-eq-ok f (some b) a h e = cc

pub ok-inj : {E A : Type 0} {a b : A} → ◌≡◌ {A = Result E A} (ok a) (ok b) → a ≡ b
ok-inj q = ground arith

pub Result-cases :
    {E A : Type 0} (m : Result E A) → ((a : A) × (m ≡ ok a)) ⊎ ((e : E) × (m ≡ err e))
Result-cases (ok a) = inl (a, refl)
Result-cases (err e) = inr (e, refl)
