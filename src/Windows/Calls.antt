-- ===== src/Windows/Calls.antt =====
-- How calls compose: `?`, loops, and the calls that only a machine's state is given to.
use netplan.Base.{
  ◌≡◌, refl, sym, ◌≢◌, ◌⊎◌, inl, inr, arith, ap, ok-inj, Bool, true, false, Option, none, some,
  List, [], ◌∷◌, Result,
}
use netplan.Platform.{PlatformError, PlatformResult}
use netplan.Windows.{Call}

abbrev pub pure : {S A : Type 0} → A → Call S A
pure a s = (Result.ok a, s)

abbrev pub fail : {S A : Type 0} → PlatformError → Call S A
fail e s = (Result.err e, s)

infixl 5 ◌>>=◌ ◌>>◌
-- `?`
abbrev pub after : {S A B : Type 0} → (A → Call S B) → PlatformResult A × S → PlatformResult B × S
after f (Result.ok a, s) = f a s
after f (Result.err e, s) = (Result.err e, s)

unfoldable pub ◌>>=◌ : {S A B : Type 0} → Call S A → (A → Call S B) → Call S B
◌>>=◌ m f s = after f (m s)

abbrev pub ◌>>◌ : {S B : Type 0} → Call S (Unit {0}) → Call S B → Call S B
m >> k = m >>= λ _. k

abbrev pub lift_result : {S A : Type 0} → PlatformResult A → Call S A
lift_result r s = (r, s)

-- `if condition { … }`
unfoldable pub when : {S : Type 0} → Bool → Call S (Unit {0}) → Call S (Unit {0})
when true m = m
when false m = pure tt

-- `if let Some(x) = value { … }`
unfoldable pub when_some : {S A : Type 0} → (A → Call S (Unit {0})) → Option A → Call S (Unit {0})
when_some f none = pure tt
when_some f (some a) = f a

-- `for x in xs { … }`
unfoldable pub each : {S A : Type 0} → (A → Call S (Unit {0})) → List A → Call S (Unit {0})
each f [] = pure tt
each f (x ∷ xs) = f x >> each f xs

-- `value.ok_or_else(…)?`
unfoldable pub or_fail : {S A : Type 0} → PlatformError → Option A → Call S A
or_fail e none = fail e
or_fail e (some a) = pure a

pub ok-err :
    {S A : Type 0} {a : A} {e : PlatformError} {s t : S}
    → ◌≢◌ {A = PlatformResult A × S} (Result.ok a, s) (Result.err e, t)
ok-err q = ground arith

pub ok-pair :
    {A S : Type 0} {a b : A} {s t : S}
    → ◌≡◌ {A = PlatformResult A × S} (Result.ok a, s) (Result.ok b, t)
    → (a ≡ b) × (s ≡ t)
ok-pair h = (ok-inj (ap (λ q. q.0) h), ap (λ q. q.1) h)

pub err-pair :
    {A S : Type 0} (p : PlatformError × S) {error : PlatformError} {t : S}
    → ◌≡◌ {A = PlatformResult A × S} (Result.err p.0, p.1) (Result.err error, t)
    → (p.0 ≡ error) × (p.1 ≡ t)
err-pair p h = (error_inj (ap (λ q. q.0) h), ap (λ q. q.1) h)
  where
    error_inj :
        {A : Type 0} {x y : PlatformError}
        → ◌≡◌ {A = PlatformResult A} (Result.err x) (Result.err y)
        → x ≡ y
    error_inj q = ground arith

-- A pair whose first component is known by its cases, for a call's answer.
pub answer-cases :
    {S A : Type 0} (answer : PlatformResult A × S)
    → ((a : A) × (s : S) × (answer ≡ (Result.ok a, s)))
      ⊎ ((e : PlatformError) × (s : S) × (answer ≡ (Result.err e, s)))
answer-cases (Result.ok a, s) = inl (a, s, refl)
answer-cases (Result.err e, s) = inr (e, s, refl)

pub bind-ok :
    {S A B : Type 0} (m : Call S A) (f : A → Call S B) (s : S) {b : B} {t : S}
    → (m >>= f) s ≡ (Result.ok b, t)
    → (a : A) × (u : S) × (m s ≡ (Result.ok a, u)) × (f a u ≡ (Result.ok b, t))
unfolding ◌>>=◌
bind-ok m f s h = elim (answer-cases (m s)) [
  | inl (a, u, e) ↦ (a, u, e, rw e at h)
  | inr (x, u, e) ↦ absurd (ok-err (sym (rw e at h)))
]

pub or_fail-ok :
    {S A : Type 0} (e : PlatformError) (o : Option A) (s : S) {a : A} {t : S}
    → or_fail e o s ≡ (Result.ok a, t)
    → (o ≡ some a) × (s ≡ t)
unfolding or_fail
or_fail-ok e none s h = absurd (ok-err (sym h))
or_fail-ok e (some b) s h = let (p, q) = ok-pair h in (ap some p, q)
