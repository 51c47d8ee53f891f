-- ===== src/Base/Ascii.antt =====
-- A text whose bytes all pass a test that only ASCII bytes pass is its own encoding.
use Prim.Native.Nat.{ℕ, ◌+◌, ◌/◌, ◌%◌, ◌<◌, ◌≤◌}
use mathlib.Core.Path.{◌≡◌, refl, ap}
use mathlib.Core.Logic.{inl, inr}
use mathlib.Core.Bool.{Bool, true, false, ◌&&◌}
use mathlib.Core.List.{[], ◌∷◌, ◌++◌}
use native.Mathlib.Omega.{arith}
use netplan.Base.Bools.{ltb, Bool-cases, and-true}
use netplan.Base.Lists.{all}
use netplan.Base.Texts.{Text, Bytes, utf8, bytes}

-- A character beyond ASCII is encoded by bytes beyond ASCII, the first of them here.
utf8-head : (c : ℕ) → ltb c 128 ≡ false → (b : ℕ) × (rest : Bytes) × (utf8 c ≡ b ∷ rest) × (128 ≤ b)
utf8-head c h = elim (Bool-cases (ltb c 2048)) [
  | inl e ↦ (192 + c / 64, (128 + c % 64) ∷ [], ground arith, omega arith)
  | inr e ↦ elim (Bool-cases (ltb c 65536)) [
    | inl f ↦ (224 + c / 4096, (128 + c / 64 % 64) ∷ (128 + c % 64) ∷ [], ground arith, omega arith)
    | inr f ↦ (
      240 + c / 262144,
      (128 + c / 4096 % 64) ∷ (128 + c / 64 % 64) ∷ (128 + c % 64) ∷ [],
      ground arith,
      omega arith,
    )
  ]
]

module _ (p : ℕ → Bool) (ascii : (b : ℕ) → p b ≡ true → b < 128) where
  pub bytes-of_ascii : (s : Text) → all p (bytes s) ≡ true → bytes s ≡ s
  bytes-of_ascii [] h = refl
  bytes-of_ascii (c ∷ s) h = elim (Bool-cases (ltb c 128)) [
    | inl e ↦
        let h' : p c && all p (bytes s) ≡ true = rw (e, utf8) at h in
        rw (e, utf8) (ap (λ r. c ∷ r) (bytes-of_ascii s (and-true _ _ h').1))
    | inr e ↦
        let (b, rest, u, big) = utf8-head c e in
        let h' : p b && all p (rest ++ bytes s) ≡ true = rw (u, utf8) at h in
        absurd (omega (arith, ascii b (and-true _ _ h').0))
  ]

  pub ascii-bytes : (s : Text) → all p s ≡ true → bytes s ≡ s
  ascii-bytes [] h = refl
  ascii-bytes (c ∷ s) h =
      let (now, later) = and-true (p c) (all p s) h in
      let small = ascii c now in
      let e : ltb c 128 ≡ true = ground arith in
      rw (e, utf8) (ap (λ r. c ∷ r) (ascii-bytes s later))
