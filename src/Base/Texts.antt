-- ===== src/Base/Texts.antt =====
-- Rust's `str`: its characters as code points, its UTF-8 bytes, and the methods of the standard
-- library that the program calls.
use Prim.Native.Nat.{ℕ, ◌+◌, ◌-◌, ◌/◌, ◌%◌, ◌<◌}
use Prim.Native.Char.{code}
use Prim.Native.String.{String}
use mathlib.Core.Path.{◌≡◌, refl}
use mathlib.Core.Bool.{Bool, true, false, ◌&&◌, ◌||◌}
use mathlib.Core.List.{List, [], ◌∷◌, ◌++◌, map, reverse}
use netplan.Base.Bools.{ltb, between, ◌==◌, ==_iff, ==_refl, and-true, if◌then◌else◌}
use netplan.Base.Lists.{length, any, drop_while}

-- The code points of a `str`.
abbrev pub Text : Type 0
Text = List ℕ

abbrev pub Bytes : Type 0
Bytes = List ℕ

abbrev pub codes : String → Text
codes String.[] = []
codes (String.◌∷◌ c s) = code c ∷ codes s

-- The UTF-8 encoding of a code point.
abbrev pub utf8 : ℕ → Bytes
utf8 c =
    if ltb c 128
    then c ∷ []
    else if ltb c 2048
    then (192 + c / 64) ∷ (128 + c % 64) ∷ []
    else if ltb c 65536
    then (224 + c / 4096) ∷ (128 + c / 64 % 64) ∷ (128 + c % 64) ∷ []
    else (240 + c / 262144) ∷ (128 + c / 4096 % 64) ∷ (128 + c / 64 % 64) ∷ (128 + c % 64) ∷ []

-- `s.bytes()`, `s.as_bytes()`
abbrev pub bytes : Text → Bytes
bytes [] = []
bytes (c ∷ s) = utf8 c ++ bytes s

-- `s.len()` counts bytes.
abbrev pub len : Text → ℕ
len s = length (bytes s)

abbrev pub is_ascii_digit : ℕ → Bool
is_ascii_digit c = between b'0' b'9' c

abbrev pub is_ascii_uppercase : ℕ → Bool
is_ascii_uppercase c = between b'A' b'Z' c

abbrev pub is_ascii_alphabetic : ℕ → Bool
is_ascii_alphabetic c = is_ascii_uppercase c || between b'a' b'z' c

abbrev pub is_ascii_alphanumeric : ℕ → Bool
is_ascii_alphanumeric c = is_ascii_alphabetic c || is_ascii_digit c

abbrev pub is_ascii_hexdigit : ℕ → Bool
is_ascii_hexdigit c = is_ascii_digit c || between b'A' b'F' c || between b'a' b'f' c

abbrev pub to_ascii_lower : ℕ → ℕ
to_ascii_lower c = if is_ascii_uppercase c then c + 32 else c

abbrev pub to_ascii_lowercase : Text → Text
to_ascii_lowercase = map to_ascii_lower

-- `char::is_whitespace`: the code points with the Unicode property White_Space.
abbrev pub is_whitespace : ℕ → Bool
is_whitespace c =
    between 0x9 0xd c
    || c == 0x20
    || c == 0x85
    || c == 0xa0
    || c == 0x1680
    || between 0x2000 0x200a c
    || c == 0x2028
    || c == 0x2029
    || c == 0x202f
    || c == 0x205f
    || c == 0x3000

-- `str::to_lowercase` and `char::to_uppercase`, whose tables for the characters beyond ASCII are a
-- parameter.
pub record Unicode : Type 0 where
  pub to_lowercase : Text → Text
  pub to_uppercase : ℕ → Text
  pub ascii_uppercase :
      (c : ℕ) → c < 128 → to_uppercase c ≡ (if between b'a' b'z' c then c - 32 else c) ∷ []

-- `a == b` on texts.
unfoldable pub text_eq : Text → Text → Bool
text_eq [] [] = true
text_eq [] (y ∷ ys) = false
text_eq (x ∷ xs) [] = false
text_eq (x ∷ xs) (y ∷ ys) = x == y && text_eq xs ys

-- `a.eq_ignore_ascii_case(b)`
abbrev pub eq_ignore_ascii_case : Text → Text → Bool
eq_ignore_ascii_case a b = text_eq (to_ascii_lowercase a) (to_ascii_lowercase b)

-- `s.contains(c)` and `s.contains([c, d, …])` for characters.
abbrev pub contains : ℕ → Text → Bool
contains c s = any (λ x. x == c) s

abbrev pub contains_any : Text → Text → Bool
contains_any set s = any (λ x. contains x set) s

abbrev pub starts_with : Text → Text → Bool
starts_with [] s = true
starts_with (p ∷ ps) [] = false
starts_with (p ∷ ps) (c ∷ s) = p == c && starts_with ps s

abbrev pub ends_with : Text → Text → Bool
ends_with p s = starts_with (reverse p) (reverse s)

abbrev pub trim_start : Text → Text
trim_start s = drop_while is_whitespace s

abbrev pub trim : Text → Text
trim s = reverse (drop_while is_whitespace (reverse (trim_start s)))

-- `s.trim_matches([c, d, …])`
abbrev pub trim_matches : Text → Text → Text
trim_matches set s =
    reverse (drop_while (λ c. contains c set) (reverse (drop_while (λ c. contains c set) s)))

abbrev pub cons_head : ℕ → List Text → List Text
cons_head c [] = (c ∷ []) ∷ []
cons_head c (w ∷ ws) = (c ∷ w) ∷ ws

-- `s.split(c)`
abbrev pub split : ℕ → Text → List Text
split c [] = [] ∷ []
split c (x ∷ xs) = let rest = split c xs in if x == c then [] ∷ rest else cons_head x rest

pub text_eq_sound : (a b : Text) → text_eq a b ≡ true → a ≡ b
unfolding text_eq
text_eq_sound [] [] h = refl
text_eq_sound [] (y ∷ ys) h = cc
text_eq_sound (x ∷ xs) [] h = cc
text_eq_sound (x ∷ xs) (y ∷ ys) h =
    let (p, q) = and-true (x == y) (text_eq xs ys) h in cc ((==_iff x y).0 p, text_eq_sound xs ys q)

pub text_eq_refl : (a : Text) → text_eq a a ≡ true
unfolding text_eq
text_eq_refl [] = refl
text_eq_refl (x ∷ xs) = rw (==_refl x) (text_eq_refl xs)
