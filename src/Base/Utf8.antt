-- ===== src/Base/Utf8.antt =====
-- `std::str::from_utf8`: a decoder that holds the bytes it still waits for.
use Prim.Native.Nat.{ℕ, zero, suc, ◌+◌, ◌-◌, ◌*◌}
use mathlib.Core.Option.{Option, none, some}
use mathlib.Core.List.{List, [], ◌∷◌}
use netplan.Base.Bools.{ltb, ◌==◌, between, if◌then◌else◌}

-- Between two code points; or inside one, `more` bytes behind the next, which has to lie between
-- `low` and `high`, `bits` being those that have come.
pub data Progress : Type 0 where
  between_codes : Progress
  inside : (more bits low high : ℕ) → Progress
  malformed_byte : Progress

-- What the first byte of a code point of several bytes announces.
abbrev pub start : ℕ → Progress
start b =
    if between 0xC2 0xDF b
    then inside 0 (b - 0xC0) 0x80 0xBF
    else if b == 0xE0
    then inside 1 0 0xA0 0xBF
    else if b == 0xED
    then inside 1 13 0x80 0x9F
    else if between 0xE1 0xEF b
    then inside 1 (b - 0xE0) 0x80 0xBF
    else if b == 0xF0
    then inside 2 0 0x90 0xBF
    else if between 0xF1 0xF3 b
    then inside 2 (b - 0xF0) 0x80 0xBF
    else if b == 0xF4
    then inside 2 4 0x80 0x8F
    else malformed_byte

-- `bytes` decoded from a decoder's state on, `none` where they are not UTF-8.
abbrev pub push : ℕ → Option (List ℕ) → Option (List ℕ)
push c none = none
push c (some rest) = some (c ∷ rest)

abbrev pub decode_from : Progress → List ℕ → Option (List ℕ)
decode_from between_codes [] = some []
decode_from (inside more bits low high) [] = none
decode_from malformed_byte bytes = none
decode_from between_codes (b ∷ bytes) =
    let rest = decode_from between_codes bytes in
    let longer = decode_from (start b) bytes in if ltb b 0x80 then push b rest else longer
decode_from (inside zero bits low high) (b ∷ bytes) =
    let rest = decode_from between_codes bytes in
    if between low high b then push (bits * 64 + (b - 0x80)) rest else none
decode_from (inside (suc more) bits low high) (b ∷ bytes) =
    let rest = decode_from (inside more (bits * 64 + (b - 0x80)) 0x80 0xBF) bytes in
    if between low high b then rest else none

unfoldable pub from_utf8 : List ℕ → Option (List ℕ)
from_utf8 = decode_from between_codes
