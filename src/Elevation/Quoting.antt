-- ===== src/Elevation/Quoting.antt =====
-- crates/netplan/src/windows_elevation.rs: a program that is started with the command line finds the
-- arguments that were given.
use mathlib.Core.List.{append-nil, append_assoc}
use netplan.Base.{
  ℕ, zero, suc, ◌+◌, ◌*◌, ◌/◌, ◌%◌, ◌==◌, ==_iff, ◌≡◌, refl, sym, ap, ◌∙◌, inl, inr, arith, Bool,
  true, false, not, ◌&&◌, ◌||◌, Bool-cases, or-false, if◌then◌else◌, Option, none, some, List, [],
  ◌∷◌, ◌++◌, any, replicate, Text, contains, ok, ◌>>=◌,
}
use netplan.Elevation.{
  quote, slash, is_blank, needs_quotes, quoted_rest, append_quoted_argument, append_arguments,
  command_line,
}

-- A reader of command lines, after the rules of the C runtime of Windows: blanks outside quotes separate
-- arguments; backslashes before a quote stand for half as many, and the quote is taken as it is where
-- their number is odd; other backslashes stand for themselves. (Its rule on two quotes in a row inside
-- quotes is left out.)
record Word : Type 0 where
  within : Bool
  slashes : ℕ
  read : Text

abbrev finished : Word → Text
finished w = w.read ++ replicate w.slashes slash

-- A character, and the argument that it ends
abbrev at_quote : Word → Bool → Word
at_quote w true = record {
  within = w.within;
  slashes = 0;
  read = w.read ++ replicate (w.slashes / 2) slash ++ quote ∷ [];
}
at_quote w false = record {
  within = not w.within;
  slashes = 0;
  read = w.read ++ replicate (w.slashes / 2) slash;
}

abbrev in_word : Word → ℕ → List Text × Option Word
in_word w c =
    if c == slash
    then ([], some (record { within = w.within; slashes = suc w.slashes; read = w.read }))
    else if c == quote
    then ([], some (at_quote w (w.slashes % 2 == 1)))
    else if is_blank c && not w.within
    then (finished w ∷ [], none)
    else ([], some (record { within = w.within; slashes = 0; read = finished w ++ c ∷ [] }))

abbrev fresh : Word
fresh = record { within = false; slashes = 0; read = [] }

abbrev next : Option Word → ℕ → List Text × Option Word
next none c = if is_blank c then ([], none) else in_word fresh c
next (some w) c = in_word w c

abbrev read_arguments : Option Word → Text → List Text
read_arguments none [] = []
read_arguments (some w) [] = finished w ∷ []
read_arguments state (c ∷ line) =
    let (done, state') = next state c in done ++ read_arguments state' line

abbrev pub split_arguments : Text → List Text
split_arguments = read_arguments none

abbrev word : Bool → ℕ → Text → Word
word within slashes read = record { within = within; slashes = slashes; read = read }

read-slashes :
    (within : Bool) (n k : ℕ) (read rest : Text)
    → read_arguments (some (word within n read)) (replicate k slash ++ rest)
      ≡ read_arguments (some (word within (k + n) read)) rest
read-slashes within n zero read rest =
    ap (λ m. read_arguments (some (word within m read)) rest) (omega arith)
read-slashes within n (suc k) read rest =
    read-slashes within (suc n) k read rest
    ∙ ap (λ m. read_arguments (some (word within m read)) rest) (omega arith)

-- Twice as many backslashes close the quotes, or open them
read-closing :
    (within : Bool) (n : ℕ) (read rest : Text)
    → read_arguments (some (word within 0 read)) (replicate (n * 2) slash ++ quote ∷ rest)
      ≡ read_arguments (some (word (not within) 0 (read ++ replicate n slash))) rest
read-closing within n read rest =
    let even : (n * 2 + 0) % 2 == 1 ≡ false = ground arith in
    let half : (n * 2 + 0) / 2 ≡ n = omega arith in
    read-slashes within 0 (n * 2) read (quote ∷ rest) ∙ rw (even, half) refl

-- One more makes the quote a character
read-literal :
    (within : Bool) (n : ℕ) (read rest : Text)
    → read_arguments (some (word within 0 read)) (replicate (n * 2 + 1) slash ++ quote ∷ rest)
      ≡ read_arguments (some (word within 0 (read ++ replicate n slash ++ quote ∷ []))) rest
read-literal within n read rest =
    let odd : (n * 2 + 1 + 0) % 2 == 1 ≡ true = ground arith in
    let half : (n * 2 + 1 + 0) / 2 ≡ n = omega arith in
    read-slashes within 0 (n * 2 + 1) read (quote ∷ rest) ∙ rw (odd, half) refl

read-plain :
    (within : Bool) (n c : ℕ) (read rest : Text)
    → c == slash ≡ false
    → c == quote ≡ false
    → is_blank c && not within ≡ false
    → read_arguments (some (word within n read)) (c ∷ rest)
      ≡ read_arguments (some (word within 0 ((read ++ replicate n slash) ++ c ∷ []))) rest
read-plain within n c read rest e f g = rw (e, f, g) refl

replicate-suc :
    (n : ℕ) (rest : Text) → replicate (suc n) slash ++ rest ≡ replicate n slash ++ slash ∷ rest
replicate-suc zero rest = refl
replicate-suc (suc n) rest = ap (λ r. slash ∷ r) (replicate-suc n rest)

shift : (xs : Text) (c : ℕ) (value : Text) → xs ++ c ∷ [] ++ [] ++ value ≡ xs ++ c ∷ value
shift xs c value = ap (λ r. r ++ value) (append-nil (xs ++ c ∷ [])) ∙ append_assoc xs (c ∷ []) value

-- What stands between quotes is the value.
read-quoted_rest :
    (n : ℕ) (value read rest : Text)
    → read_arguments (some (word true 0 read)) (quoted_rest n value ++ rest)
      ≡ read_arguments (some (word false 0 (read ++ replicate n slash ++ value))) rest
unfolding quoted_rest
read-quoted_rest n [] read rest =
    ap (read_arguments (some (word true 0 read)))
      (append_assoc (replicate (n * 2) slash) (quote ∷ []) rest)
    ∙ read-closing true n read rest
    ∙ ap (λ r. read_arguments (some (word false 0 r)) rest)
        (sym (append-nil (read ++ replicate n slash)))
read-quoted_rest n (c ∷ value) read rest = elim (Bool-cases (c == slash)) [
  | inl e ↦ rw e (
      read-quoted_rest (suc n) value read rest
      ∙ ap (λ r. read_arguments (some (word false 0 r)) rest)
          (append_assoc read (replicate (suc n) slash) value
            ∙ ap (λ r. read ++ r) (replicate-suc n value)
            ∙ ap (λ x. read ++ (replicate n slash ++ x ∷ value)) (sym ((==_iff c slash).0 e))
            ∙ sym (append_assoc read (replicate n slash) (c ∷ value))))
  | inr e ↦ elim (Bool-cases (c == quote)) [
    | inl f ↦
        rw (e, f)
          (ap (read_arguments (some (word true 0 read)))
              (append_assoc (replicate (n * 2 + 1) slash) (quote ∷ quoted_rest 0 value) rest)
            ∙ read-literal true n read (quoted_rest 0 value ++ rest)
            ∙ read-quoted_rest 0 value (read ++ replicate n slash ++ quote ∷ []) rest
            ∙ ap (λ r. read_arguments (some (word false 0 r)) rest)
                (shift (read ++ replicate n slash) quote value
                  ∙ ap (λ x. read ++ replicate n slash ++ x ∷ value) (sym ((==_iff c quote).0 f))))
    | inr f ↦
        rw (e, f)
          (ap (read_arguments (some (word true 0 read)))
              (append_assoc (replicate n slash) (c ∷ quoted_rest 0 value) rest)
            ∙ read-slashes true 0 n read (c ∷ quoted_rest 0 value ++ rest)
            ∙ read-plain true (n + 0) c read (quoted_rest 0 value ++ rest) e f (ground arith)
            ∙ read-quoted_rest 0 value ((read ++ replicate (n + 0) slash) ++ c ∷ []) rest
            ∙ ap (λ r. read_arguments (some (word false 0 r)) rest)
                (shift (read ++ replicate (n + 0) slash) c value
                  ∙ ap (λ m. read ++ replicate m slash ++ c ∷ value) (omega arith)))
  ]
]

abbrev quoted : Text → Text
quoted value = if needs_quotes value then quote ∷ quoted_rest 0 value else value

-- The arguments that follow the first, each behind a blank
abbrev more : List Text → Text
more [] = []
more (argument ∷ arguments) = b' ' ∷ (quoted argument ++ more arguments)

abbrev line_of : List Text → Text
line_of [] = []
line_of (argument ∷ arguments) = quoted argument ++ more arguments

read-end :
    (n : ℕ) (read : Text) (arguments : List Text)
    → read_arguments (some (word false n read)) (more arguments)
      ≡ (read ++ replicate n slash) ∷ split_arguments (more arguments)
read-end n read [] = refl
read-end n read (argument ∷ arguments) = refl

read-unquoted :
    (n : ℕ) (value read : Text) (arguments : List Text)
    → any (λ c. is_blank c || c == quote) value ≡ false
    → read_arguments (some (word false n read)) (value ++ more arguments)
      ≡ (read ++ replicate n slash ++ value) ∷ split_arguments (more arguments)
read-unquoted n [] read arguments h =
    read-end n read arguments
    ∙ ap (λ r. r ∷ split_arguments (more arguments)) (sym (append-nil (read ++ replicate n slash)))
read-unquoted n (c ∷ value) read arguments h =
    let (here, later) = or-false (is_blank c || c == quote) _ h in
    let (unblank, unquote) = or-false (is_blank c) (c == quote) here in
    elim (Bool-cases (c == slash)) [
      | inl e ↦ rw e (
          read-unquoted (suc n) value read arguments later
          ∙ ap (λ r. r ∷ split_arguments (more arguments))
              (append_assoc read (replicate (suc n) slash) value
                ∙ ap (λ r. read ++ r) (replicate-suc n value)
                ∙ ap (λ x. read ++ (replicate n slash ++ x ∷ value)) (sym ((==_iff c slash).0 e))
                ∙ sym (append_assoc read (replicate n slash) (c ∷ value))))
      | inr e ↦
          read-plain false n c read (value ++ more arguments) e unquote (ground arith)
          ∙ read-unquoted 0 value ((read ++ replicate n slash) ++ c ∷ []) arguments later
          ∙ ap (λ r. r ∷ split_arguments (more arguments))
              (shift (read ++ replicate n slash) c value)
    ]

start :
    (c : ℕ) (rest : Text)
    → is_blank c ≡ false
    → split_arguments (c ∷ rest) ≡ read_arguments (some fresh) (c ∷ rest)
start c rest h = rw h refl

split-cons :
    (argument : Text) (arguments : List Text)
    → split_arguments (quoted argument ++ more arguments)
      ≡ argument ∷ split_arguments (more arguments)
split-cons argument arguments = elim (Bool-cases (needs_quotes argument)) [
  | inl e ↦ rw e (
      read-quoted_rest 0 argument [] (more arguments)
      ∙ read-end 0 argument arguments
      ∙ ap (λ r. r ∷ split_arguments (more arguments)) (append-nil argument))
  | inr e ↦ rw e (bare argument e)
]
  where
    bare :
        (value : Text)
        → needs_quotes value ≡ false
        → split_arguments (value ++ more arguments) ≡ value ∷ split_arguments (more arguments)
    bare [] h = absurd (ground arith)
    bare (c ∷ value) h =
        let here = (or-false (is_blank c || c == quote) _ h).0 in
        let unblank = (or-false (is_blank c) (c == quote) here).0 in
        start c (value ++ more arguments) unblank ∙ read-unquoted 0 (c ∷ value) [] arguments h

split-line_of : (arguments : List Text) → split_arguments (line_of arguments) ≡ arguments
split-line_of [] = refl
split-line_of (argument ∷ arguments) =
    split-cons argument arguments ∙ ap (λ r. argument ∷ r) (after arguments)
  where
    after : (arguments : List Text) → split_arguments (more arguments) ≡ arguments
    after [] = refl
    after (next_one ∷ others) = split-cons next_one others ∙ ap (λ r. next_one ∷ r) (after others)

append_arguments-more :
    (index : ℕ) (output : Text) (arguments : List Text)
    → any (λ a. contains 0 a) arguments ≡ false
    → append_arguments (suc index) output arguments ≡ ok (output ++ more arguments)
unfolding append_quoted_argument
append_arguments-more index output [] h = ap ok (sym (append-nil output))
append_arguments-more index output (argument ∷ arguments) h =
    let (here, later) = or-false (contains 0 argument) _ h in
    let first : suc index == 0 ≡ false = ground arith in
    rw (first, here)
      (append_arguments-more (suc index) (output ++ b' ' ∷ [] ++ quoted argument) arguments later
        ∙ ap ok (
            append_assoc (output ++ b' ' ∷ []) (quoted argument) (more arguments)
            ∙ append_assoc output (b' ' ∷ []) (quoted argument ++ more arguments)))

-- A command line of arguments without a NUL is made, ends with a NUL, and what stands before it is
-- split into the arguments by the rules of the C runtime.
pub split_arguments-command_line :
    (arguments : List Text)
    → any (λ argument. contains 0 argument) arguments ≡ false
    → (line : Text) × (command_line arguments ≡ ok (line ++ 0 ∷ []))
      × (split_arguments line ≡ arguments)
unfolding command_line append_quoted_argument
split_arguments-command_line [] h = ([], refl, refl)
split_arguments-command_line (argument ∷ arguments) h =
    let (here, later) = or-false (contains 0 argument) _ h in
    (
      line_of (argument ∷ arguments),
      rw here (
          ap (λ r. r >>= λ result. ok (result ++ 0 ∷ []))
            (append_arguments-more 0 (quoted argument) arguments later)),
      split-line_of (argument ∷ arguments),
    )
