-- ===== src/Cli/Words.antt =====
-- crates/netplan-cli/src/interactive.rs: words in double quotes are read back.
use netplan.Base.{
  ℕ, ◌==◌, ◌||◌, ◌≡◌, ◌≢◌, refl, sym, ap, ◌∙◌, arith, true, false, Bool-cases, inl, inr, Option,
  List, [], ◌∷◌, ◌++◌, All, if◌then◌else◌, Text, ok,
}
use mathlib.Core.List.{append_assoc, append-nil}
use netplan.Rpc.Requests.{without_mark}
use netplan.Cli.Interactive.{
  Quote, unquoted, double, Splitting, step, first, run, start, ended, split_command_line,
}

-- A backslash before each backslash and each double quote
unfoldable pub escaped : Text → Text
escaped [] = []
escaped (c ∷ s) = let rest = escaped s in if c == 92 || c == 34 then 92 ∷ (c ∷ rest) else c ∷ rest

-- Words in double quotes, each with a space behind
abbrev pub quoted_line : List Text → Text
quoted_line [] = []
quoted_line (word ∷ words) = 34 ∷ (escaped word ++ (34 ∷ (32 ∷ quoted_line words)))

abbrev within : List Text → Text → Quote → Splitting
within words word quote = record { words = words; word = word; quote = quote; skip = false }

plain_step :
    (words : List Text) (word : Text) (c : ℕ) (next : Option ℕ)
    → c == 92 || c == 34 ≡ false
    → step c next (within words word double) ≡ within words (word ++ c ∷ []) double
unfolding step
plain_step words word c next h = ground arith

escaped_steps :
    (words : List Text) (word : Text) (c : ℕ) (s : Text)
    → c == 92 || c == 34 ≡ true
    → run (within words word double) (92 ∷ (c ∷ s)) ≡ run (within words (word ++ c ∷ []) double) s
unfolding step run
escaped_steps words word c s h = rw h refl

run-escaped :
    (words : List Text) (word w s : Text)
    → run (within words word double) (escaped w ++ 34 ∷ s)
      ≡ run (within words (word ++ w) unquoted) s
unfolding escaped run step
run-escaped words word [] s = ap (λ w. run (within words w unquoted) s) (sym (append-nil word))
run-escaped words word (c ∷ w) s = elim (Bool-cases (c == 92 || c == 34)) [
  | inl e ↦ rw e (
      escaped_steps words word c (escaped w ++ 34 ∷ s) e
      ∙ run-escaped words (word ++ c ∷ []) w s
      ∙ ap (λ r. run (within words r unquoted) s) (append_assoc word (c ∷ []) w))
  | inr e ↦ rw e (
      ap (λ state. run state (escaped w ++ 34 ∷ s))
        (plain_step words word c (first (escaped w ++ 34 ∷ s)) e)
      ∙ run-escaped words (word ++ c ∷ []) w s
      ∙ ap (λ r. run (within words r unquoted) s) (append_assoc word (c ∷ []) w))
]

gap_step :
    (words : List Text) (c : ℕ) (word s : Text)
    → run (within words (c ∷ word) unquoted) (32 ∷ s)
      ≡ run (within (words ++ (c ∷ word) ∷ []) [] unquoted) s
unfolding run step
gap_step words c word s = refl

opening_step :
    (words : List Text) (s : Text)
    → run (within words [] unquoted) (34 ∷ s) ≡ run (within words [] double) s
unfolding run step
opening_step words s = refl

run-quoted_line :
    (before words : List Text)
    → All (λ word. word ≢ []) words
    → run (within before [] unquoted) (quoted_line words) ≡ within (before ++ words) [] unquoted
unfolding run
run-quoted_line before [] h = ap (λ ws. within ws [] unquoted) (sym (append-nil before))
run-quoted_line before ([] ∷ words) h = absurd (h.0 refl)
run-quoted_line before ((c ∷ word) ∷ words) h =
    opening_step before (escaped (c ∷ word) ++ (34 ∷ (32 ∷ quoted_line words)))
    ∙ run-escaped before [] (c ∷ word) (32 ∷ quoted_line words)
    ∙ gap_step before c word (quoted_line words)
    ∙ run-quoted_line (before ++ (c ∷ word) ∷ []) words h.1
    ∙ ap (λ ws. within ws [] unquoted) (append_assoc before ((c ∷ word) ∷ []) words)

unmarked : (words : List Text) → without_mark (quoted_line words) ≡ quoted_line words
unmarked [] = refl
unmarked (word ∷ words) = refl

-- Words that are not empty, each in double quotes with a backslash before a backslash and before a
-- double quote, are read back by `split_command_line`, whatever other characters they have.
pub split_command_line-quoted_line :
    (words : List Text)
    → All (λ word. word ≢ []) words
    → split_command_line (quoted_line words) ≡ ok words
unfolding split_command_line
split_command_line-quoted_line words h =
    ap (λ line. ended (run start line)) (unmarked words) ∙ ap ended (run-quoted_line [] words h)
