-- ===== src/Cli/Interactive.antt =====
-- crates/netplan-cli/src/interactive.rs: a line of the prompt, split into words.
use netplan.Base.{
  ℕ, ◌==◌, ◌||◌, Bool, true, false, Option, none, some, List, [], ◌∷◌, ◌++◌, if◌then◌else◌, Text,
  codes, is_whitespace, Result, ok, err,
}
use netplan.Rpc.Requests.{without_mark}

pub data Quote : Type 0 where
  unquoted single double : Quote

-- The variables of the loop; `skip` says that the next character has been read already.
pub record Splitting : Type 0 where
  pub words : List Text
  pub word : Text
  pub quote : Quote
  pub skip : Bool

abbrev pub push : ℕ → Splitting → Splitting
push c state = record state { word = state.word ++ c ∷ [] }

abbrev pub push_and_skip : ℕ → Splitting → Splitting
push_and_skip c state = record state { word = state.word ++ c ∷ []; skip = true }

abbrev pub with_quote : Quote → Splitting → Splitting
with_quote quote state = record state { quote = quote }

-- `words.push(std::mem::take(&mut word))`, for a word that is not empty
abbrev pub push_word : List Text → Text → List Text
push_word words [] = words
push_word words (c ∷ word) = words ++ (c ∷ word) ∷ []

abbrev pub gap : Splitting → Splitting
gap state = record state { words = push_word state.words state.word; word = [] }

-- Whether a backslash escapes the character
abbrev pub escapes : Quote → ℕ → Bool
escapes unquoted next = next == 92 || (next == 39 || next == 34 || is_whitespace next)
escapes single next = next == 92
escapes double next = next == 92 || next == 34

abbrev pub backslash : Quote → Option ℕ → Splitting → Splitting
backslash quote none state = push 92 state
backslash quote (some next) state =
    if escapes quote next then push_and_skip next state else push 92 state

abbrev pub read_in : Quote → ℕ → Option ℕ → Splitting → Splitting
read_in unquoted c next state =
    if c == 39
    then with_quote single state
    else if c == 34
    then with_quote double state
    else if is_whitespace c
    then gap state
    else if c == 92
    then backslash unquoted next state
    else push c state
read_in single c next state = if c == 39 then with_quote unquoted state else push c state
read_in double c next state =
    if c == 34
    then with_quote unquoted state
    else if c == 92
    then backslash double next state
    else push c state

-- A round of the loop, with the character behind
unfoldable pub step : ℕ → Option ℕ → Splitting → Splitting
step c next state =
    if state.skip then record state { skip = false } else read_in state.quote c next state

abbrev pub first : Text → Option ℕ
first [] = none
first (c ∷ s) = some c

unfoldable pub run : Splitting → Text → Splitting
run state [] = state
run state (c ∷ s) = run (step c (first s) state) s

abbrev pub split_end : Quote → Splitting → Result Text (List Text)
split_end unquoted state = ok (push_word state.words state.word)
split_end quote state = err (codes "unterminated quoted argument")

abbrev pub start : Splitting
start = record { words = []; word = []; quote = unquoted; skip = false }

abbrev pub ended : Splitting → Result Text (List Text)
ended state = split_end state.quote state

unfoldable pub split_command_line : Text → Result Text (List Text)
split_command_line line = ended (run start (without_mark line))
