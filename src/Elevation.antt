-- ===== src/Elevation.antt =====
-- crates/netplan/src/windows_elevation.rs: the command line that starts a program again with its
-- arguments. A text is given by its UTF-16 units.
pub mod Quoting
use netplan.Base.{
  ℕ, suc, ◌+◌, ◌*◌, ◌==◌, Bool, true, false, not, ◌&&◌, ◌||◌, if◌then◌else◌, List, [], ◌∷◌, ◌++◌,
  any, is_nil, replicate, Text, codes, contains, Result, ok, err, ◌>>=◌,
}

-- `io::Error::new(InvalidInput, …)`
abbrev pub nul_error : Text
nul_error = codes "Windows paths and arguments cannot contain NUL characters"

unfoldable pub wide_null : Text → Result Text Text
wide_null value = if contains 0 value then err nul_error else ok (value ++ 0 ∷ [])

abbrev pub quote : ℕ
quote = b'"'

abbrev pub slash : ℕ
slash = 92

-- `matches!(*character, 9 | 32)`
abbrev pub is_blank : ℕ → Bool
is_blank c = c == 9 || c == 32

abbrev pub needs_quotes : Text → Bool
needs_quotes value = is_nil value || any (λ c. is_blank c || c == quote) value

-- The loop over the characters of a quoted value, `slashes` being those that were just passed, and
-- what is pushed behind it.
unfoldable pub quoted_rest : ℕ → Text → Text
quoted_rest slashes [] = replicate (slashes * 2) slash ++ quote ∷ []
quoted_rest slashes (c ∷ value) =
    let passed = quoted_rest (suc slashes) value in
    let rest = quoted_rest 0 value in
    if c == slash
    then passed
    else if c == quote
    then replicate (slashes * 2 + 1) slash ++ quote ∷ rest
    else replicate slashes slash ++ c ∷ rest

unfoldable pub append_quoted_argument : Text → Text → Result Text Text
append_quoted_argument output value =
    if contains 0 value
    then err nul_error
    else ok (output ++ (if needs_quotes value then quote ∷ quoted_rest 0 value else value))

-- The loop over the arguments, from an index
abbrev pub append_arguments : ℕ → Text → List Text → Result Text Text
append_arguments index output [] = ok output
append_arguments index output (argument ∷ arguments) = do
  result ← append_quoted_argument (if index == 0 then output else output ++ b' ' ∷ []) argument
  append_arguments (suc index) result arguments

unfoldable pub command_line : List Text → Result Text Text
command_line arguments = append_arguments 0 [] arguments >>= λ result. ok (result ++ 0 ∷ [])
