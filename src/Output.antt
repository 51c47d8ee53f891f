-- ===== src/Output.antt =====
-- crates/netplan-cli/src/output.rs: what the command line prints. `wrap_text` and what lays lines out
-- stand here, the answers in Output/Render.
pub mod Render
pub mod Answers
pub mod Wrapping
use netplan.Base.{
  ℕ, ◌+◌, ◌-◌, ◌==◌, leb, ltb, Bool, true, false, not, List, [], ◌∷◌, ◌++◌, map, length, replicate,
  is_nil, any, if◌then◌else◌, Text, codes, is_whitespace, split,
}

abbrev pub human_output_width : ℕ
human_output_width = 88

-- `value.replace(c, "")` and `value.replace(['\r', '\n'], " ")`
abbrev pub without : ℕ → Text → Text
without c [] = []
without c (d ∷ s) = let rest = without c s in if d == c then rest else d ∷ rest

abbrev pub clean_cell : Text → Text
clean_cell = map (λ c. if c == 13 then 32 else if c == 10 then 32 else c)

abbrev pub push_word : Text → List Text → List Text
push_word [] words = words
push_word (c ∷ word) words = (c ∷ word) ∷ words

-- `split_whitespace`, with the word read so far
abbrev pub words_after : Text → Text → List Text
words_after word [] = push_word word []
words_after word (c ∷ s) =
    let ended = words_after [] s in
    let longer = words_after (word ++ c ∷ []) s in
    if is_whitespace c then push_word word ended else longer

-- The characters of a word that is longer than a line, by chunks
unfoldable pub chunk_word : ℕ → List Text × Text → Text → List Text × Text
chunk_word width (output, chunk) [] = (output, chunk)
chunk_word width (output, chunk) (c ∷ s) =
    chunk_word width
      (if length chunk == width then (output ++ chunk ∷ [], c ∷ []) else (output, chunk ++ c ∷ []))
      s

abbrev pub separator : Text → Text
separator [] = []
separator (c ∷ line) = 32 ∷ []

abbrev pub push_line : List Text → Text → List Text
push_line output [] = output
push_line output (c ∷ line) = output ++ (c ∷ line) ∷ []

-- A word after the line so far
unfoldable pub place_word : ℕ → List Text × Text → Text → List Text × Text
place_word width (output, line) word =
    if leb (length line + length (separator line) + length word) width
    then (output, line ++ (separator line ++ word))
    else chunk_word width (push_line output line, []) word

unfoldable pub place_words : ℕ → List Text × Text → List Text → List Text × Text
place_words width state [] = state
place_words width state (word ∷ words) = place_words width (place_word width state word) words

-- The end of a line of the source
abbrev pub end_line : Text → List Text × Text → List Text
end_line source (output, c ∷ line) = output ++ (c ∷ line) ∷ []
end_line [] (output, []) = output ++ [] ∷ []
end_line (c ∷ source) (output, []) = output

unfoldable pub wrap_lines : ℕ → List Text → List Text → List Text
wrap_lines width output [] = output
wrap_lines width output (source ∷ sources) =
    wrap_lines width (end_line source (place_words width (output, []) (words_after [] source)))
      sources

abbrev pub or_dash : List Text → List Text
or_dash [] = codes "-" ∷ []
or_dash (line ∷ lines) = line ∷ lines

unfoldable pub wrap_text : Text → ℕ → List Text
wrap_text value width = or_dash (wrap_lines width [] (split 10 (without 13 value)))
