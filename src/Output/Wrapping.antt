-- ===== src/Output/Wrapping.antt =====
-- crates/netplan-cli/src/output.rs: what `wrap_text` does to a text.
use mathlib.Core.List.{append_assoc, append-nil}
use netplan.Base.{
  ℕ, ◌+◌, ◌≤◌, ◌<◌, ◌≡◌, ◌⊎◌, inl, inr, refl, sym, ap, ◌∙◌, arith, true, false, Bool-cases, List,
  [], ◌∷◌, ◌++◌, length, length-append, leb, ◌==◌, All, All-append, if◌then◌else◌, Text, codes,
  is_whitespace, split, cons_head,
}
use netplan.Output.{
  without, push_word, words_after, chunk_word, separator, push_line, place_word, place_words,
  end_line, wrap_lines, or_dash, wrap_text,
}

module _ (width : ℕ) where
  abbrev Fits : List Text × Text → Type 0
  Fits state = All (λ line. length line ≤ width) state.0 × (length state.1 ≤ width)

  chunk_word-Fits :
      0 < width
      → (output : List Text) (chunk word : Text) → Fits (output, chunk)
      → Fits (chunk_word width (output, chunk) word)
  unfolding chunk_word
  chunk_word-Fits pos output chunk [] h = h
  chunk_word-Fits pos output chunk (c ∷ s) h = elim (Bool-cases (length chunk == width)) [
    | inl full ↦ rw full (
        chunk_word-Fits pos (output ++ chunk ∷ []) (c ∷ []) s
          (All-append (λ line. length line ≤ width) output (chunk ∷ []) h.0 (h.1, tt), omega arith))
    | inr room ↦ rw room (
        chunk_word-Fits pos output (chunk ++ c ∷ []) s
          (h.0, let k = length-append chunk (c ∷ []) in ground arith))
  ]

  push_line-All :
      (output : List Text) (line : Text)
      → Fits (output, line)
      → All (λ line. length line ≤ width) (push_line output line)
  push_line-All output [] h = h.0
  push_line-All output (c ∷ line) h =
      All-append (λ line. length line ≤ width) output ((c ∷ line) ∷ []) h.0 (h.1, tt)

  place_word-Fits :
      0 < width
      → (output : List Text) (line word : Text) → Fits (output, line)
      → Fits (place_word width (output, line) word)
  unfolding place_word
  place_word-Fits pos output line word h =
      elim (Bool-cases (leb (length line + length (separator line) + length word) width)) [
        | inl room ↦ rw room (
          h.0,
          let k = length-append line (separator line ++ word) in
              let l = length-append (separator line) word in ground arith,
        )
        | inr full ↦ rw full (
            chunk_word-Fits pos (push_line output line) [] word
              (push_line-All output line h, omega arith))
      ]

  place_words-Fits :
      0 < width
      → (state : List Text × Text) (words : List Text) → Fits state
      → Fits (place_words width state words)
  unfolding place_words
  place_words-Fits pos state [] h = h
  place_words-Fits pos (output, line) (word ∷ words) h =
      place_words-Fits pos (place_word width (output, line) word) words
        (place_word-Fits pos output line word h)

  end_line-All :
      (source : Text) (state : List Text × Text)
      → Fits state
      → All (λ line. length line ≤ width) (end_line source state)
  end_line-All source (output, c ∷ line) h =
      All-append (λ line. length line ≤ width) output ((c ∷ line) ∷ []) h.0 (h.1, tt)
  end_line-All [] (output, []) h =
      All-append (λ line. length line ≤ width) output ([] ∷ []) h.0 (omega arith, tt)
  end_line-All (c ∷ source) (output, []) h = h.0

  wrap_lines-All :
      0 < width
      → (output sources : List Text) → All (λ line. length line ≤ width) output
      → All (λ line. length line ≤ width) (wrap_lines width output sources)
  unfolding wrap_lines
  wrap_lines-All pos output [] h = h
  wrap_lines-All pos output (source ∷ sources) h =
      wrap_lines-All pos (end_line source (place_words width (output, []) (words_after [] source)))
        sources
        (end_line-All source _
          (place_words-Fits pos (output, []) (words_after [] source) (h, omega arith)))

  or_dash-All :
      0 < width
      → (lines : List Text) → All (λ line. length line ≤ width) lines
      → All (λ line. length line ≤ width) (or_dash lines)
  or_dash-All pos [] h = (omega arith, tt)
  or_dash-All pos (line ∷ lines) h = h

-- The characters of a text that are no white space
unfoldable pub letters : Text → Text
letters [] = []
letters (c ∷ s) = let rest = letters s in if is_whitespace c then rest else c ∷ rest

-- The lines one after the other
abbrev pub joined : List Text → Text
joined [] = []
joined (line ∷ lines) = line ++ joined lines

letters-nil : letters [] ≡ []
unfolding letters
letters-nil = refl

letters-append : (s t : Text) → letters (s ++ t) ≡ letters s ++ letters t
unfolding letters
letters-append [] t = refl
letters-append (c ∷ s) t = elim (Bool-cases (is_whitespace c)) [
  | inl e ↦ rw e (letters-append s t)
  | inr e ↦ rw e (ap (λ r. c ∷ r) (letters-append s t))
]

joined-append : (xs ys : List Text) → joined (xs ++ ys) ≡ joined xs ++ joined ys
joined-append [] ys = refl
joined-append (x ∷ xs) ys =
    ap (λ r. x ++ r) (joined-append xs ys) ∙ sym (append_assoc x (joined xs) (joined ys))

joined-snoc : (xs : List Text) (y : Text) → joined (xs ++ y ∷ []) ≡ joined xs ++ y
joined-snoc xs y = joined-append xs (y ∷ []) ∙ ap (λ r. joined xs ++ r) (append-nil y)

-- What has been written, and the line so far
abbrev all_of : List Text × Text → Text
all_of state = joined state.0 ++ state.1

chunk_word-joined :
    (width : ℕ) (output : List Text) (chunk word : Text)
    → all_of (chunk_word width (output, chunk) word) ≡ (joined output ++ chunk) ++ word
unfolding chunk_word
chunk_word-joined width output chunk [] = sym (append-nil _)
chunk_word-joined width output chunk (c ∷ s) = elim (Bool-cases (length chunk == width)) [
  | inl full ↦ rw full (
      chunk_word-joined width (output ++ chunk ∷ []) (c ∷ []) s
      ∙ ap (λ r. (r ++ c ∷ []) ++ s) (joined-snoc output chunk)
      ∙ append_assoc (joined output ++ chunk) (c ∷ []) s)
  | inr room ↦ rw room (
      chunk_word-joined width output (chunk ++ c ∷ []) s
      ∙ ap (λ r. r ++ s) (sym (append_assoc (joined output) chunk (c ∷ [])))
      ∙ append_assoc (joined output ++ chunk) (c ∷ []) s)
]

push_line-joined :
    (output : List Text) (line : Text) → joined (push_line output line) ≡ joined output ++ line
push_line-joined output [] = sym (append-nil _)
push_line-joined output (c ∷ line) = joined-snoc output (c ∷ line)

separator-letters : (line : Text) → letters (separator line) ≡ []
unfolding letters
separator-letters [] = refl
separator-letters (c ∷ line) = refl

place_word-letters :
    (width : ℕ) (output : List Text) (line word : Text)
    → letters (all_of (place_word width (output, line) word))
      ≡ letters (all_of (output, line)) ++ letters word
unfolding place_word
place_word-letters width output line word =
    elim (Bool-cases (leb (length line + length (separator line) + length word) width)) [
      | inl room ↦ rw room (
          ap letters (sym (append_assoc (joined output) line (separator line ++ word)))
          ∙ letters-append (joined output ++ line) (separator line ++ word)
          ∙ ap (λ r. letters (joined output ++ line) ++ r)
              (letters-append (separator line) word
                ∙ ap (λ r. r ++ letters word) (separator-letters line)))
      | inr full ↦ rw full (
          ap letters (
            chunk_word-joined width (push_line output line) [] word
            ∙ ap (λ r. (r ++ []) ++ word) (push_line-joined output line)
            ∙ ap (λ r. r ++ word) (append-nil (joined output ++ line)))
          ∙ letters-append (joined output ++ line) word)
    ]

place_words-letters :
    (width : ℕ) (state : List Text × Text) (words : List Text)
    → letters (all_of (place_words width state words))
      ≡ letters (all_of state) ++ letters (joined words)
unfolding place_words letters
place_words-letters width state [] = sym (append-nil _)
place_words-letters width (output, line) (word ∷ words) =
    place_words-letters width (place_word width (output, line) word) words
    ∙ ap (λ r. r ++ letters (joined words)) (place_word-letters width output line word)
    ∙ append_assoc (letters (joined output ++ line)) (letters word) (letters (joined words))
    ∙ ap (λ r. letters (joined output ++ line) ++ r) (sym (letters-append word (joined words)))

push_word-joined :
    (word : Text) (words : List Text) → joined (push_word word words) ≡ word ++ joined words
push_word-joined [] words = refl
push_word-joined (c ∷ word) words = refl

letters_char : (c : ℕ) (s : Text) → is_whitespace c ≡ false → letters (c ∷ []) ++ s ≡ c ∷ s
unfolding letters
letters_char c s e = rw e refl

words_after-letters :
    (word s : Text) → letters (joined (words_after word s)) ≡ letters word ++ letters s
unfolding letters
words_after-letters word [] = ap letters (push_word-joined word []) ∙ letters-append word []
words_after-letters word (c ∷ s) = elim (Bool-cases (is_whitespace c)) [
  | inl e ↦ rw e (
      ap letters (push_word-joined word (words_after [] s))
      ∙ letters-append word (joined (words_after [] s))
      ∙ ap (λ r. letters word ++ r) (words_after-letters [] s))
  | inr e ↦ rw e (
      words_after-letters (word ++ c ∷ []) s
      ∙ ap (λ r. r ++ letters s) (letters-append word (c ∷ []))
      ∙ append_assoc (letters word) (letters (c ∷ [])) (letters s)
      ∙ ap (λ r. letters word ++ r) (letters_char c (letters s) e))
]

end_line-joined :
    (source : Text) (state : List Text × Text) → joined (end_line source state) ≡ all_of state
end_line-joined source (output, c ∷ line) = joined-snoc output (c ∷ line)
end_line-joined [] (output, []) = joined-snoc output []
end_line-joined (c ∷ source) (output, []) = sym (append-nil _)

wrap_lines-letters :
    (width : ℕ) (output sources : List Text)
    → letters (joined (wrap_lines width output sources))
      ≡ letters (joined output) ++ letters (joined sources)
unfolding wrap_lines letters
wrap_lines-letters width output [] = sym (append-nil _)
wrap_lines-letters width output (source ∷ sources) =
    let state = place_words width (output, []) (words_after [] source) in
    let this : letters (joined (end_line source state))
        ≡ letters (joined output) ++ letters source =
      ap letters (end_line-joined source state)
      ∙ place_words-letters width (output, []) (words_after [] source)
      ∙ ap (λ r. letters r ++ letters (joined (words_after [] source))) (append-nil (joined output))
      ∙ ap (λ r. letters (joined output) ++ r) (words_after-letters [] source) in
    wrap_lines-letters width (end_line source state) sources
    ∙ ap (λ r. r ++ letters (joined sources)) this
    ∙ append_assoc (letters (joined output)) (letters source) (letters (joined sources))
    ∙ ap (λ r. letters (joined output) ++ r) (sym (letters-append source (joined sources)))

cons_head-joined : (c : ℕ) (words : List Text) → joined (cons_head c words) ≡ c ∷ joined words
cons_head-joined c [] = refl
cons_head-joined c (w ∷ ws) = refl

split-letters : (s : Text) → letters (joined (split 10 s)) ≡ letters s
unfolding letters
split-letters [] = refl
split-letters (c ∷ s) = elim (Bool-cases (c == 10)) [
  | inl e ↦
      let space : is_whitespace c ≡ true = ground arith in rw e (split-letters s ∙ rw space refl)
  | inr e ↦ rw e (
      ap letters (cons_head-joined c (split 10 s))
      ∙ letters-append (c ∷ []) (joined (split 10 s))
      ∙ ap (λ r. letters (c ∷ []) ++ r) (split-letters s)
      ∙ sym (letters-append (c ∷ []) s))
]

without-letters : (s : Text) → letters (without 13 s) ≡ letters s
unfolding letters
without-letters [] = refl
without-letters (c ∷ s) = elim (Bool-cases (c == 13)) [
  | inl e ↦
      let space : is_whitespace c ≡ true = ground arith in rw e (without-letters s ∙ rw space refl)
  | inr e ↦ rw e (
      letters-append (c ∷ []) (without 13 s)
      ∙ ap (λ r. letters (c ∷ []) ++ r) (without-letters s)
      ∙ sym (letters-append (c ∷ []) s))
]

or_dash-letters :
    (value : Text) (lines : List Text)
    → letters (joined lines) ≡ letters value
    → (letters (joined (or_dash lines)) ≡ letters value)
      ⊎ ((letters value ≡ []) × (or_dash lines ≡ codes "-" ∷ []))
unfolding letters
or_dash-letters value [] h = inr (sym h, refl)
or_dash-letters value (line ∷ lines) h = inl h

-- For a width that is not zero, no line of `wrap_text` has more characters than the width, and the
-- lines hold the characters of the text that are no white space, in their order; but for a text of
-- white space alone there may be one line instead, a dash.
pub wrap_text-Wraps :
    (value : Text) (width : ℕ)
    → 0 < width
    → All (λ line. length line ≤ width) (wrap_text value width)
      × ((letters (joined (wrap_text value width)) ≡ letters value)
          ⊎ ((letters value ≡ []) × (wrap_text value width ≡ codes "-" ∷ [])))
unfolding wrap_text
wrap_text-Wraps value width pos =
    let lines = wrap_lines width [] (split 10 (without 13 value)) in
    (
      or_dash-All width pos lines (wrap_lines-All width pos [] (split 10 (without 13 value)) tt),
      or_dash-letters value lines (
          wrap_lines-letters width [] (split 10 (without 13 value))
          ∙ ap (λ r. r ++ letters (joined (split 10 (without 13 value)))) letters-nil
          ∙ split-letters (without 13 value)
          ∙ without-letters value),
    )
