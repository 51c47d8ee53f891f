-- ===== src/Windows/Xml.antt =====
-- A reader of XML for documents of elements and texts, and what it makes of the texts that
-- `xml_escape` of crates/netpland/src/platform/windows/wifi.rs writes. It gives each piece of markup
-- with the text behind it, and refuses what is not well nested.
use mathlib.Core.List.{append-nil, append_assoc}
use netplan.Base.{
  ℕ, ◌==◌, ==_iff, between, ◌≡◌, refl, sym, ap, ◌∙◌, inl, inr, Bool, true, false, ◌||◌, all,
  Bool-cases, and-true, Option, none, some, List, [], ◌∷◌, ◌++◌, Text, text_eq, codes,
  if◌then◌else◌,
}
use netplan.Windows.Wifi.{escaped, xml_escape}

-- The entities that XML predefines
abbrev pub entity : Text → Option ℕ
entity name =
    if text_eq name (codes "amp")
    then some 38
    else if text_eq name (codes "lt")
    then some 60
    else if text_eq name (codes "gt")
    then some 62
    else if text_eq name (codes "quot")
    then some 34
    else if text_eq name (codes "apos")
    then some 39
    else none

-- A character of XML 1.0 that a processor passes on as it is: a carriage return becomes a line feed.
unfoldable pub is_plain : ℕ → Bool
is_plain c =
    c == 9 || c == 10 || between 32 55295 c || between 57344 65533 c || between 65536 1114111 c

-- Before the document, in a piece of markup, in the text behind one, and in a reference there
pub data Mode : Type 0 where
  prolog : Mode
  markup : (tag : Text) → Mode
  content : (tag text : Text) → Mode
  reference : (tag text name : Text) → Mode

abbrev pub Pieces : Type 0
Pieces = List (Text × Text)

-- The pieces read are kept with the last one first.
abbrev pub in_order : Pieces → Pieces → Pieces
in_order [] found = found
in_order (piece ∷ done) found = in_order done (piece ∷ found)

abbrev pub referred : Pieces → Text → Text → Option ℕ → Option (Pieces × Mode)
referred done tag text none = none
referred done tag text (some c) = some (done, content tag (text ++ c ∷ []))

abbrev pub step : Pieces → Mode → ℕ → Option (Pieces × Mode)
step done prolog c = if c == b'<' then some (done, markup []) else none
step done (markup tag) c =
    if c == b'>'
    then some (done, content tag [])
    else if c == b'<'
    then none
    else some (done, markup (tag ++ c ∷ []))
step done (content tag text) c =
    if c == b'<'
    then some ((tag, text) ∷ done, markup [])
    else if c == b'&'
    then some (done, reference tag text [])
    else if c == b'>'
    then none
    else if is_plain c
    then some (done, content tag (text ++ c ∷ []))
    else none
step done (reference tag text name) c =
    if c == b';'
    then referred done tag text (entity name)
    else some (done, reference tag text (name ++ c ∷ []))

abbrev pub finished : Pieces → Mode → Option Pieces
finished done prolog = none
finished done (markup tag) = none
finished done (content tag text) = some (in_order ((tag, text) ∷ done) [])
finished done (reference tag text name) = none

unfoldable pub pieces : Option (Pieces × Mode) → Text → Option Pieces
pieces none s = none
pieces (some state) [] = finished state.0 state.1
pieces (some state) (c ∷ s) = pieces (step state.0 state.1 c) s

-- The name of the element that a start tag opens, which ends at the first space
abbrev pub element : Text → Text
element [] = []
element (c ∷ s) = let rest = element s in if c == b' ' then [] else c ∷ rest

abbrev pub pops : Text → List Text → (List Text → Bool) → Bool
pops name [] k = false
pops name (top ∷ opened) k = let rest = k opened in if text_eq name top then rest else false

-- Whether every end tag ends the last element that is open, and none is open at the end
abbrev pub nested : List Text → Pieces → Bool
nested [] [] = true
nested (top ∷ opened) [] = false
nested opened (([], text) ∷ rest) = false
nested opened ((c ∷ tag, text) ∷ rest) =
    if c == b'?'
    then nested opened rest
    else if c == b'/'
    then pops tag opened (λ left. nested left rest)
    else nested (element (c ∷ tag) ∷ opened) rest

abbrev pub accepted : Option Pieces → Option Pieces
accepted none = none
accepted (some found) = if nested [] found then some found else none

unfoldable pub read_xml : Text → Option Pieces
read_xml s = accepted (pieces (some ([], prolog)) s)

abbrev pub within : Pieces → Text → Text → Option (Pieces × Mode)
within done tag text = some (done, content tag text)

step-plain :
    (done : Pieces) (tag text : Text) (c : ℕ)
    → c == 60 ≡ false
    → c == 38 ≡ false
    → c == 62 ≡ false
    → is_plain c ≡ true
    → step done (content tag text) c ≡ within done tag (text ++ c ∷ [])
step-plain done tag text c lt amp gt plain = rw (lt, amp, gt, plain) refl

pieces-plain :
    (done : Pieces) (tag text : Text) (c : ℕ) (s : Text)
    → c == 60 ≡ false
    → c == 38 ≡ false
    → c == 62 ≡ false
    → is_plain c ≡ true
    → pieces (within done tag text) (c ∷ s) ≡ pieces (within done tag (text ++ c ∷ [])) s
unfolding pieces
pieces-plain done tag text c s lt amp gt plain =
    ap (λ st. pieces st s) (step-plain done tag text c lt amp gt plain)

pieces-escaped :
    (done : Pieces) (tag text : Text) (c : ℕ) (s : Text)
    → is_plain c ≡ true
    → pieces (within done tag text) (escaped c ++ s) ≡ pieces (within done tag (text ++ c ∷ [])) s
unfolding pieces text_eq
pieces-escaped done tag text c s plain = elim (Bool-cases (c == 38)) [
  | inl e ↦ let same = (==_iff c 38).0 e in rw same refl
  | inr amp ↦ elim (Bool-cases (c == 60)) [
    | inl e ↦ let same = (==_iff c 60).0 e in rw same refl
    | inr lt ↦ elim (Bool-cases (c == 62)) [
      | inl e ↦ let same = (==_iff c 62).0 e in rw same refl
      | inr gt ↦ elim (Bool-cases (c == 34)) [
        | inl e ↦ let same = (==_iff c 34).0 e in rw same refl
        | inr quot ↦ elim (Bool-cases (c == 39)) [
          | inl e ↦ let same = (==_iff c 39).0 e in rw same refl
          | inr apos ↦ rw (amp, lt, gt, quot, apos) (pieces-plain done tag text c s lt amp gt plain)
        ]
      ]
    ]
  ]
]

-- Behind a text that `xml_escape` wrote, the reader has that text.
pub pieces-xml_escape :
    (done : Pieces) (tag text t s : Text)
    → all is_plain t ≡ true
    → pieces (within done tag text) (xml_escape t ++ s) ≡ pieces (within done tag (text ++ t)) s
unfolding xml_escape
pieces-xml_escape done tag text [] s plain =
    ap (λ u. pieces (within done tag u) s) (sym (append-nil text))
pieces-xml_escape done tag text (c ∷ t) s plain =
    let (now, later) = and-true (is_plain c) (all is_plain t) plain in
    ap (pieces (within done tag text)) (append_assoc (escaped c) (xml_escape t) s)
    ∙ pieces-escaped done tag text c (xml_escape t ++ s) now
    ∙ pieces-xml_escape done tag (text ++ c ∷ []) t s later
    ∙ ap (λ u. pieces (within done tag u) s) (append_assoc text (c ∷ []) t)
