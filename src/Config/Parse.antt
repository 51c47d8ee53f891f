-- ===== src/Config/Parse.antt =====
-- crates/netplan/src/config.rs: `NetplanConfig::parse`. The serde decoders are parameters.
use netplan.Base.{
  ℕ, ◌≡◌, ◌↔◌, ok-inj, ap, refl, ◌∙◌, Bool, false, Option, none, some, List, [], ◌∷◌, ◌||◌, ◌==◌,
  drop_while, is_whitespace, if◌then◌else◌, Result, ok, err, ◌>>=◌, ◌>>◌, bind-eq-ok, seq-eq-ok,
  map_err, Text, Unicode,
}
use netplan.Base.Utf8.{from_utf8}
use netplan.Error
use netplan.Error.{Error, decode}
use netplan.Config.{NetplanConfig, ConfigFormat, auto, yaml, json}
use netplan.Config.Validate.{validate}

-- `serde_json::from_str` and `serde_saphyr::from_str` with their diagnostics, and that of
-- `std::str::from_utf8`.
pub record Decoders : Type 0 where
  pub json_from_str : Text → Result Text NetplanConfig
  pub yaml_from_str : Text → Result Text NetplanConfig
  pub utf8_error : List ℕ → Text

-- `text.trim_start().starts_with(['{', '['])`
abbrev pub opens_json : Text → Bool
opens_json [] = false
opens_json (c ∷ text) = c == b'{' || c == b'['

unfoldable pub resolve_format : Text → ConfigFormat → ConfigFormat
resolve_format text auto = if opens_json (drop_while is_whitespace text) then json else yaml
resolve_format text yaml = yaml
resolve_format text json = json

module _ (decoders : Decoders) where
  abbrev pub utf8_text : List ℕ → Option Text → Result Error Text
  utf8_text document (some text) = ok text
  utf8_text document none = err (decode Error.utf8 (decoders.utf8_error document))

  -- The resolved format is never `auto`, for which the source panics.
  abbrev pub decode_text : ConfigFormat → Text → Result Error NetplanConfig
  decode_text json text = map_err (decode Error.json) (decoders.json_from_str text)
  decode_text yaml text = map_err (decode Error.yaml) (decoders.yaml_from_str text)
  decode_text auto text = map_err (decode Error.yaml) (decoders.yaml_from_str text)

module _ (decoders : Decoders) (unicode : Unicode) where
  unfoldable pub parse : List ℕ → ConfigFormat → Result Error NetplanConfig
  parse document format = do
    text ← utf8_text decoders document (from_utf8 document)
    config ← decode_text decoders (resolve_format text format) text
    validate unicode config
    ok config

  parse-parts :
      (document : List ℕ) (format : ConfigFormat) (config : NetplanConfig)
      → parse document format ≡ ok config
      → (text : Text) × (from_utf8 document ≡ some text)
        × (decode_text decoders (resolve_format text format) text ≡ ok config)
        × (validate unicode config ≡ ok tt)
  unfolding parse
  parse-parts document format config h =
      let (text, e, rest) = bind-eq-ok (utf8_text decoders document (from_utf8 document)) _ h in
      let (c, decoded, rest') =
        bind-eq-ok (decode_text decoders (resolve_format text format) text) _ rest in
      let (valid, last) = seq-eq-ok (validate unicode c) _ rest' in
      let same : c ≡ config = ok-inj last in
      (text, decoded_text (from_utf8 document) e, decoded ∙ ap ok same, rw (← same) valid)
    where
      decoded_text :
          {t : Text} (o : Option Text) → utf8_text decoders document o ≡ ok t → o ≡ some t
      decoded_text (some t) q = ap some (ok-inj q)
      decoded_text none q = cc

  -- A document parses to a configuration exactly when it is UTF-8, its text decodes to the
  -- configuration as JSON or as YAML, whichever is asked for or found at its first character that
  -- is no white space, and `validate` accepts the configuration.
  pub parse_iff :
      (document : List ℕ) (format : ConfigFormat) (config : NetplanConfig)
      → (parse document format ≡ ok config) ↔ (
          (text : Text) × (from_utf8 document ≡ some text)
          × (decode_text decoders (resolve_format text format) text ≡ ok config)
          × (validate unicode config ≡ ok tt))
  unfolding parse
  parse_iff document format config = (
    parse-parts document format config,
    λ (text, e, decoded, valid). rw (e, utf8_text, decoded, valid) refl,
  )
