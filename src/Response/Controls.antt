-- ===== src/Response/Controls.antt =====
-- `ResponseControls` and `apply_non_streaming` of src/response_controls.rs. The `regex` and `sha2`
-- crates are the parameter `Engine`, with the documented law that `replace_all` leaves a text
-- without a match as it is.
pub mod Laws
mod Tests
use agent_locksmith.Prelude.{
  ℕ, ◌+◌, ◌-◌, ◌/◌, ◌%◌, ◌≡◌, Bool, true, false, not, Option, none, some, List, [], ◌∷◌, ◌++◌,
  length, any, ltb, Result, ok, err, ◌>>=◌, unwrap_or, eqb, if◌then◌else◌,
}
use agent_locksmith.Text.{Text, codes, before, trim, to_ascii_lowercase, eq_ignore_ascii_case}
use agent_locksmith.Text.Utf8.{Bytes, as_bytes, from_utf8}

pub record Engine : Type 1 where
  pub Regex : Type 0
  pub Error : Type 0
  pub compile : Text → Result Regex Error
  pub find_iter : Regex → Text → List Text
  pub replace_all : Regex → Text → Text → Text
  pub sha256 : Bytes → Bytes
  pub no_match : (r : Regex) (s t : Text) → find_iter r s ≡ [] → replace_all r s t ≡ s

-- `RedactionPatternConfig` and `ResponseControlsConfig` of src/config.rs
pub record PatternConfig : Type 0 where
  pub id : Text
  pub regex : Text
  pub replacement : Option Text

pub record ControlsConfig : Type 0 where
  pub max_size_bytes : Option ℕ
  pub content_type_allowlist : Option (List Text)
  pub redaction_patterns : List PatternConfig

pub record RedactionRecord : Type 0 where
  pub pattern_id : Text
  pub matches : ℕ
  pub match_hash : Text

pub data ApplyOutcome : Type 0 where
  allowed : Bytes → List RedactionRecord → ApplyOutcome
  size_exceeded : ℕ → ℕ → ApplyOutcome
  content_type_disallowed : Text → ApplyOutcome

-- `a` as two hexadecimal digits, and `hex_sha256`
abbrev hex_digit : ℕ → ℕ
hex_digit d = if ltb d 10 then b'0' + d else b'a' + (d - 10)

unfoldable pub hex_sha256 : Bytes → Text
hex_sha256 [] = []
hex_sha256 (b ∷ bs) = hex_digit (b / 16) ∷ hex_digit (b % 16) ∷ hex_sha256 bs

unfoldable pub concat_bytes : List Text → Bytes
concat_bytes [] = []
concat_bytes (s ∷ ss) = as_bytes s ++ concat_bytes ss

-- What the allowlist compares: the content type up to the first `;`, trimmed, in lower case.
media_type : Option Text → Text
media_type content_type =
    to_ascii_lowercase (trim (before (λ c. eqb c b';') (unwrap_or content_type [])))

module _ (engine : Engine) where
  open engine use {Regex, Error, compile, find_iter, replace_all, sha256}

  pub record CompiledPattern : Type 0 where
    pub id : Text
    pub regex : Regex
    pub replacement : Text

  pub record ResponseControls : Type 0 where
    pub max_size_bytes : Option ℕ
    pub content_type_allowlist : Option (List Text)
    pub patterns : List CompiledPattern

  compile_pattern : PatternConfig → Result CompiledPattern Error
  compile_pattern p = do
    regex ← compile p.regex
    ok (record {
      id = p.id;
      regex = regex;
      replacement = unwrap_or p.replacement (codes "[REDACTED:" ++ p.id ++ codes "]");
    })

  compile_patterns : List PatternConfig → Result (List CompiledPattern) Error
  unfolding compile_pattern
  compile_patterns [] = ok []
  compile_patterns (p ∷ ps) = do q ← compile_pattern p; qs ← compile_patterns ps; ok (q ∷ qs)

  -- `ResponseControls::compile`
  pub compile_controls : ControlsConfig → Result ResponseControls Error
  unfolding compile_patterns
  compile_controls cfg = do
    patterns ← compile_patterns cfg.redaction_patterns
    ok (record {
      max_size_bytes = cfg.max_size_bytes;
      content_type_allowlist = cfg.content_type_allowlist;
      patterns = patterns;
    })

  unfoldable pub streaming_size_cap : ResponseControls → Option ℕ
  streaming_size_cap rc = rc.max_size_bytes

  unfoldable pub has_redaction_patterns : ResponseControls → Bool
  has_redaction_patterns rc = elim rc.patterns [ [] ↦ false | p ∷ ps ↦ true ]

  unfoldable pub streaming_content_type_allowed : ResponseControls → Option Text → Bool
  unfolding media_type
  streaming_content_type_allowed rc content_type = elim rc.content_type_allowlist [
    | none ↦ true
    | some allow ↦ any (λ a. eq_ignore_ascii_case a (media_type content_type)) allow
  ]

  -- One round of the loop over the patterns, with the matches that `find_iter` found.
  redact_round :
      CompiledPattern → List Text → Text × List RedactionRecord → Text × List RedactionRecord
  unfolding hex_sha256 concat_bytes
  redact_round p [] (working, records) = (working, records)
  redact_round p (m ∷ ms) (working, records) = (
    replace_all p.regex working p.replacement,
    records
        ++ record {
          pattern_id = p.id;
          matches = length (m ∷ ms);
          match_hash = hex_sha256 (sha256 (concat_bytes (m ∷ ms)));
        }
          ∷ [],
  )

  redact : List CompiledPattern → Text × List RedactionRecord → Text × List RedactionRecord
  unfolding redact_round
  redact [] state = state
  redact (p ∷ ps) state = redact ps (redact_round p (find_iter p.regex state.0) state)

  apply_patterns : ResponseControls → Bytes → ApplyOutcome
  unfolding redact
  apply_patterns rc body = elim rc.patterns [
    | [] ↦ allowed body []
    | p ∷ ps ↦ elim (from_utf8 body) [
      | none ↦ allowed body []
      | some text ↦
          let (working, records) = redact rc.patterns (text, []) in
          allowed (as_bytes working) records
    ]
  ]

  -- the test of the content type in `apply_non_streaming`, which is written out there once more
  content_type_refused : ResponseControls → Option Text → Bool
  unfolding media_type
  content_type_refused rc content_type = elim rc.content_type_allowlist [
    | none ↦ false
    | some allow ↦ not (any (λ a. eq_ignore_ascii_case a (media_type content_type)) allow)
  ]

  over_cap : ResponseControls → Bytes → Option ℕ
  over_cap rc body = elim rc.max_size_bytes [
    | none ↦ none
    | some cap ↦ if ltb cap (length body) then some cap else none
  ]

  unfoldable pub apply_non_streaming : ResponseControls → Option Text → Bytes → ApplyOutcome
  unfolding apply_patterns content_type_refused over_cap
  apply_non_streaming rc content_type body = elim (over_cap rc body) [
    | some cap ↦ size_exceeded (length body) cap
    | none ↦
        if content_type_refused rc content_type
        then content_type_disallowed (unwrap_or content_type [])
        else apply_patterns rc body
  ]
