-- ===== src/Response/Controls/Laws.antt =====
-- The outcomes of `apply_non_streaming` of src/response_controls.rs.
use agent_locksmith.Prelude.{
  ℕ, ◌≤◌, ◌<◌, ◌≡◌, refl, sym, ap, ◌∙◌, ◌↔◌, Bool, true, false, Option, none, some, List, [], ◌∷◌,
  ◌++◌, append_assoc, append-nil, length, arith,
}
use agent_locksmith.Text.{Text}
use agent_locksmith.Text.Utf8.{Bytes, as_bytes, from_utf8}
use agent_locksmith.Response.Controls.{
  Engine, ResponseControls, CompiledPattern, ApplyOutcome, allowed, size_exceeded,
  content_type_disallowed, RedactionRecord, apply_non_streaming, streaming_content_type_allowed,
  redact, redact_round, has_redaction_patterns, hex_sha256, concat_bytes,
}

-- A body may be refused for its size.
abbrev pub Fits : Option ℕ → Bytes → Type 0
Fits none body = Unit
Fits (some cap) body = length body ≤ cap

-- The outcome hands a body on.
abbrev pub is_allowed : ApplyOutcome → Bool
is_allowed (allowed body records) = true
is_allowed (size_exceeded n cap) = false
is_allowed (content_type_disallowed observed) = false

module _ (engine : Engine) where
  open engine use {find_iter, replace_all, no_match, sha256}

  -- The specification of the redaction: one pattern after the other.
  abbrev pub replace_each : List (CompiledPattern engine) → Text → Text
  replace_each [] text = text
  replace_each (p ∷ ps) text = replace_each ps (replace_all p.regex text p.replacement)

  -- The records: one for each pattern that has a match when its turn comes, in their order, with the
  -- number of matches and the hash of what they matched.
  abbrev pub records_of : List (CompiledPattern engine) → Text → List RedactionRecord
  records_of [] text = []
  records_of (p ∷ ps) text =
      let rest = records_of ps (replace_all p.regex text p.replacement) in
      elim (find_iter p.regex text) [
        | [] ↦ rest
        | m ∷ ms ↦
            record {
              pattern_id = p.id;
              matches = length (m ∷ ms);
              match_hash = hex_sha256 (sha256 (concat_bytes (m ∷ ms)));
            }
            ∷ rest
      ]

  abbrev State : Type 0
  State = Text × List RedactionRecord

  round-replace :
      (p : CompiledPattern engine) (found : List Text) (st : State)
      → find_iter p.regex st.0 ≡ found
      → (redact_round engine p found st).0 ≡ replace_all p.regex st.0 p.replacement
  unfolding redact_round
  round-replace p [] (text, records) e = sym (no_match p.regex text p.replacement e)
  round-replace p (m ∷ ms) (text, records) e = refl

  redact-replace :
      (ps : List (CompiledPattern engine)) (st : State)
      → (redact engine ps st).0 ≡ replace_each ps st.0
  unfolding redact
  redact-replace [] st = refl
  redact-replace (p ∷ ps) st =
      redact-replace ps (redact_round engine p (find_iter p.regex st.0) st)
      ∙ ap (replace_each ps) (round-replace p (find_iter p.regex st.0) st refl)

  round-records :
      (p : CompiledPattern engine) (found : List Text) (st : State) (rest : List RedactionRecord)
      → (redact_round engine p found st).1 ++ rest
        ≡ st.1 ++ (elim found [
          | [] ↦ rest
          | m ∷ ms ↦
              record {
                pattern_id = p.id;
                matches = length (m ∷ ms);
                match_hash = hex_sha256 (sha256 (concat_bytes (m ∷ ms)));
              }
              ∷ rest
        ])
  unfolding redact_round
  round-records p [] (text, records) rest = refl
  round-records p (m ∷ ms) (text, records) rest = append_assoc records (_ ∷ []) rest

  redact-records :
      (ps : List (CompiledPattern engine)) (st : State)
      → (redact engine ps st).1 ≡ st.1 ++ records_of ps st.0
  unfolding redact
  redact-records [] st = sym (append-nil st.1)
  redact-records (p ∷ ps) st =
      let found = find_iter p.regex st.0 in
      let next = redact_round engine p found st in
      redact-records ps next
      ∙ ap (λ t. next.1 ++ records_of ps t) (round-replace p found st refl)
      ∙ round-records p found st (records_of ps (replace_all p.regex st.0 p.replacement))

  module _ (rc : ResponseControls engine) (content_type : Option Text) (body : Bytes) where
    -- A body is handed on exactly when it fits the cap and the streaming check of its content type
    -- accepts it too: the two copies of the check agree. The size is tested first: the refusal for size
    -- comes exactly when the body is longer than the cap, with the length and the cap.
    pub allowed_iff :
        ((is_allowed (apply_non_streaming engine rc content_type body) ≡ true) ↔ (
          Fits rc.max_size_bytes body
          × (streaming_content_type_allowed engine rc content_type ≡ true)))
        × ((n cap : ℕ)
            → (apply_non_streaming engine rc content_type body ≡ size_exceeded n cap)
              ↔ ((rc.max_size_bytes ≡ some cap) × (cap < length body) × (n ≡ length body)))
    unfolding apply_non_streaming streaming_content_type_allowed
    allowed_iff = (ground arith, λ n cap. ground arith)

    -- A body that is UTF-8 and is handed on with redaction patterns is the text in which every pattern
    -- was replaced in turn; and the records are, in the order of the patterns, one for each pattern that
    -- had a match when its turn came, with its id, how many matches it had and the hash of them.
    pub allowed-redacted :
        (text : Text) (out : Bytes) (records : List RedactionRecord)
        → has_redaction_patterns engine rc ≡ true
        → from_utf8 body ≡ some text
        → apply_non_streaming engine rc content_type body ≡ allowed out records
        → (out ≡ as_bytes (replace_each rc.patterns text)) × (records ≡ records_of rc.patterns text)
    unfolding apply_non_streaming has_redaction_patterns
    allowed-redacted text out records some_patterns decoded h =
        ground (arith, redact-replace rc.patterns (text, []), redact-records rc.patterns (text, []))
