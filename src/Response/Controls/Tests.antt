-- ===== src/Response/Controls/Tests.antt =====
-- Response controls at a small body.
use agent_locksmith.Prelude.{
  ℕ, ◌<◌, ◌≡◌, refl, ◌↔◌, true, Option, some, List, [], ◌∷◌, length, ok, arith,
}
use agent_locksmith.Text.{
  Text, codes, contains, strip_prefix, ◌==◌, eq_ignore_ascii_case, to_ascii_lowercase, lower, trim,
  trim_start, trim_end_by, is_whitespace, before,
}
use agent_locksmith.Text.Utf8.{as_bytes, from_utf8, decode_from, advance, start, encode_char}
use agent_locksmith.Response.Controls.{
  ResponseControls, RedactionRecord, allowed, size_exceeded, apply_non_streaming, apply_patterns,
  content_type_refused, over_cap, redact, redact_round, hex_sha256, concat_bytes, media_type,
  has_redaction_patterns, streaming_content_type_allowed,
}
use agent_locksmith.Response.Controls.Laws.{
  Fits, is_allowed, replace_each, records_of, allowed_iff, allowed-redacted,
}
use agent_locksmith.Response.Stream.{Poll, pending, ready, Item, drain, new, offered}
use agent_locksmith.Response.Stream.Laws.{capped, calls, drain-capped}
use agent_locksmith.Tests.Crates.{engine}

abbrev rc : ResponseControls engine
rc = record {
  max_size_bytes = some 20;
  content_type_allowlist = some (codes "text/plain" ∷ []);
  patterns = record { id = codes "k"; regex = codes "key"; replacement = codes "***" } ∷ [];
}

abbrev plain : Option Text
plain = some (codes "Text/Plain; charset=utf-8")

allowed_iff_example :
    ((is_allowed (apply_non_streaming engine rc plain (codes "a key")) ≡ true)
      ↔ (Fits (some 20) (codes "a key") × (streaming_content_type_allowed engine rc plain ≡ true)))
    × ((n cap : ℕ)
        → (apply_non_streaming engine rc plain (codes "a key") ≡ size_exceeded n cap) ↔ (
            (rc.max_size_bytes ≡ some cap)
            × (cap < length (codes "a key"))
            × (n ≡ length (codes "a key"))))
allowed_iff_example = allowed_iff engine rc plain (codes "a key")

abbrev record_of_key : RedactionRecord
record_of_key = record { pattern_id = codes "k"; matches = 1; match_hash = codes "6b6579" }

outcome :
    apply_non_streaming engine rc plain (codes "a key") ≡ allowed (codes "***") (record_of_key ∷ [])
unfolding apply_non_streaming apply_patterns content_type_refused over_cap redact redact_round
    hex_sha256 concat_bytes media_type from_utf8 decode_from advance start as_bytes encode_char
    eq_ignore_ascii_case to_ascii_lowercase lower ◌==◌ trim trim_start trim_end_by is_whitespace
    before contains strip_prefix
outcome = refl

allowed-redacted_example :
    (codes "***" ≡ as_bytes (replace_each engine rc.patterns (codes "a key")))
    × (record_of_key ∷ [] ≡ records_of engine rc.patterns (codes "a key"))
unfolding has_redaction_patterns from_utf8 decode_from advance start
allowed-redacted_example =
    allowed-redacted engine rc plain (codes "a key") (codes "a key") (codes "***")
      (record_of_key ∷ []) refl refl outcome

abbrev chunks : List (Poll (Item ℕ))
chunks = ready (ok (codes "abc")) ∷ pending ∷ ready (ok (codes "def")) ∷ []

drain-capped_example :
    ((drain ℕ 5 (new ℕ chunks (some 4))).0 ≡ capped 4 (offered ℕ chunks))
    × ((drain ℕ 5 (new ℕ chunks (some 4))).1 ≡ true)
    × ((drain ℕ 5 (new ℕ chunks (some 4))).2.fired ≡ calls 4 4 (offered ℕ chunks))
drain-capped_example = drain-capped ℕ chunks 4 5 (omega arith) (omega arith)
