-- ===== src/Token/Laws.antt =====
-- Parsing against printing: src/token.rs.
use agent_locksmith.Prelude.{
  ◌+◌, ◌*◌, ◌/◌, ◌≡◌, refl, ap, ◌∙◌, ◌↔◌, true, some, ◌++◌, ◌∷◌, ok, arith, is_some, length, inl,
  inr, Option-cases,
}
use agent_locksmith.Text.{Text, codes, len, split_once, ◌==◌}
use agent_locksmith.Text.Laws.{eq_iff}
use agent_locksmith.Text.Split.{Free, split_once-append, split_once-eq-some}
use agent_locksmith.Text.Utf8.{Bytes}
use agent_locksmith.Token.{
  AreBytes, Base64, TokenNamespace, agent, operator, bootstrap, prefix, from_prefix,
  StructuredToken, wire_format, parse, generate,
}

from_prefix-prefix : (ns : TokenNamespace) → from_prefix (prefix ns) ≡ some ns
unfolding from_prefix ◌==◌
from_prefix-prefix agent = refl
from_prefix-prefix _ = refl

from_prefix-eq-some : (s : Text) (ns : TokenNamespace) → from_prefix s ≡ some ns → s ≡ prefix ns
unfolding from_prefix
from_prefix-eq-some s ns h =
    ground (arith, eq_iff s (codes "lk"), eq_iff s (codes "lkop"), eq_iff s (codes "lkbt"))

prefix-Free : (ns : TokenNamespace) → Free b'_' (prefix ns)
prefix-Free agent = omega arith
prefix-Free operator = omega arith
prefix-Free bootstrap = omega arith

split-wire_format :
    (t : StructuredToken)
    → split_once b'_' (wire_format t) ≡ some (prefix t.namespace, t.public_id ++ b'.' ∷ t.secret)
unfolding wire_format
split-wire_format t =
    split_once-append b'_' (prefix t.namespace) (t.public_id ++ b'.' ∷ t.secret)
      (prefix-Free t.namespace)

module _ (base64 : Base64) where
  open base64 use {encode, decode, decode_encode, len_encode, no_dot}

  -- The shape that the parser asks for.
  abbrev pub HasShape : StructuredToken → Type 0
  HasShape t =
      Free b'.' t.public_id
      × (len t.public_id ≡ 22)
      × (len t.secret ≡ 43)
      × (is_some (decode t.public_id) ≡ true)
      × (is_some (decode t.secret) ≡ true)

  parse-wire_format_of_HasShape :
      (t : StructuredToken) → HasShape t → parse base64 (wire_format t) ≡ ok t
  unfolding parse
  parse-wire_format_of_HasShape t h =
      rw
        (
          split-wire_format t,
          from_prefix-prefix t.namespace,
          split_once-append b'.' t.public_id t.secret h.0,
        )
        (ground arith)

  parse-eq-ok :
      (input : Text) (t : StructuredToken)
      → parse base64 input ≡ ok t
      → (input ≡ wire_format t) × HasShape t
  unfolding parse wire_format
  parse-eq-ok input t h = elim (Option-cases (split_once b'_' input)) [
    | inl missing ↦ ground arith
    | inr ((p, rest), split) ↦ elim (Option-cases (from_prefix p)) [
      | inl unknown ↦ ground arith
      | inr (ns, known) ↦ elim (Option-cases (split_once b'.' rest)) [
        | inl missing ↦ ground arith
        | inr ((id, secret), dot) ↦
            let (whole, _) = split_once-eq-some b'_' input p rest split in
            let (parts, free) = split_once-eq-some b'.' rest id secret dot in
            let shape = from_prefix-eq-some p ns known in
            let full : input ≡ prefix ns ++ b'_' ∷ (id ++ b'.' ∷ secret) =
              rw (whole, parts, shape) in
            ground arith
      ]
    ]
  ]

  -- The parser accepts exactly the printed form of a token whose two parts have the lengths 22 and
  -- 43, decode, and whose public id has no dot; and it returns that token.
  pub parse_iff :
      (input : Text) (t : StructuredToken)
      → (parse base64 input ≡ ok t) ↔ ((input ≡ wire_format t) × HasShape t)
  parse_iff input t =
      (parse-eq-ok input t, λ h. ap (parse base64) h.0 ∙ parse-wire_format_of_HasShape t h.1)

  -- A generated token, printed as the agent presents it, parses back to itself.
  pub parse-wire_format :
      (ns : TokenNamespace) (id_bytes secret_bytes : Bytes)
      → AreBytes id_bytes
      → AreBytes secret_bytes
      → length id_bytes ≡ 16
      → length secret_bytes ≡ 32
      → parse base64 (wire_format (generate base64 ns id_bytes secret_bytes))
        ≡ ok (generate base64 ns id_bytes secret_bytes)
  unfolding generate
  parse-wire_format ns id_bytes secret_bytes are_id are_secret id_len secret_len =
      parse-wire_format_of_HasShape (generate base64 ns id_bytes secret_bytes) (
        no_dot id_bytes are_id,
        len_encode id_bytes are_id ∙ ap (λ n. (n * 4 + 2) / 3) id_len,
        len_encode secret_bytes are_secret ∙ ap (λ n. (n * 4 + 2) / 3) secret_len,
        rw (decode_encode id_bytes are_id),
        rw (decode_encode secret_bytes are_secret),
      )
