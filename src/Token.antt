-- ===== src/Token.antt =====
-- Structured tokens `<prefix>_<public_id>.<secret>`: src/token.rs. The `base64` crate is the
-- parameter `Base64`: the URL-safe alphabet without padding.
pub mod Laws
use agent_locksmith.Prelude.{
  ℕ, ◌+◌, ◌*◌, ◌/◌, ◌<◌, ◌≡◌, Bool, true, false, ◌&&◌, ◌||◌, not, Option, none, some, length, ◌++◌,
  ◌∷◌, Result, ok, err, ◌>>=◌, ◌>>◌, ok_or, reject_if, is_some, eqb, if◌then◌else◌, All, ◌≢◌,
}
use agent_locksmith.Text.{Text, codes, len, split_once, ◌==◌}
use agent_locksmith.Text.Utf8.{Bytes}

abbrev pub AreBytes : Bytes → Type 0
AreBytes = All (λ b. b < 256)

-- What the documentation of the crate promises: `decode` undoes `encode`, an encoding without
-- padding has ⌈4n / 3⌉ characters, and `.` is not one of them.
pub record Base64 : Type 0 where
  pub encode : Bytes → Text
  pub decode : Text → Option Bytes
  pub decode_encode : (bs : Bytes) → AreBytes bs → decode (encode bs) ≡ some bs
  pub len_encode : (bs : Bytes) → AreBytes bs → len (encode bs) ≡ (length bs * 4 + 2) / 3
  pub no_dot : (bs : Bytes) → AreBytes bs → All (λ c. c ≢ b'.') (encode bs)

pub data TokenNamespace : Type 0 where
  agent operator bootstrap : TokenNamespace

abbrev pub prefix : TokenNamespace → Text
prefix agent = codes "lk"
prefix operator = codes "lkop"
prefix bootstrap = codes "lkbt"

unfoldable pub from_prefix : Text → Option TokenNamespace
from_prefix s =
    if s == codes "lk"
    then some agent
    else if s == codes "lkop"
    then some operator
    else if s == codes "lkbt"
    then some bootstrap
    else none

pub record StructuredToken : Type 0 where
  pub namespace : TokenNamespace
  pub public_id : Text
  pub secret : Text

unfoldable pub wire_format : StructuredToken → Text
wire_format t = prefix t.namespace ++ b'_' ∷ (t.public_id ++ b'.' ∷ t.secret)

pub data ParseError : Type 0 where
  unknown_namespace missing_separator invalid_length invalid_encoding : ParseError

abbrev public_id_len : ℕ
public_id_len = 22

abbrev secret_len : ℕ
secret_len = 43

module _ (base64 : Base64) where
  open base64 use {encode, decode}

  -- The random bytes come from the operating system: 16 for the id, 32 for the secret.
  pub generate : TokenNamespace → Bytes → Bytes → StructuredToken
  generate namespace id_bytes secret_bytes = record {
    namespace = namespace;
    public_id = encode id_bytes;
    secret = encode secret_bytes;
  }

  unfoldable pub parse : Text → Result StructuredToken ParseError
  parse input = do
    (prefix_part, rest) ← ok_or (split_once b'_' input) unknown_namespace
    namespace ← ok_or (from_prefix prefix_part) unknown_namespace
    (public_id, secret) ← ok_or (split_once b'.' rest) missing_separator
    reject_if (not (eqb (len public_id) public_id_len) || not (eqb (len secret) secret_len))
        invalid_length
    reject_if (not (is_some (decode public_id)) || not (is_some (decode secret))) invalid_encoding
    ok (record { namespace = namespace; public_id = public_id; secret = secret })
