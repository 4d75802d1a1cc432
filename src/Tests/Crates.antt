-- ===== src/Tests/Crates.antt =====
-- Concrete functions for the crates that the source calls, with the laws that the model asks for.
use agent_locksmith.Prelude.{
  ℕ, ◌+◌, ◌-◌, ◌*◌, ◌/◌, ◌%◌, ◌<◌, ◌≡◌, refl, ap, ◌≢◌, true, some, [], ◌∷◌, length, All, arith, ok,
  if◌then◌else◌,
}
use agent_locksmith.Text.{Text, len, len_utf8, ◌==◌, contains}
use agent_locksmith.Text.Laws.{eq_refl}
use agent_locksmith.Text.Utf8.{Bytes}
use agent_locksmith.Token.{Base64, AreBytes}
use agent_locksmith.Agent.Table.{Argon2}
use agent_locksmith.Response.Controls.{Engine}

pub verifies : (secret h : Text) → some secret ≡ some h → some (h == secret) ≡ some true
verifies secret h e = ground (arith, eq_refl secret)

-- the hash of a secret is the secret
abbrev pub argon2 : Argon2
argon2 = record {
  hash = λ salt secret. some secret;
  verify = λ h secret. some (h == secret);
  verify-hash = λ salt secret h e. verifies secret h e;
}

-- Groups of three bytes as four characters from `0` on, without padding.
abbrev sextet : ℕ → ℕ
sextet s = s + 48

pub encode64 : Bytes → Text
encode64 [] = []
encode64 (a ∷ []) = sextet (a / 4) ∷ sextet (a % 4 * 16) ∷ []
encode64 (a ∷ b ∷ []) = sextet (a / 4) ∷ sextet (a % 4 * 16 + b / 16) ∷ sextet (b % 16 * 4) ∷ []
encode64 (a ∷ b ∷ c ∷ bs) =
    sextet (a / 4)
    ∷ sextet (a % 4 * 16 + b / 16)
    ∷ sextet (b % 16 * 4 + c / 64)
    ∷ sextet (c % 64)
    ∷ encode64 bs

pub decode64 : Text → Bytes
decode64 [] = []
decode64 (w ∷ []) = []
decode64 (w ∷ x ∷ []) = ((w - 48) * 4 + (x - 48) / 16) ∷ []
decode64 (w ∷ x ∷ y ∷ []) =
    ((w - 48) * 4 + (x - 48) / 16) ∷ ((x - 48) % 16 * 16 + (y - 48) / 4) ∷ []
decode64 (w ∷ x ∷ y ∷ z ∷ t) =
    ((w - 48) * 4 + (x - 48) / 16)
    ∷ ((x - 48) % 16 * 16 + (y - 48) / 4)
    ∷ ((y - 48) % 4 * 64 + (z - 48))
    ∷ decode64 t

first_byte : (a b : ℕ) → b < 256 → (a / 4 + 48 - 48) * 4 + (a % 4 * 16 + b / 16 + 48 - 48) / 16 ≡ a
first_byte a b h = omega arith

second_byte :
    (a b : ℕ) → b < 256 → (a % 4 * 16 + b / 16 + 48 - 48) % 16 * 16 + (b % 16 * 4 + 48 - 48) / 4 ≡ b
second_byte a b h = omega arith

second_byte_of :
    (a b c : ℕ)
    → b < 256
    → c < 256
    → (a % 4 * 16 + b / 16 + 48 - 48) % 16 * 16 + (b % 16 * 4 + c / 64 + 48 - 48) / 4 ≡ b
second_byte_of a b c h k = omega arith

third_byte : (b c : ℕ) → c < 256 → (b % 16 * 4 + c / 64 + 48 - 48) % 4 * 64 + (c % 64 + 48 - 48) ≡ c
third_byte b c h = omega arith

pub decode64-encode64 : (bs : Bytes) → AreBytes bs → decode64 (encode64 bs) ≡ bs
unfolding encode64 decode64
decode64-encode64 [] h = refl
decode64-encode64 (a ∷ []) (ha, h) = ap (λ x. x ∷ []) (omega arith)
decode64-encode64 (a ∷ b ∷ []) (ha, (hb, h)) = cc (first_byte a b hb, second_byte a b hb)
decode64-encode64 (a ∷ b ∷ c ∷ bs) (ha, (hb, (hc, h))) =
    cc (first_byte a b hb, second_byte_of a b c hb hc, third_byte b c hc, decode64-encode64 bs h)

len_sextet : (s : ℕ) → s < 64 → len_utf8 (sextet s) ≡ 1
len_sextet s h = ground arith

pub len-encode64 : (bs : Bytes) → AreBytes bs → len (encode64 bs) ≡ (length bs * 4 + 2) / 3
unfolding encode64 len
len-encode64 [] h = refl
len-encode64 (a ∷ []) (ha, h) =
    omega (arith, len_sextet (a / 4) (omega arith), len_sextet (a % 4 * 16) (omega arith))
len-encode64 (a ∷ b ∷ []) (ha, (hb, h)) = omega (
  arith,
  len_sextet (a / 4) (omega arith),
  len_sextet (a % 4 * 16 + b / 16) (omega arith),
  len_sextet (b % 16 * 4) (omega arith),
)
len-encode64 (a ∷ b ∷ c ∷ bs) (ha, (hb, (hc, h))) = omega (
  arith,
  len_sextet (a / 4) (omega arith),
  len_sextet (a % 4 * 16 + b / 16) (omega arith),
  len_sextet (b % 16 * 4 + c / 64) (omega arith),
  len_sextet (c % 64) (omega arith),
  len-encode64 bs h,
)

pub no_dot64 : (bs : Bytes) → AreBytes bs → All (λ c. c ≢ b'.') (encode64 bs)
unfolding encode64
no_dot64 [] h = tt
no_dot64 (a ∷ []) h = ground arith
no_dot64 (a ∷ b ∷ []) h = ground arith
no_dot64 (a ∷ b ∷ c ∷ bs) (ha, (hb, (hc, h))) = ground (arith, no_dot64 bs h)

pub no_match :
    (r s t : Text)
    → (if contains r s then r ∷ [] else []) ≡ []
    → (if contains r s then t else s) ≡ s
no_match r s t h = ground arith

abbrev pub base64 : Base64
base64 = record {
  encode = encode64;
  decode = λ t. some (decode64 t);
  decode_encode = λ bs h. ap some (decode64-encode64 bs h);
  len_encode = len-encode64;
  no_dot = no_dot64;
}

-- a pattern is a text, which matches where the text contains it, and is replaced as a whole
abbrev pub engine : Engine
engine = record {
  Regex = Text;
  Error = Unit;
  compile = λ t. ok t;
  find_iter = λ r s. if contains r s then r ∷ [] else [];
  replace_all = λ r s t. if contains r s then t else s;
  sha256 = λ bs. bs;
  no_match = no_match;
}
