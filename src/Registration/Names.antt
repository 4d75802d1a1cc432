-- ===== src/Registration/Names.antt =====
-- `validate_name` of src/registrations/validators.rs.
use agent_locksmith.Prelude.{
  ℕ, ◌≤◌, ◌≡◌, refl, Bool, true, false, ◌&&◌, ◌||◌, ◌↔◌, ◌⊎◌, inl, inr, List, [], ◌∷◌, all, All,
  arith, ltb, leb, eqb, not, Result, ok, ◌>>◌, reject_if, In, length, Bool-cases, and-eq-true,
  subst,
}
use agent_locksmith.Text.{Text, codes, len, is_empty, member}
use agent_locksmith.Text.Laws.{member_sound, member_complete}

pub data NameError : Type 0 where
  empty_name too_long invalid_characters reserved_name : NameError

abbrev pub reserved_names : List Text
reserved_names =
    codes "livez"
    ∷ codes "readyz"
    ∷ codes "version"
    ∷ codes "health"
    ∷ codes "skill"
    ∷ codes "tools"
    ∷ codes "models"
    ∷ codes "admin"
    ∷ codes "api"
    ∷ codes "metrics"
    ∷ codes "audit"
    ∷ []

abbrev pub max_name_len : ℕ
max_name_len = 64

abbrev is_name_char : ℕ → Bool
is_name_char c = (leb b'a' c && leb c b'z') || (leb b'0' c && leb c b'9') || eqb c b'-'

unfoldable pub validate_name : Text → Result (Unit {0}) NameError
validate_name name = do
  reject_if (is_empty name) empty_name
  reject_if (ltb max_name_len (len name)) too_long
  reject_if (not (all is_name_char name)) invalid_characters
  reject_if (member name reserved_names) reserved_name
  ok tt

-- A lower-case letter, a digit or a dash.
abbrev pub IsNameChar : ℕ → Type 0
IsNameChar c = ((b'a' ≤ c) × (c ≤ b'z')) ⊎ ((b'0' ≤ c) × (c ≤ b'9')) ⊎ (c ≡ b'-')

IsNameChar-iff : (c : ℕ) → (is_name_char c ≡ true) ↔ IsNameChar c
IsNameChar-iff c = grind arith

name_chars_iff : (s : Text) → (all is_name_char s ≡ true) ↔ All IsNameChar s
name_chars_iff [] = ground arith
name_chars_iff (c ∷ s) = (
  λ h.
      let (first, later) = and-eq-true (is_name_char c) (all is_name_char s) h in
      ((IsNameChar-iff c).0 first, (name_chars_iff s).0 later),
  λ h. rw ((IsNameChar-iff c).1 h.0, (name_chars_iff s).1 h.1),
)

len-name : (s : Text) → All IsNameChar s → len s ≡ length s
unfolding len
len-name [] h = refl
len-name (c ∷ s) (p, h) = ground (arith, len-name s h)

validate_name_sound :
    (name : Text)
    → validate_name name ≡ ok tt
    → (is_empty name ≡ false)
      × (len name ≤ 64)
      × (all is_name_char name ≡ true)
      × (member name reserved_names ≡ false)
unfolding validate_name
validate_name_sound name h = ground arith

validate_name_complete :
    (name : Text)
    → is_empty name ≡ false
    → len name ≤ 64
    → all is_name_char name ≡ true
    → member name reserved_names ≡ false
    → validate_name name ≡ ok tt
unfolding validate_name
validate_name_complete name some_text short chars free = ground arith

is_empty-length : (s : Text) → (is_empty s ≡ false) ↔ (1 ≤ length s)
is_empty-length [] = ground arith
is_empty-length (c ∷ s) = ground arith

not-member_iff : (s : Text) (ts : List Text) → (member s ts ≡ false) ↔ (¬ In s ts)
not-member_iff s ts = (
  λ h m. cc (h, member_complete m),
  λ h. elim (Bool-cases (member s ts)) [ inl t ↦ absurd (h (member_sound s ts t)) | inr f ↦ f ],
)

-- A name is accepted exactly if it has 1 to 64 characters, each a lower-case letter, a digit or a
-- dash, and is not one of the reserved names.
pub validate_name_iff :
    (name : Text)
    → (validate_name name ≡ ok tt)
      ↔ ((1 ≤ length name) × (length name ≤ 64) × All IsNameChar name × (¬ In name reserved_names))
validate_name_iff name = (
  λ h.
      let (some_text, short, chars, free) = validate_name_sound name h in
      let all_chars = (name_chars_iff name).0 chars in
      (
        (is_empty-length name).0 some_text,
        subst (λ n. n ≤ 64) (len-name name all_chars) short,
        all_chars,
        (not-member_iff name reserved_names).0 free,
      ),
  λ (some_text, short, all_chars, free).
      validate_name_complete name ((is_empty-length name).1 some_text)
        (rw (len-name name all_chars) short) ((name_chars_iff name).1 all_chars)
        ((not-member_iff name reserved_names).1 free),
)
