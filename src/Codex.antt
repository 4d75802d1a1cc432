-- ===== src/Codex.antt =====
-- The body fixup of codex requests: src/codex_body.rs. The crate serde_json is the parameter `Json`; a
-- JSON object is the list of its members, and the values that the code does not look into are `Rest`.
pub mod Laws
use agent_locksmith.Prelude.{
  ℕ, ◌*◌, ◌≡◌, Bool, true, false, ◌&&◌, not, Option, none, some, List, [], ◌∷◌, ◌++◌, keep, length,
  ltb, is_some, Result, ok, err, ◌>>=◌, ◌>>◌, reject_if, if◌then◌else◌,
}
use agent_locksmith.Text.{Text, codes, ◌==◌}
use agent_locksmith.Text.Utf8.{Bytes}

pub data Value (J : Type 0) : Type 0 where
  boolean : Bool → Value J
  string : Text → Value J
  other : J → Value J

abbrev pub Map : Type 0 → Type 0
Map J = List (Text × Value J)

-- `Map::get`, `Map::insert`, `Map::remove`
unfoldable pub get_key : {J : Type 0} → Text → Map J → Option (Value J)
get_key key [] = none
get_key key ((k, v) ∷ m) = if k == key then some v else get_key key m

unfoldable pub insert_key : {J : Type 0} → Text → Value J → Map J → Map J
insert_key key value [] = (key, value) ∷ []
insert_key key value ((k, v) ∷ m) =
    if k == key then (k, value) ∷ m else (k, v) ∷ insert_key key value m

abbrev pub remove_key : {J : Type 0} → Text → Map J → Map J
remove_key {J} key m = keep (λ (e : Text × Value J). not (e.0 == key)) m

pub data Parsed (J : Type 0) : Type 0 where
  object : Map J → Parsed J
  no_object : Parsed J

-- a member after its value was written and read again: `f` is what that does to a value that the code
-- does not look into
abbrev pub again : {J : Type 0} → (J → J) → Option (Value J) → Option (Value J)
again f none = none
again f (some (boolean b)) = some (boolean b)
again f (some (string t)) = some (string t)
again f (some (other j)) = some (other (f j))

-- Reading back what was written gives an object with the same keys, Booleans and strings; another value
-- is what `reread_rest` makes of it, which may differ (serde_json may read a float back as another).
pub record Json : Type 1 where
  pub Rest : Type 0
  pub from_slice : Bytes → Option (Parsed Rest)
  pub to_vec : Map Rest → Bytes
  pub reread : Map Rest → Map Rest
  pub from_slice-to_vec : (m : Map Rest) → from_slice (to_vec m) ≡ some (object (reread m))
  pub reread_rest : Rest → Rest
  pub get_key-reread :
      (key : Text) (m : Map Rest) → get_key key (reread m) ≡ again reread_rest (get_key key m)

pub record FixupSummary : Type 0 where
  pub fields_added : List Text
  pub fields_overridden : List Text
  pub fields_removed : List Text

abbrev pub no_change : FixupSummary
no_change = record { fields_added = []; fields_overridden = []; fields_removed = [] }

abbrev pub is_empty_list : List Text → Bool
is_empty_list [] = true
is_empty_list (t ∷ ts) = false

abbrev pub is_noop : FixupSummary → Bool
is_noop s =
    is_empty_list s.fields_added
    && is_empty_list s.fields_overridden
    && is_empty_list s.fields_removed

abbrev pub max_body_bytes : ℕ
max_body_bytes = 1024 * 1024

pub data CodexBodyError : Type 0 where
  too_large : CodexBodyError

abbrev pub default_instructions : Text
default_instructions = codes "You are a helpful assistant."

abbrev pub add_field : Text → FixupSummary → FixupSummary
add_field key s = record s { fields_added = s.fields_added ++ key ∷ [] }

abbrev pub override_field : Text → FixupSummary → FixupSummary
override_field key s = record s { fields_overridden = s.fields_overridden ++ key ∷ [] }

abbrev pub remove_field : Text → FixupSummary → FixupSummary
remove_field key s = record s { fields_removed = s.fields_removed ++ key ∷ [] }

module _ {J : Type 0} where
  -- one rule for a Boolean member that has to be `value`
  unfoldable pub force :
      Text → Bool → Option (Value J) → Map J × FixupSummary → Map J × FixupSummary
  force key value none (m, s) = (insert_key key (boolean value) m, add_field key s)
  force key value (some (boolean b)) (m, s) =
      if (if value then b else not b)
      then (m, s)
      else (insert_key key (boolean value) m, override_field key s)
  force key value (some (string t)) (m, s) =
      (insert_key key (boolean value) m, override_field key s)
  force key value (some (other j)) (m, s) = (insert_key key (boolean value) m, override_field key s)

  unfoldable pub apply_store_rule : Map J × FixupSummary → Map J × FixupSummary
  apply_store_rule (m, s) = force (codes "store") false (get_key (codes "store") m) (m, s)

  unfoldable pub apply_stream_rule : Map J × FixupSummary → Map J × FixupSummary
  apply_stream_rule (m, s) = force (codes "stream") true (get_key (codes "stream") m) (m, s)

  unfoldable pub apply_instructions_rule : Map J × FixupSummary → Map J × FixupSummary
  apply_instructions_rule (m, s) = if is_some (get_key (codes "instructions") m) then (m, s) else (
    insert_key (codes "instructions") (string default_instructions) m,
    add_field (codes "instructions") s,
  )

  unfoldable pub apply_max_output_tokens_rule : Map J × FixupSummary → Map J × FixupSummary
  apply_max_output_tokens_rule (m, s) =
      if is_some (get_key (codes "max_output_tokens") m)
      then (remove_key (codes "max_output_tokens") m, remove_field (codes "max_output_tokens") s)
      else (m, s)

  unfoldable pub apply_rules : Map J → Map J × FixupSummary
  apply_rules m =
      apply_max_output_tokens_rule
        (apply_instructions_rule (apply_stream_rule (apply_store_rule (m, no_change))))

module _ (json : Json) where
  open json use {Rest, from_slice, to_vec}

  abbrev pub written : Bytes → Map Rest × FixupSummary → Bytes × FixupSummary
  written body (m, s) = if is_noop s then (body, s) else (to_vec m, s)

  unfoldable pub fix_parsed : Bytes → Option (Parsed Rest) → Bytes × FixupSummary
  fix_parsed body none = (body, no_change)
  fix_parsed body (some no_object) = (body, no_change)
  fix_parsed body (some (object m)) = written body (apply_rules m)

  unfoldable pub fixup : Bytes → Result (Bytes × FixupSummary) CodexBodyError
  fixup body = do
    reject_if (ltb max_body_bytes (length body)) too_large
    ok (fix_parsed body (from_slice body))
