-- ===== src/Codex/Laws.antt =====
-- What the body fixup of src/codex_body.rs changes.
use agent_locksmith.Prelude.{◌≡◌, true, false, ◌⊎◌, Option, none, some, unwrap_or, if◌then◌else◌}
use agent_locksmith.Text.{Text, codes, ◌==◌}
use agent_locksmith.Text.Utf8.{Bytes}
use agent_locksmith.Codex.{Value, boolean, string, Map, get_key, again, Json, default_instructions}

module _ {J : Type 0} where
  -- a member of the fixed object, by the member of the object that was sent
  abbrev pub fixed : Text → Option (Value J) → Option (Value J)
  fixed k old =
      if codes "max_output_tokens" == k
      then none
      else if codes "instructions" == k
      then some (unwrap_or old (string default_instructions))
      else if codes "stream" == k
      then some (boolean true)
      else if codes "store" == k
      then some (boolean false)
      else old

module _ (json : Json) where
  open json use {Rest, from_slice, to_vec, reread, reread_rest, from_slice-to_vec, get_key-reread}

  -- The bytes that go on and their object, by the bytes and the object that were sent: the very same
  -- if they are as they should be, else with every member fixed, written and read back.
  abbrev pub Fixes : Bytes → Map Rest → Bytes → Map Rest → Type 0
  Fixes body m new m' =
      ((new ≡ body) × (m' ≡ m) × ((k : Text) → get_key k m ≡ fixed k (get_key k m)))
      ⊎ ((k : Text) → get_key k m' ≡ again reread_rest (fixed k (get_key k m)))
