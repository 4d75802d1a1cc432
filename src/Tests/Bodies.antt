-- ===== src/Tests/Bodies.antt =====
-- A concrete JSON codec, a codex body, and the bootstrap tokens.
use agent_locksmith.Prelude.{
  ℕ, suc, zero, ◌≤◌, ◌≡◌, refl, sym, ap, true, false, Option, none, some, [], ◌∷◌, ◌++◌, length, ok,
  err, arith, if◌then◌else◌,
}
use agent_locksmith.Text.{Text, codes, ◌==◌}
use agent_locksmith.Text.Utf8.{Bytes}
use agent_locksmith.Codex.{Value, boolean, string, other, Map, Parsed, object, Json, get_key, again}
use agent_locksmith.Bootstrap.{
  Tokens, BootstrapTokenRecord, BootstrapScope, BootstrapScope-discrete, Claim, consume_commit,
}
use agent_locksmith.Bootstrap.Once.{count, start, consumed_once}
use agent_locksmith.Agent.Table.{invalid_credential, sqlx}
use agent_locksmith.Tests.Crates.{argon2}

-- Texts as their length and their characters; a member as its key, a tag and its value.
abbrev Cut : Type 0
Cut = Text × Bytes

abbrev cons_to : ℕ → Cut → Cut
cons_to c (t, rest) = (c ∷ t, rest)

pub split_at : ℕ → Bytes → Cut
split_at zero bs = ([], bs)
split_at (suc n) [] = ([], [])
split_at (suc n) (b ∷ bs) = cons_to b (split_at n bs)

split_at-append : (t bs : Bytes) → split_at (length t) (t ++ bs) ≡ (t, bs)
unfolding split_at
split_at-append [] bs = refl
split_at-append (c ∷ t) bs = ap (cons_to c) (split_at-append t bs)

pub read_text : Bytes → Cut
unfolding split_at
read_text [] = ([], [])
read_text (n ∷ bs) = split_at n bs

pub put_value : Value Unit → Bytes
put_value (boolean false) = 0 ∷ []
put_value (boolean true) = 1 ∷ []
put_value (string t) = 2 ∷ length t ∷ t
put_value (other u) = 3 ∷ []

pub put_members : Map Unit → Bytes
unfolding put_value
put_members [] = []
put_members ((k, v) ∷ m) = (length k ∷ k) ++ (put_value v ++ put_members m)

abbrev as_string : Cut → Value Unit × Bytes
as_string (t, rest) = (string t, rest)

pub read_value : Bytes → Value Unit × Bytes
unfolding read_text
read_value [] = (other tt, [])
read_value (zero ∷ bs) = (boolean false, bs)
read_value (suc zero ∷ bs) = (boolean true, bs)
read_value (suc (suc zero) ∷ bs) = as_string (read_text bs)
read_value (suc (suc (suc n)) ∷ bs) = (other tt, bs)

pub read_members : ℕ → Bytes → Map Unit
unfolding read_text read_value
read_members zero bs = []
read_members (suc n) bs =
    let (k, rest) = read_text bs in
    let (v, later) = read_value rest in (k, v) ∷ read_members n later

read_value-put : (v : Value Unit) (bs : Bytes) → read_value (put_value v ++ bs) ≡ (v, bs)
unfolding read_value put_value read_text
read_value-put (boolean false) bs = refl
read_value-put (boolean true) bs = refl
read_value-put (string t) bs = ap as_string (split_at-append t bs)
read_value-put (other tt) bs = refl

read_members-put : (m : Map Unit) → read_members (length m) (put_members m) ≡ m
unfolding read_members put_members read_text
read_members-put [] = refl
read_members-put ((k, v) ∷ m) =
    rw (split_at-append k (put_value v ++ put_members m))
      (rw (read_value-put v (put_members m)) (ap (λ x. (k, v) ∷ x) (read_members-put m)))

pub from_slice : Bytes → Option (Parsed Unit)
unfolding read_members
from_slice [] = none
from_slice (n ∷ bs) = some (object (read_members n bs))

pub to_vec : Map Unit → Bytes
unfolding put_members
to_vec m = length m ∷ put_members m

pub from_slice-to_vec : (m : Map Unit) → from_slice (to_vec m) ≡ some (object m)
unfolding from_slice to_vec
from_slice-to_vec m = ap (λ x. some (object x)) (read_members-put m)

pub again_same : (o : Option (Value Unit)) → again (λ r. r) o ≡ o
again_same none = refl
again_same (some (boolean b)) = refl
again_same (some (string t)) = refl
again_same (some (other j)) = refl

abbrev pub json : Json
json = record {
  Rest = Unit;
  from_slice = from_slice;
  to_vec = to_vec;
  reread = λ m. m;
  from_slice-to_vec = from_slice-to_vec;
  reread_rest = λ r. r;
  get_key-reread = λ key m. sym (again_same (get_key key m));
}

abbrev body_map : Map Unit
body_map = (codes "store", boolean true) ∷ (codes "model", string (codes "gpt")) ∷ []

abbrev pub scope : BootstrapScope
scope = record { tool_allowlist = some []; expires_at = none; single_use = true }

abbrev pub bootstrap_row : BootstrapTokenRecord
bootstrap_row = record {
  id = 1;
  public_id = codes "t";
  secret_hash = codes "s";
  scope = scope;
  created_by = codes "op";
  created_at = 1;
  expires_at = none;
  used_at = none;
  used_by_agent_id = none;
  revoked_at = none;
  grants_reviewed = true;
}

abbrev tokens : Tokens
tokens = record { rows = bootstrap_row ∷ []; next_id = 2; online = true }

abbrev spent : Tokens
spent = record tokens {
  rows = record bootstrap_row { used_at = some 5; used_by_agent_id = some 9 } ∷ [];
}

abbrev claim : Claim
claim = record { public_id = codes "t"; scope = scope; agent_id = 9; read_at = 5 }

one_row : count (codes "t") tokens.rows ≤ 1
unfolding ◌==◌
one_row = omega arith

first_claim : consume_commit tokens claim 6 ≡ ok (spent, scope)
unfolding consume_commit ◌==◌ BootstrapScope-discrete
first_claim = refl

consumed_once_example :
    consume_commit spent (record claim { agent_id = 10 }) 7
    ≡ err (if spent.online then invalid_credential else sqlx)
consumed_once_example =
    consumed_once argon2 tokens spent spent claim (record claim { agent_id = 10 }) 6 7 scope one_row
      refl first_claim start refl
