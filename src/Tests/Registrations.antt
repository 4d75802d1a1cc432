-- ===== src/Tests/Registrations.antt =====
-- The registry at a small table.
use agent_locksmith.Prelude.{
  ◌+◌, ◌≤◌, ◌≡◌, refl, ◌↔◌, true, false, not, some, [], ◌∷◌, ok, All, In, length, is_some,
}
use agent_locksmith.Text.{codes, ◌==◌}
use agent_locksmith.Text.Laws.{ne_of_test}
use agent_locksmith.Registration.{tool, model, direct, Registration}
use agent_locksmith.Registration.Auth.{
  stored_bearer, bearer, injects_header, to_secret_ref, is_stored, is_op, is_oauth,
  stored_secret_ref, op_reference, session_label_or_default,
}
use agent_locksmith.Registration.Auth.Custody.{one_if, one_custody}
use agent_locksmith.Registration.Names.{
  validate_name, validate_name_iff, IsNameChar, reserved_names,
}
use agent_locksmith.Registration.Table.{Rows, get}
use agent_locksmith.Registration.Table.Laws.{Keyed}
use agent_locksmith.Registration.Catalog.{
  lookup_any, lookup_active, from_repo, enabled, activation, active,
}
use agent_locksmith.Registration.Catalog.Laws.{from_repo-lookup, activation-active_iff}

abbrev pub search : Registration
search = record {
  name = codes "search";
  kind = tool;
  description = codes "web search";
  upstream = codes "https://search.example/";
  auth = bearer (codes "DEFAULT_KEY");
  egress = direct;
  timeouts = record { request_seconds = 30; idle_seconds = 60 };
  body_limit_bytes = 4096;
  metadata = [];
  seed = false;
  disabled = false;
  created_at = 1;
  updated_at = 1;
}

abbrev pub gpt : Registration
gpt = record search { name = codes "gpt"; kind = model; disabled = true }

abbrev pub rows : Rows
rows = search ∷ gpt ∷ []

pub keyed : Keyed rows
unfolding ◌==◌
keyed = ((ne_of_test gpt.name search.name refl, tt), (tt, tt))

one_custody_example :
    (one_if (not (injects_header (stored_bearer (codes "s"))))
        + one_if (is_some (to_secret_ref (stored_bearer (codes "s"))))
        + one_if (is_stored (stored_bearer (codes "s")))
        + one_if (is_op (stored_bearer (codes "s")))
        + one_if (is_oauth (stored_bearer (codes "s")))
      ≡ 1)
    × (is_some (stored_secret_ref (stored_bearer (codes "s")))
        ≡ is_stored (stored_bearer (codes "s")))
    × (is_some (op_reference (stored_bearer (codes "s"))) ≡ is_op (stored_bearer (codes "s")))
    × (is_some (session_label_or_default (stored_bearer (codes "s")))
        ≡ is_oauth (stored_bearer (codes "s")))
one_custody_example = one_custody (stored_bearer (codes "s"))

validate_name_iff_example : (validate_name (codes "gpt-4") ≡ ok tt) ↔ (
    (1 ≤ length (codes "gpt-4"))
    × (length (codes "gpt-4") ≤ 64)
    × All IsNameChar (codes "gpt-4")
    × (¬ In (codes "gpt-4") reserved_names))
validate_name_iff_example = validate_name_iff (codes "gpt-4")

from_repo-lookup_example :
    (lookup_any (from_repo rows) gpt.name ≡ get rows gpt.name)
    × (lookup_active (from_repo rows) gpt.name ≡ enabled (get rows gpt.name))
from_repo-lookup_example = from_repo-lookup rows gpt.name keyed

activation-active_iff_example :
    (activation search (some (from_repo rows)) ≡ active)
    ↔ ((search.disabled ≡ false) × (lookup_any (from_repo rows) search.name ≡ some search))
activation-active_iff_example = activation-active_iff search (from_repo rows)
