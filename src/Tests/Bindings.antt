-- ===== src/Tests/Bindings.antt =====
-- Two agents that share one OAuth session, and the writes of a selection.
use agent_locksmith.Prelude.{
  ℕ, ◌≡◌, inl, arith, ◌↔◌, refl, Bool, true, none, some, List, [], ◌∷◌, ok, All, any,
}
use agent_locksmith.Text.{Text, codes, ◌==◌}
use agent_locksmith.Registration.Auth.{AuthSpec, bearer, oauth_device_code}
use agent_locksmith.Registration.Table.{is_grant_target}
use agent_locksmith.Proxy.Bindings.{
  AgentCredentialOverride, set_binding, get_binding, delete_binding, selected_source,
}
use agent_locksmith.Proxy.Bindings.Laws.{Shares, shared, selected_source_iff}
use agent_locksmith.Proxy.Bindings.Roundtrip.{get_binding-set_binding}
use agent_locksmith.Tests.Registrations.{rows}

abbrev any_host : Text → Bool
any_host url = true

abbrev device : AuthSpec
device =
    oauth_device_code (codes "client") [] (codes "https://d.example") (codes "https://t.example")
      (some (codes "team"))

abbrev account : ℕ → AuthSpec → AgentCredentialOverride
account id spec = record {
  agent_id = id;
  registration = codes "search";
  auth_spec = some spec;
  created_at = 1;
  updated_at = 1;
}

abbrev selections : List AgentCredentialOverride
selections = account 1 device ∷ account 2 device ∷ account 3 (bearer (codes "KEY")) ∷ []

selected_source_iff_example :
    (selected_source any_host selections (codes "search") (codes "team") ≡ ok (some device)) ↔ (
      All (Shares any_host (codes "search") (codes "team") device) selections
      × (any (shared any_host (codes "search") (codes "team") device) selections ≡ true))
selected_source_iff_example =
    selected_source_iff any_host (codes "search") (codes "team") device selections

abbrev moved : List AgentCredentialOverride
moved =
    record (account 1 (bearer (codes "OTHER"))) { updated_at = 9 }
    ∷ account 2 device
    ∷ account 3 (bearer (codes "KEY"))
    ∷ []

set_once :
    set_binding selections rows (1 ∷ 2 ∷ 3 ∷ []) 1 (codes "search") (bearer (codes "OTHER")) 9
    ≡ ok moved
unfolding set_binding is_grant_target ◌==◌
set_once = refl

get_binding-set_binding_example :
    (get_binding moved 1 (codes "search") ≡ ok (some (bearer (codes "OTHER"))))
    × (get_binding moved 2 (codes "search") ≡ get_binding selections 2 (codes "search"))
    × (get_binding (delete_binding moved 1 (codes "search")).0 1 (codes "search") ≡ ok none)
get_binding-set_binding_example =
    get_binding-set_binding selections moved rows (1 ∷ 2 ∷ 3 ∷ []) 1 (codes "search")
      (bearer (codes "OTHER")) 9 2 (codes "search") set_once (inl (omega arith))
