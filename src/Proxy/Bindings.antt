-- ===== src/Proxy/Bindings.antt =====
-- The accounts that agents select: `AgentCredentialRepository` of src/repo/agent_creds.rs, and the
-- consensus on a shared OAuth session of src/oauth/refresh.rs. The `url` crate is the parameter
-- `host_url`: the text parses as a URL with the scheme http or https and a host.
pub mod Laws
pub mod Roundtrip
use mathlib.Core.Logic.{ite}
use agent_locksmith.Prelude.{
  ℕ, Bool, true, false, ◌&&◌, ◌||◌, not, Option, none, some, List, [], ◌∷◌, ◌++◌, any, keep, find,
  map, eqb, Result, ok, err, ◌>>◌, ◌>>=◌, reject_if, ok_or, is_some_and, if◌then◌else◌,
}
use agent_locksmith.Text.{Text, is_empty, trim, ◌==◌}
use agent_locksmith.Registration.Auth.{
  AuthSpec, AuthSpec-discrete, oauth_pkce, oauth_device_code, oauth_session_label,
}
use agent_locksmith.Registration.Table.{Rows, is_grant_target}
use agent_locksmith.Agent.Table.{RepoError, sqlx, invalid_grant_target, invalid_account_binding}

-- A row; `auth_spec` is `none` when the stored JSON is no `AuthSpec`.
pub record AgentCredentialOverride : Type 0 where
  pub agent_id : ℕ
  pub registration : Text
  pub auth_spec : Option AuthSpec
  pub created_at : ℕ
  pub updated_at : ℕ

abbrev pub is_binding : ℕ → Text → AgentCredentialOverride → Bool
is_binding agent_id registration b = eqb b.agent_id agent_id && b.registration == registration

abbrev pub put_binding :
    AgentCredentialOverride → List AgentCredentialOverride → List AgentCredentialOverride
put_binding new bindings =
    if any (is_binding new.agent_id new.registration) bindings
    then map
        (λ b.
          if is_binding new.agent_id new.registration b
          then record b { auth_spec = new.auth_spec; updated_at = new.updated_at }
          else b)
        bindings
    else bindings ++ new ∷ []

-- `set`; the foreign key wants an agent with the id
unfoldable pub set_binding :
    List AgentCredentialOverride
    → Rows
    → List ℕ
    → ℕ
    → Text
    → AuthSpec
    → ℕ
    → Result (List AgentCredentialOverride) RepoError
set_binding bindings registrations agent_ids agent_id registration spec now = do
  reject_if (not (is_grant_target registrations registration)) invalid_grant_target
  reject_if (not (any (eqb agent_id) agent_ids)) sqlx
  ok (
      put_binding
        (record {
          agent_id = agent_id;
          registration = registration;
          auth_spec = some spec;
          created_at = now;
          updated_at = now;
        })
        bindings)

-- the selected account in a row
abbrev pub spec_of_row : Option AgentCredentialOverride → Result (Option AuthSpec) RepoError
spec_of_row none = ok none
spec_of_row (some row) = elim row.auth_spec [
  | none ↦ err invalid_account_binding
  | some s ↦ ok (some s)
]

unfoldable pub get_binding :
    List AgentCredentialOverride → ℕ → Text → Result (Option AuthSpec) RepoError
get_binding bindings agent_id registration =
    spec_of_row (find (is_binding agent_id registration) bindings)

unfoldable pub delete_binding :
    List AgentCredentialOverride → ℕ → Text → List AgentCredentialOverride × Bool
delete_binding bindings agent_id registration = (
  keep (λ b. not (is_binding agent_id registration b)) bindings,
  any (is_binding agent_id registration) bindings,
)

-- `list_all`: one unreadable row fails the whole list
unfoldable pub list_all : List AgentCredentialOverride → Result (List (Text × AuthSpec)) RepoError
list_all [] = ok []
list_all (b ∷ bindings) =
    let rest = list_all bindings in
    do
      spec ← ok_or b.auth_spec invalid_account_binding
      specs ← rest
      ok ((b.registration, spec) ∷ specs)

module _ (host_url : Text → Bool) where
  -- `selected_parameters(spec).is_some()`
  abbrev pub usable : AuthSpec → Bool
  usable (oauth_pkce id uri scopes auth_url token_url label) =
      host_url token_url && not (is_empty (trim id))
  usable (oauth_device_code id scopes device_url token_url label) =
      host_url token_url && not (is_empty (trim id))
  usable _ = false

  abbrev pub same_spec : AuthSpec → AuthSpec → Bool
  same_spec s t = ite (AuthSpec-discrete s t) true false

  unfoldable pub consensus : Option AuthSpec → List AuthSpec → Result (Option AuthSpec) (Unit {0})
  consensus selected [] = ok selected
  consensus selected (spec ∷ specs) =
      let rest = consensus (some spec) specs in
      if not (usable spec) || is_some_and selected (λ prior. not (same_spec prior spec))
      then err tt
      else rest

  abbrev pub shares_session : Text → Text → Text × AuthSpec → Bool
  shares_session name label (registration, spec) =
      registration == name
      && is_some_and (oauth_session_label spec) (λ l. l == label)
      && not (is_empty (trim label))

  abbrev pub consensus_of :
      Text → Text → Result (List (Text × AuthSpec)) RepoError → Result (Option AuthSpec) (Unit {0})
  consensus_of name label (err e) = err tt
  consensus_of name label (ok rows) =
      consensus none (map (λ (e : Text × AuthSpec). e.1) (keep (shares_session name label) rows))

  unfoldable pub selected_source :
      List AgentCredentialOverride → Text → Text → Result (Option AuthSpec) (Unit {0})
  selected_source bindings name label = consensus_of name label (list_all bindings)
