-- ===== src/Registration.antt =====
-- Registrations: src/registrations/repo.rs, kind.rs and the configuration types they carry. The
-- children have the account selection (auth_spec.rs), the names (validators.rs), the in-memory
-- catalog (catalog.rs) and the table (repo.rs).
pub mod Auth
pub mod Names
pub mod Table
pub mod Catalog
use native.Mathlib.Decide.{ℕ_discrete}
use agent_locksmith.Prelude.{ℕ, Bool, true, false, Option}
use agent_locksmith.Text.{Text, codes}
use Auth.{AuthSpec, AuthSpec-discrete}

pub data Kind : Type 0 where
  model tool infra : Kind

unfoldable pub Kind-discrete : Discrete Kind
Kind-discrete = hlevel

unfoldable pub as_str : Kind → Text
as_str model = codes "model"
as_str tool = codes "tool"
as_str infra = codes "infra"

pub data EgressMode : Type 0 where
  direct proxied : EgressMode

pub record ToolTimeouts : Type 0 where
  pub request_seconds : ℕ
  pub idle_seconds : ℕ

-- `metadata` is the JSON object in its stored form.
pub record Registration : Type 0 where
  pub name : Text
  pub kind : Kind
  pub description : Text
  pub upstream : Text
  pub auth : AuthSpec
  pub egress : EgressMode
  pub timeouts : ToolTimeouts
  pub body_limit_bytes : ℕ
  pub metadata : Text
  pub seed : Bool
  pub disabled : Bool
  pub created_at : ℕ
  pub updated_at : ℕ

-- the derived equality
unfoldable pub Registration-discrete : Discrete Registration
Registration-discrete = hlevel (ℕ_discrete, AuthSpec-discrete)
