-- ===== src/Audit.antt =====
-- Audit rows: src/repo/audit.rs. The log of a component is the list of rows in the order in which
-- they were written. A write is best effort in the source (a failed one is logged and dropped), so
-- the log has the rows that the code hands to the repository.
pub mod Store
use agent_locksmith.Prelude.{ℕ, Bool, Option, none, some, List, [], ◌∷◌}
use agent_locksmith.Text.{Text, codes}

pub data EventClass : Type 0 where
  proxy operator security : EventClass

pub data Decision : Type 0 where
  allowed denied error : Decision

-- The JSON values that the source puts into `details`.
pub data Detail : Type 0 where
  null : Detail
  text : Text → Detail
  number : ℕ → Detail
  texts : List Text → Detail
  object : List (Text × List Text) → Detail
  scope : Option (List Text) → Option ℕ → Bool → Detail

abbrev pub Details : Type 0
Details = List (Text × Detail)

pub record AuditEvent : Type 0 where
  pub ts_ms : ℕ
  pub event_class : EventClass
  pub event : Text
  pub agent_public_id : Option Text
  pub agent_name : Option Text
  pub operator_name : Option Text
  pub tool : Option Text
  pub upstream_host : Option Text
  pub method : Option Text
  pub path : Option Text
  pub status : Option ℕ
  pub latency_ms : Option ℕ
  pub decision : Decision
  pub auth_method : Option Text
  pub origin_ip : Option Text
  pub details : Option Details

-- `AuditEvent::default()`
abbrev pub default_event : AuditEvent
default_event = record {
  ts_ms = 0;
  event_class = proxy;
  event = [];
  agent_public_id = none;
  agent_name = none;
  operator_name = none;
  tool = none;
  upstream_host = none;
  method = none;
  path = none;
  status = none;
  latency_ms = none;
  decision = allowed;
  auth_method = none;
  origin_ip = none;
  details = none;
}

abbrev pub reason : Text → Option Details
reason r = some ((codes "reason", text r) ∷ [])
