-- ===== src/Audit/Store.antt =====
-- The table `audit`: `AuditRepository` of src/repo/audit.rs, in the order of the writes. `details` is
-- kept as the value that its JSON text stands for; the JSONL mirror is left out. A row is joined with
-- the agent of its public id for the name.
pub mod Laws
use agent_locksmith.Prelude.{
  ℕ, Bool, true, false, ◌&&◌, not, Option, none, some, List, [], ◌∷◌, ◌++◌, keep, map, find, length,
  take, drop, ltb, leb, order_desc, is_some_and,
}
use agent_locksmith.Text.{Text, ◌==◌}
use agent_locksmith.Audit.{
  EventClass, proxy, operator, security, Decision, allowed, denied, error, AuditEvent,
}
use agent_locksmith.Agent.{AgentRecord}

pub record AuditFilter : Type 0 where
  pub since_ms : Option ℕ
  pub until_ms : Option ℕ
  pub agent_public_id : Option Text
  pub tool : Option Text
  pub event_class : Option EventClass
  pub decision : Option Decision

pub record AuditPage : Type 0 where
  pub limit : ℕ
  pub offset : ℕ

abbrev pub same_class : EventClass → EventClass → Bool
same_class proxy proxy = true
same_class operator operator = true
same_class security security = true
same_class _ _ = false

abbrev pub same_decision : Decision → Decision → Bool
same_decision allowed allowed = true
same_decision denied denied = true
same_decision error error = true
same_decision _ _ = false

-- a condition that is there only if the filter has a value
abbrev pub wants {ℓ} : {A : Type ℓ} → Option A → (A → Bool) → Bool
wants none p = true
wants (some v) p = p v

unfoldable pub matches : AuditFilter → AuditEvent → Bool
matches f e =
    wants f.since_ms (λ t. leb t e.ts_ms)
    && wants f.until_ms (λ t. ltb e.ts_ms t)
    && wants f.agent_public_id (λ id. is_some_and e.agent_public_id (λ a. a == id))
    && wants f.tool (λ t. is_some_and e.tool (λ u. u == t))
    && wants f.event_class (same_class e.event_class)
    && wants f.decision (same_decision e.decision)

-- `INSERT INTO audit …`: the name of the agent is no column
unfoldable pub record_event : List AuditEvent → AuditEvent → List AuditEvent
record_event rows e = rows ++ record e { agent_name = none } ∷ []

-- `LEFT JOIN agents`
abbrev pub name_of_id : List AgentRecord → Option Text → Option Text
name_of_id agents none = none
name_of_id agents (some id) = elim (find (λ a. a.public_id == id) agents) [
  | none ↦ none
  | some a ↦ some a.name
]

abbrev pub joined : List AgentRecord → AuditEvent → AuditEvent
joined agents e = record e { agent_name = name_of_id agents e.agent_public_id }

-- the rows that match, the latest first
unfoldable pub matching : List AuditEvent → AuditFilter → List AuditEvent
matching rows f = order_desc (λ (e : AuditEvent). e.ts_ms) (keep (matches f) rows)

unfoldable pub query :
    List AuditEvent → List AgentRecord → AuditFilter → AuditPage → List AuditEvent
unfolding matching
query rows agents f page =
    map (joined agents) (take page.limit (drop page.offset (matching rows f)))

-- the table without the rows before the cutoff, and how many those were
unfoldable pub sweep_older_than : List AuditEvent → ℕ → List AuditEvent × ℕ
sweep_older_than rows cutoff =
    (keep (λ e. not (ltb e.ts_ms cutoff)) rows, length (keep (λ e. ltb e.ts_ms cutoff) rows))
