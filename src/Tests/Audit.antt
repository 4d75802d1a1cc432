-- ===== src/Tests/Audit.antt =====
-- The audit table at three rows.
use agent_locksmith.Prelude.{◌+◌, ◌≡◌, none, some, [], ◌∷◌, refl, length, arith}
use agent_locksmith.Text.{codes}
use agent_locksmith.Audit.{AuditEvent, default_event}
use agent_locksmith.Audit.Store.{AuditFilter, query, sweep_older_than}
use agent_locksmith.Audit.Store.Laws.{sweep-query}
use agent_locksmith.Prelude.{List}
use agent_locksmith.Tests.Agents.{alice, bob}

abbrev rows : List AuditEvent
rows =
    record default_event {
      ts_ms = 5;
      event = codes "agent_register";
      agent_public_id = some alice.public_id;
    }
    ∷ record default_event { ts_ms = 9; event = codes "agent_rotate" }
    ∷ record default_event { ts_ms = 7; event = codes "agent_deregister" }
    ∷ []

abbrev since_six : AuditFilter
since_six = record {
  since_ms = some 6;
  until_ms = none;
  agent_public_id = none;
  tool = none;
  event_class = none;
  decision = none;
}

sweep-query_example :
    (length (sweep_older_than rows 6).0 + (sweep_older_than rows 6).1 ≡ length rows)
    × (sweep_older_than (sweep_older_than rows 6).0 6 ≡ ((sweep_older_than rows 6).0, 0))
    × (query
          (sweep_older_than rows 6).0
          (alice ∷ bob ∷ [])
          since_six
          (record { limit = 9; offset = 0 })
        ≡ query rows (alice ∷ bob ∷ []) since_six (record { limit = 9; offset = 0 }))
sweep-query_example =
    sweep-query rows (alice ∷ bob ∷ []) 6 6 since_six (record { limit = 9; offset = 0 }) refl
      (omega arith)
