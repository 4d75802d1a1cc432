-- ===== src/Agent/Acl.antt =====
-- The access rule: `allows_tool` of src/auth_v2/agent.rs.
use agent_locksmith.Prelude.{
  ◌≡◌, ◌↔◌, true, false, Option, none, some, List, ok, err, In, arith, Bool-cases, inl, inr,
  is_some_and,
}
use agent_locksmith.Text.{Text, member}
use agent_locksmith.Text.Laws.{member_sound, member_complete}
use agent_locksmith.Agent.{AgentIdentity, allows_tool, in_denylist, not_in_allowlist}

-- The tool stands in the list, and there is a list.
abbrev pub Listed : Text → Option (List Text) → Type 0
Listed tool none = ⊥
Listed tool (some tools) = In tool tools

Listed-iff :
    (tool : Text) (o : Option (List Text))
    → (is_some_and o (λ l. member tool l) ≡ true) ↔ Listed tool o
Listed-iff tool none = ground arith
Listed-iff tool (some l) = (member_sound tool l, member_complete)

not-Listed_iff :
    (tool : Text) (o : Option (List Text))
    → (is_some_and o (λ l. member tool l) ≡ false) ↔ (¬ Listed tool o)
not-Listed_iff tool o = (
  λ h l. cc (h, (Listed-iff tool o).1 l),
  λ h. elim (Bool-cases (is_some_and o (λ l. member tool l))) [
    | inl t ↦ absurd (h ((Listed-iff tool o).0 t))
    | inr f ↦ f
  ],
)

-- A tool is allowed exactly if the agent has an allowlist with the tool and no denylist with it; the
-- denylist is what a denial names whenever it has the tool, and the allowlist otherwise.
pub allows_tool_iff :
    (identity : AgentIdentity) (tool : Text)
    → ((allows_tool identity tool ≡ ok tt)
        ↔ (Listed tool identity.tool_allowlist × (¬ Listed tool identity.tool_denylist)))
      × ((allows_tool identity tool ≡ err in_denylist) ↔ Listed tool identity.tool_denylist)
      × ((allows_tool identity tool ≡ err not_in_allowlist)
          ↔ ((¬ Listed tool identity.tool_allowlist) × (¬ Listed tool identity.tool_denylist)))
unfolding allows_tool
allows_tool_iff identity tool = grind (
  arith,
  Listed-iff tool identity.tool_allowlist,
  Listed-iff tool identity.tool_denylist,
  not-Listed_iff tool identity.tool_allowlist,
  not-Listed_iff tool identity.tool_denylist,
)
