-- ===== src/Registration/Auth/Custody.antt =====
-- The custody classes of `AuthSpec` of src/registrations/auth_spec.rs.
use agent_locksmith.Prelude.{ℕ, ◌+◌, ◌≡◌, refl, Bool, true, false, is_some, not}
use agent_locksmith.Registration.Auth.{
  AuthSpec, no_auth, is_stored, is_op, is_oauth, to_secret_ref, injects_header, stored_secret_ref,
  op_reference, session_label_or_default,
}

abbrev pub one_if : Bool → ℕ
one_if true = 1
one_if false = 0

-- Every account selection has exactly one source of its secret: none at all, an environment
-- variable, the sealed store, the `op` resolver or an OAuth session; a header is injected in every
-- case but the first; and the accessors of a source answer exactly for the selections of its class.
pub one_custody :
    (spec : AuthSpec)
    → (one_if (not (injects_header spec))
          + one_if (is_some (to_secret_ref spec))
          + one_if (is_stored spec)
          + one_if (is_op spec)
          + one_if (is_oauth spec)
        ≡ 1)
      × (is_some (stored_secret_ref spec) ≡ is_stored spec)
      × (is_some (op_reference spec) ≡ is_op spec)
      × (is_some (session_label_or_default spec) ≡ is_oauth spec)
unfolding injects_header to_secret_ref is_stored is_op is_oauth stored_secret_ref op_reference
    session_label_or_default
one_custody no_auth = (refl, refl, refl, refl)
one_custody _ = (refl, refl, refl, refl)
