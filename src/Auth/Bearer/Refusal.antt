-- ===== src/Auth/Bearer/Refusal.antt =====
-- Why the bearer authenticator of src/auth_v2/agent.rs refuses a header, and what it leaves behind.
use agent_locksmith.Prelude.{
  ◌≡◌, refl, ◌≢◌, Bool, true, false, ◌⊎◌, inl, inr, Option, none, some, List, [], subst, Result, ok,
  err, is_some_and, arith, ltb, if◌then◌else◌,
}
use agent_locksmith.Text.{Text, codes, strip_prefix}
use agent_locksmith.Token.{
  StructuredToken, TokenNamespace, agent, operator, bootstrap, ParseError, parse,
}
use agent_locksmith.Agent.{AgentRecord}
use agent_locksmith.Agent.Table.{Agents, RepoError, get_active_by_public_id}
use agent_locksmith.Audit.{AuditEvent}
use agent_locksmith.Auth.{
  AuthError, status, missing_credential, invalid_credential, expired, backend,
}
use agent_locksmith.Auth.Bearer.{
  Bearer, Outcome, resolve, resolve_row, resolve_read, with_header, with_parsed, verified, is_agent,
  fails, audit_failure,
}

-- Why a header is refused: the answer and the rows of the security log for each way it can fail.
pub data Cause (b : Bearer) (db : Agents) (header : Text)
    : AuthError → List AuditEvent → Type 0 where
  not_bearer :
      strip_prefix (codes "Bearer ") header ≡ none
      → Cause b db header missing_credential (audit_failure b none (codes "missing_credential"))
  malformed :
      (raw : Text) (e : ParseError)
      → strip_prefix (codes "Bearer ") header ≡ some raw
      → parse b.base64 raw ≡ err e
      → Cause b db header invalid_credential (audit_failure b none (codes "malformed_token"))
  wrong_namespace :
      (raw : Text) (t : StructuredToken)
      → strip_prefix (codes "Bearer ") header ≡ some raw
      → parse b.base64 raw ≡ ok t
      → t.namespace ≢ agent
      → Cause b db header invalid_credential
          (audit_failure b (some t.public_id) (codes "wrong_namespace"))
  unknown :
      (raw : Text) (t : StructuredToken)
      → strip_prefix (codes "Bearer ") header ≡ some raw
      → parse b.base64 raw ≡ ok t
      → get_active_by_public_id db t.public_id ≡ ok none
      → Cause b db header invalid_credential (audit_failure b none (codes "unknown_public_id"))
  late :
      (raw : Text) (t : StructuredToken) (r : AgentRecord)
      → strip_prefix (codes "Bearer ") header ≡ some raw
      → parse b.base64 raw ≡ ok t
      → get_active_by_public_id db t.public_id ≡ ok (some r)
      → is_some_and r.expires_at (λ e. ltb e b.now) ≡ true
      → Cause b db header expired (audit_failure b (some r.public_id) (codes "expired"))
  mismatch :
      (raw : Text) (t : StructuredToken) (r : AgentRecord)
      → strip_prefix (codes "Bearer ") header ≡ some raw
      → parse b.base64 raw ≡ ok t
      → get_active_by_public_id db t.public_id ≡ ok (some r)
      → b.argon2.verify r.secret_hash t.secret ≡ some false
      → Cause b db header invalid_credential
          (audit_failure b (some r.public_id) (codes "secret_mismatch"))
  unreadable :
      (raw : Text) (t : StructuredToken) (e : RepoError)
      → strip_prefix (codes "Bearer ") header ≡ some raw
      → parse b.base64 raw ≡ ok t
      → get_active_by_public_id db t.public_id ≡ err e
      → Cause b db header backend []
  unverifiable :
      (raw : Text) (t : StructuredToken) (r : AgentRecord)
      → strip_prefix (codes "Bearer ") header ≡ some raw
      → parse b.base64 raw ≡ ok t
      → get_active_by_public_id db t.public_id ≡ ok (some r)
      → b.argon2.verify r.secret_hash t.secret ≡ none
      → Cause b db header backend []

-- A refusal wrote nothing to the table and has one of the causes; the status is 500 for the causes
-- `unreadable` and `unverifiable`, which write no row, and else 401.
pub record Refusal (b : Bearer) (db : Agents) (header : Text) (e : AuthError) (o : Outcome)
    : Type 0 where
  pub unchanged : o.db ≡ db
  pub cause : Cause b db header e o.events
  pub logged :
      ((status e ≡ 500) × (o.events ≡ []))
      ⊎ ((status e ≡ 401)
          × ((why : Text) × (id : Option Text) × (o.events ≡ audit_failure b id why)))

not_agent_of_test : (ns : TokenNamespace) → is_agent ns ≡ false → ns ≢ agent
not_agent_of_test agent h = ground arith
not_agent_of_test operator h = ground arith
not_agent_of_test bootstrap h = ground arith

module _ (b : Bearer) (db : Agents) (header : Text) where
  abbrev pub Refuses : Outcome → Type 0
  Refuses o = (e : AuthError) → o.result ≡ err e → Refusal b db header e o

  fails-Refuses :
      (e : AuthError) (id : Option Text) (why : Text)
      → status e ≡ 401
      → Cause b db header e (audit_failure b id why)
      → Refuses (fails b db e id why)
  fails-Refuses e id why s cause e' h =
      let same : e ≡ e' = ground arith in
      record {
        unchanged = refl;
        cause = subst (λ x. Cause b db header x (audit_failure b id why)) same cause;
        logged = inr (ground arith, (why, id, refl));
      }

  failed-Refuses :
      Cause b db header backend [] → Refuses (record { result = err backend; db = db; events = [] })
  failed-Refuses cause e h =
      let same : backend ≡ e = ground arith in
      record {
        unchanged = refl;
        cause = subst (λ x. Cause b db header x []) same cause;
        logged = inl (ground arith, refl);
      }

  if-Refuses :
      (c : Bool) (x y : Outcome)
      → (c ≡ true → Refuses x)
      → (c ≡ false → Refuses y)
      → Refuses (if c then x else y)
  if-Refuses true x y hx hy = hx refl
  if-Refuses false x y hx hy = hy refl

  module _ (raw : Text) (t : StructuredToken)
      (stripped : strip_prefix (codes "Bearer ") header ≡ some raw)
      (parsed : parse b.base64 raw ≡ ok t) where
    verified-Refuses :
        (r : AgentRecord) (verdict : Option Bool)
        → get_active_by_public_id db t.public_id ≡ ok (some r)
        → b.argon2.verify r.secret_hash t.secret ≡ verdict
        → Refuses (verified b db r verdict)
    verified-Refuses r none active v =
        failed-Refuses (unverifiable raw t r stripped parsed active v)
    verified-Refuses r (some true) active v = λ e h. ground arith
    verified-Refuses r (some false) active v =
        fails-Refuses invalid_credential (some r.public_id) (codes "secret_mismatch") refl
          (mismatch raw t r stripped parsed active v)

    resolve_row-Refuses :
        (row : Option AgentRecord)
        → get_active_by_public_id db t.public_id ≡ ok row
        → Refuses (resolve_row b db t.secret row)
    unfolding resolve_row
    resolve_row-Refuses none read =
        fails-Refuses invalid_credential none (codes "unknown_public_id") refl
          (unknown raw t stripped parsed read)
    resolve_row-Refuses (some r) read =
        if-Refuses (is_some_and r.expires_at (λ e. ltb e b.now))
          (fails b db expired (some r.public_id) (codes "expired"))
          (verified b db r (b.argon2.verify r.secret_hash t.secret))
          (λ over.
            fails-Refuses expired (some r.public_id) (codes "expired") refl
              (late raw t r stripped parsed read over))
          (λ in_time. verified-Refuses r (b.argon2.verify r.secret_hash t.secret) read refl)

    resolve_read-Refuses :
        (read : Result (Option AgentRecord) RepoError)
        → get_active_by_public_id db t.public_id ≡ read
        → Refuses (resolve_read b db t.secret read)
    unfolding resolve_read
    resolve_read-Refuses (ok row) e = resolve_row-Refuses row e
    resolve_read-Refuses (err f) e = failed-Refuses (unreadable raw t f stripped parsed e)

  with_parsed-Refuses :
      (raw : Text) (parsed : Result StructuredToken ParseError)
      → strip_prefix (codes "Bearer ") header ≡ some raw
      → parse b.base64 raw ≡ parsed
      → Refuses (with_parsed b db parsed)
  unfolding with_parsed resolve
  with_parsed-Refuses raw (ok t) stripped parsed =
      if-Refuses (is_agent t.namespace) (resolve b db t.public_id t.secret)
        (fails b db invalid_credential (some t.public_id) (codes "wrong_namespace"))
        (λ mine.
          resolve_read-Refuses raw t stripped parsed (get_active_by_public_id db t.public_id) refl)
        (λ other.
          fails-Refuses invalid_credential (some t.public_id) (codes "wrong_namespace") refl
            (wrong_namespace raw t stripped parsed (not_agent_of_test t.namespace other)))
  with_parsed-Refuses raw (err e) stripped parsed =
      fails-Refuses invalid_credential none (codes "malformed_token") refl
        (malformed raw e stripped parsed)

  pub with_header-Refuses :
      (raw : Option Text)
      → strip_prefix (codes "Bearer ") header ≡ raw
      → Refuses (with_header b db raw)
  unfolding with_header
  with_header-Refuses none stripped =
      fails-Refuses missing_credential none (codes "missing_credential") refl (not_bearer stripped)
  with_header-Refuses (some raw) stripped =
      with_parsed-Refuses raw (parse b.base64 raw) stripped refl
