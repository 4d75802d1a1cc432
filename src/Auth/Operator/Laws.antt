-- ===== src/Auth/Operator/Laws.antt =====
-- Who passes as an operator: about src/auth_v2/operator.rs and `operator_auth_middleware` of
-- src/admin/uds.rs.
use agent_locksmith.Prelude.{
  ◌≡◌, ◌≢◌, ◌↔◌, refl, ap, sym, ◌∙◌, inl, inr, true, Option, none, some, ◌++◌, Result, ok, err,
  Result-cases, Option-cases, Bool-cases, find, find-eq-some, arith,
}
use agent_locksmith.Text.{Text, codes, strip_prefix}
use agent_locksmith.Text.Laws.{strip_prefix-append, strip_prefix-eq-some, eq_iff}
use agent_locksmith.Text.Utf8.{Bytes}
use agent_locksmith.Token.{
  StructuredToken, TokenNamespace, agent, operator, bootstrap, wire_format, parse,
}
use agent_locksmith.Token.Laws.{HasShape, parse_iff}
use agent_locksmith.Auth.{AuthError}
use agent_locksmith.Auth.Cert.{Certificate, validate}
use agent_locksmith.Auth.Cert.Laws.{Trusted, NameOf, validate-eq-ok}
use agent_locksmith.Auth.Middleware.{AuthMode, bearer, mtls, both}
use agent_locksmith.Auth.Operator.{
  OperatorIdentity, OperatorRecord, OperatorAuthenticator, OperatorMtlsContext, pass,
  operator_identity, record_of, declares, is_operator, operator_verified, operator_resolve,
  operator_parsed, operator_header, authenticate_operator, cert_operator,
  authenticate_cert_identity, operator_bearer, operator_validated, operator_by_mode,
  operator_auth_middleware, admit_operator,
}

-- The header carries the printed operator token of the first record with its public id, and the hash
-- of the record verifies the secret.
pub record OperatorProves (a : OperatorAuthenticator) (header : Text) (r : OperatorRecord)
    : Type 0 where
  pub token : StructuredToken
  pub printed : header ≡ codes "Bearer " ++ wire_format token
  pub shape : HasShape a.base64 token
  pub namespace : token.namespace ≡ operator
  pub known : record_of a token.public_id ≡ some r
  pub secret : a.argon2.verify r.token_hash token.secret ≡ some true

operator_of_test : (ns : TokenNamespace) → is_operator ns ≡ true → ns ≡ operator
operator_of_test agent h = ground arith
operator_of_test operator h = refl
operator_of_test bootstrap h = ground arith

module _ (a : OperatorAuthenticator) where
  resolve-eq-ok :
      (secret : Text) (row : Option OperatorRecord) (op : OperatorIdentity)
      → (operator_resolve a secret row).0 ≡ ok op
      → (r : OperatorRecord) × (row ≡ some r)
        × (a.argon2.verify r.token_hash secret ≡ some true)
        × (op ≡ operator_identity none r)
  unfolding operator_resolve operator_verified
  resolve-eq-ok secret none op h = ground arith
  resolve-eq-ok secret (some r) op h = elim (Option-cases (a.argon2.verify r.token_hash secret)) [
    | inl failed ↦ ground arith
    | inr (same, verdict) ↦ elim (Bool-cases same) [
      | inl t ↦ (r, refl, verdict ∙ ap some t, ground arith)
      | inr f ↦ ground arith
    ]
  ]

  authenticate_operator-eq-ok :
      (header : Text) (op : OperatorIdentity)
      → (authenticate_operator a header).0 ≡ ok op
      → (r : OperatorRecord) × (OperatorProves a header r) × (op ≡ operator_identity none r)
  unfolding authenticate_operator operator_header operator_parsed
  authenticate_operator-eq-ok header op h =
      elim (Option-cases (strip_prefix (codes "Bearer ") header)) [
        | inl missing ↦ ground arith
        | inr (raw, stripped) ↦ elim (Result-cases (parse a.base64 raw)) [
          | inr (e, malformed) ↦ ground arith
          | inl (t, parsed) ↦ elim (Bool-cases (is_operator t.namespace)) [
            | inr other ↦ ground arith
            | inl same ↦
                let (r, found, secret, e) =
                  resolve-eq-ok t.secret (record_of a t.public_id) op (ground arith) in
                let (whole, shape) = (parse_iff a.base64 raw t).0 parsed in
                (
                  r,
                  record {
                    token = t;
                    printed =
                        strip_prefix-eq-some (codes "Bearer ") header raw stripped
                        ∙ ap (λ x. codes "Bearer " ++ x) whole;
                    shape = shape;
                    namespace = operator_of_test t.namespace same;
                    known = found;
                    secret = secret;
                  },
                  e,
                )
          ]
        ]
      ]

  OperatorProves-authenticate :
      (header : Text) (r : OperatorRecord)
      → OperatorProves a header r
      → (authenticate_operator a header).0 ≡ ok (operator_identity none r)
  unfolding authenticate_operator operator_header operator_parsed operator_resolve operator_verified
  OperatorProves-authenticate header r p =
      let t = p.token in
      let stripped =
        ap (strip_prefix (codes "Bearer ")) p.printed
        ∙ strip_prefix-append (codes "Bearer ") (wire_format t) in
      let parsed = (parse_iff a.base64 (wire_format t) t).1 (refl, p.shape) in
      ap (λ x. (operator_header a x).0) stripped
      ∙ ap (λ x. (operator_parsed a x).0) parsed
      ∙ rw (p.namespace) (
          ap (λ x. (operator_resolve a t.secret x).0) p.known
          ∙ ap (λ v. (operator_verified a r v).0) p.secret)

  -- The operator authenticator accepts a header exactly if it is `Bearer ` and the printed token of
  -- the operator namespace whose public id is that of a record (the first such) and whose secret that
  -- record's hash verifies; and the identity it returns is that record's, with no transport method.
  pub authenticate_operator_iff :
      (header : Text) (op : OperatorIdentity)
      → ((authenticate_operator a header).0 ≡ ok op)
        ↔ ((r : OperatorRecord) × (OperatorProves a header r) × (op ≡ operator_identity none r))
  authenticate_operator_iff header op = (
    authenticate_operator-eq-ok header op,
    λ (r, p, e). OperatorProves-authenticate header r p ∙ ap ok (sym e),
  )

  cert_identity-eq-ok :
      (name : Text) (op : OperatorIdentity)
      → (authenticate_cert_identity a name).0 ≡ ok op
      → (r : OperatorRecord) × (find (declares name) a.records ≡ some r)
        × (r.cert_identity ≡ some name)
        × (op ≡ operator_identity (some (codes "mtls")) r)
  unfolding authenticate_cert_identity cert_operator
  cert_identity-eq-ok name op h = elim (Option-cases (find (declares name) a.records)) [
    | inl missing ↦ ground arith
    | inr (r, found) ↦
        let declared = find-eq-some (declares name) a.records r found in
        elim (Option-cases r.cert_identity) [
          | inl no_cert ↦ ground arith
          | inr (c, has) ↦ (r, found, ground (arith, eq_iff c name), ground arith)
        ]
  ]

-- The evidence for an identity: a bearer token on a listener that takes one, or a trusted certificate
-- whose own name a record declares, on a listener with the certificate mode.
pub data OperatorAuthentic (ctx : Option OperatorMtlsContext) (a : OperatorAuthenticator)
    (peer : Option Bytes) (header : Option Text) (op : OperatorIdentity) : Type 0 where
  by_token :
      (value : Text) (r : OperatorRecord)
      → ((m : OperatorMtlsContext) → ctx ≡ some m → m.auth_mode ≢ mtls)
      → header ≡ some value
      → OperatorProves a value r
      → op ≡ operator_identity none r
      → OperatorAuthentic ctx a peer header op
  by_certificate :
      (m : OperatorMtlsContext) (der : Bytes) (c : Certificate) (name : Text) (r : OperatorRecord)
      → ctx ≡ some m
      → m.auth_mode ≢ bearer
      → peer ≡ some der
      → Trusted m.x509 m.validator m.now der c
      → NameOf c.common_name c.general_names name
      → r.cert_identity ≡ some name
      → find (declares name) a.records ≡ some r
      → op ≡ operator_identity (some (codes "mtls")) r
      → OperatorAuthentic ctx a peer header op

admit-eq-pass :
    (r : Result OperatorIdentity AuthError) (op : OperatorIdentity)
    → admit_operator r ≡ pass op
    → r ≡ ok op
admit-eq-pass (ok o) op h = ground arith
admit-eq-pass (err e) op h = ground arith

module _ (ctx : Option OperatorMtlsContext) (a : OperatorAuthenticator) (peer : Option Bytes)
    (header : Option Text) (op : OperatorIdentity) where
  bearer-Authentic :
      ((m : OperatorMtlsContext) → ctx ≡ some m → m.auth_mode ≢ mtls)
      → (value : Option Text) → header ≡ value
      → (operator_bearer a value).0 ≡ pass op
      → OperatorAuthentic ctx a peer header op
  unfolding operator_bearer
  bearer-Authentic mode none e h = ground arith
  bearer-Authentic mode (some value) e h =
      let (r, p, same) =
        authenticate_operator-eq-ok a value op
          (admit-eq-pass (authenticate_operator a value).0 op h) in
      by_token value r mode e p same

  certificate-Authentic :
      (m : OperatorMtlsContext) (der : Bytes)
      → ctx ≡ some m
      → m.auth_mode ≢ bearer
      → peer ≡ some der
      → (operator_validated a (validate m.x509 m.validator m.now der)).0 ≡ pass op
      → OperatorAuthentic ctx a peer header op
  unfolding operator_validated
  certificate-Authentic m der wired mode e h =
      elim (Result-cases (validate m.x509 m.validator m.now der)) [
        | inr (f, bad) ↦ ground arith
        | inl (i, valid) ↦
            let (c, trusted, named) = validate-eq-ok m.x509 m.validator m.now der i valid in
            let opened : admit_operator (authenticate_cert_identity a i.value).0 ≡ pass op =
              sym (ap (λ r. (operator_validated a r).0) valid) ∙ h in
            let (r, found, declared, same) =
              cert_identity-eq-ok a i.value op
                (admit-eq-pass (authenticate_cert_identity a i.value).0 op opened) in
            by_certificate m der c i.value r wired mode e trusted named declared found same
      ]

  by_mode-Authentic :
      (m : OperatorMtlsContext) (mode : AuthMode) (cert : Option Bytes)
      → ctx ≡ some m
      → m.auth_mode ≡ mode
      → peer ≡ cert
      → (operator_by_mode mode cert m a header).0 ≡ pass op
      → OperatorAuthentic ctx a peer header op
  unfolding operator_by_mode
  by_mode-Authentic m mtls none wired e p h = ground arith
  by_mode-Authentic m mtls (some der) wired e p h =
      certificate-Authentic m der wired (λ f. ground arith) p h
  by_mode-Authentic m both (some der) wired e p h =
      certificate-Authentic m der wired (λ f. ground arith) p h
  by_mode-Authentic m both none wired e p h =
      bearer-Authentic (λ m' w f. ground arith) header refl h
  by_mode-Authentic m bearer cert wired e p h =
      bearer-Authentic (λ m' w f. ground arith) header refl h

-- A request reaches an operator route only with an identity for which there is evidence: a valid
-- operator token on a listener that is not in the mtls mode, or a certificate that is in time, trusted,
-- in no revocation list and whose own name (the common name, else a DNS name, else a URI) is declared
-- by a record, on a listener in the mtls or both mode.
pub operator_auth_middleware-pass :
    (ctx : Option OperatorMtlsContext) (a : OperatorAuthenticator) (peer : Option Bytes)
    (header : Option Text) (op : OperatorIdentity)
    → (operator_auth_middleware ctx a peer header).0 ≡ pass op
    → OperatorAuthentic ctx a peer header op
unfolding operator_auth_middleware
operator_auth_middleware-pass none a peer header op h =
    bearer-Authentic none a peer header op (λ m w f. ground arith) header refl h
operator_auth_middleware-pass (some m) a peer header op h =
    by_mode-Authentic (some m) a peer header op m m.auth_mode peer refl refl refl h
