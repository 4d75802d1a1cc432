-- ===== src/Auth/Cert.antt =====
-- Client certificates: src/mtls/validator.rs, the snapshots of src/mtls/crl.rs and of
-- src/mtls/blocklist.rs, and `MtlsAuthenticator` of src/mtls/authenticator.rs. The crates pem,
-- x509-parser and webpki are the parameter `X509`; `now` is the clock in seconds.
pub mod Laws
use agent_locksmith.Prelude.{
  ℕ, zero, suc, ◌+◌, ◌-◌, ◌/◌, ◌%◌, Bool, true, false, ◌&&◌, ◌||◌, not, Option, none, some, List,
  [], ◌∷◌, ◌++◌, map, keep, find, Result, ok, err, ◌>>=◌, ◌>>◌, ok_or, reject_if, is_some_and, ltb,
  if◌then◌else◌,
}
use agent_locksmith.Text.{Text, codes, is_empty, member, to_ascii_lowercase, ◌==◌}
use agent_locksmith.Text.Utf8.{Bytes}
use agent_locksmith.Audit.{AuditEvent, default_event, security, denied, Details, text, null}
use agent_locksmith.Agent.{AgentRecord, AgentIdentity, identity_of}
use agent_locksmith.Agent.Table.{Agents, RepoError, get_by_cert_identity}
use agent_locksmith.Auth.{AuthError, invalid_credential, backend}

pub data GeneralName : Type 0 where
  dns_name uri : Text → GeneralName
  other_name : GeneralName

-- What the code reads of a certificate: the first common name, `none` when there is none or it is
-- no string, and the general names, empty when there is no readable extension.
pub record Certificate : Type 0 where
  pub not_before : ℕ
  pub not_after : ℕ
  pub serial : Bytes
  pub common_name : Option Text
  pub general_names : List GeneralName

pub record X509 : Type 0 where
  pub parse_many : Bytes → Option (List (Text × Bytes))
  pub from_der : Bytes → Option Certificate
  pub end_entity : Bytes → Bool
  pub is_anchor : Bytes → Bool
  pub verify_for_usage : Bytes → List Bytes → ℕ → Bool
  pub revoked_certificates : Bytes → Option (List Bytes)

pub data MtlsError : Type 0 where
  untrusted_chain cert_expired not_yet_valid malformed_cert no_identity : MtlsError
  revoked_by_crl revoked_by_blocklist : Text → MtlsError

pub record MtlsIdentity : Type 0 where
  pub value : Text
  pub kind : Text
  pub serial_hex : Text

-- `{b:02x}` of every byte
hex_digit : ℕ → ℕ
hex_digit d = if ltb d 10 then b'0' + d else (b'a' + d) - 10

unfoldable pub to_hex : Bytes → Text
unfolding hex_digit
to_hex [] = []
to_hex (b ∷ bs) = hex_digit (b / 16) ∷ hex_digit (b % 16) ∷ to_hex bs

-- `Blocklist::contains` and `CrlStore::contains`: the serials of the current snapshot
abbrev pub contains_serial : List Text → Text → Bool
contains_serial serials serial_hex = member (to_ascii_lowercase serial_hex) serials

pub record MtlsValidator : Type 0 where
  pub roots : List Bytes
  pub crl : Option (List Text)
  pub blocklist : Option (List Text)

pub record CrlState : Type 0 where
  pub revoked_serials : List Text
  pub last_success_unix_secs : ℕ

-- the first general name that the test keeps and that is not empty
abbrev pub dns_names : GeneralName → Text
dns_names (dns_name s) = s
dns_names (uri s) = []
dns_names other_name = []

abbrev pub uris : GeneralName → Text
uris (uri s) = s
uris (dns_name s) = []
uris other_name = []

abbrev pub first_name : (GeneralName → Text) → List GeneralName → Option Text
first_name f names = find (λ s. not (is_empty s)) (map f names)

abbrev pub found_uri : Text → Option Text → Result MtlsIdentity MtlsError
found_uri serial_hex (some s) =
    ok (record { value = s; kind = codes "san_uri"; serial_hex = serial_hex })
found_uri serial_hex none = err no_identity

abbrev pub found_dns : Text → List GeneralName → Option Text → Result MtlsIdentity MtlsError
found_dns serial_hex names (some s) =
    ok (record { value = s; kind = codes "san_dns"; serial_hex = serial_hex })
found_dns serial_hex names none = found_uri serial_hex (first_name uris names)

-- the common name, then the DNS names, then the URIs; an empty string does not count
unfoldable pub extract_identity :
    Text → Option Text → List GeneralName → Result MtlsIdentity MtlsError
extract_identity serial_hex none names = found_dns serial_hex names (first_name dns_names names)
extract_identity serial_hex (some cn) names =
    if is_empty cn
    then found_dns serial_hex names (first_name dns_names names)
    else ok (record { value = cn; kind = codes "cn"; serial_hex = serial_hex })

abbrev is_empty_list : List Bytes → Bool
is_empty_list [] = true
is_empty_list (b ∷ bs) = false

abbrev join_serials : Option (List Bytes) → Option (List Text × ℕ) → Option (List Text × ℕ)
join_serials none rest = none
join_serials (some serials) none = none
join_serials (some serials) (some (later, blocks)) = some (map to_hex serials ++ later, suc blocks)

module _ (x509 : X509) where
  -- `MtlsValidator::new`
  unfoldable pub new_validator : Bytes → Result MtlsValidator MtlsError
  new_validator ca_bundle_pem = do
    blocks ← ok_or (x509.parse_many ca_bundle_pem) malformed_cert
    let roots = map (λ block. block.1) (keep (λ block. block.0 == codes "CERTIFICATE") blocks)
    reject_if (is_empty_list roots) malformed_cert
    ok (record { roots = roots; crl = none; blocklist = none })

  unfoldable pub validate : MtlsValidator → ℕ → Bytes → Result MtlsIdentity MtlsError
  validate v now cert_der = do
    parsed ← ok_or (x509.from_der cert_der) malformed_cert
    reject_if (ltb now parsed.not_before) not_yet_valid
    reject_if (ltb parsed.not_after now) cert_expired
    reject_if (not (x509.end_entity cert_der)) malformed_cert
    let anchors = keep x509.is_anchor v.roots
    reject_if (is_empty_list anchors) untrusted_chain
    reject_if (not (x509.verify_for_usage cert_der anchors now)) untrusted_chain
    let serial_hex = to_hex parsed.serial
    reject_if (is_some_and v.blocklist (λ l. contains_serial l serial_hex))
        (revoked_by_blocklist serial_hex)
    reject_if (is_some_and v.crl (λ l. contains_serial l serial_hex)) (revoked_by_crl serial_hex)
    extract_identity serial_hex parsed.common_name parsed.general_names

  -- the serials of the CRL blocks, in order, and how many blocks there are
  unfoldable pub collect_serials : List (Text × Bytes) → Option (List Text × ℕ)
  collect_serials [] = some ([], 0)
  collect_serials ((tag, contents) ∷ blocks) =
      let rest = collect_serials blocks in
      if tag == codes "X509 CRL"
      then join_serials (x509.revoked_certificates contents) rest
      else rest

  unfoldable pub collect_blocks : Option (List (Text × Bytes)) → Option (List Text × ℕ)
  collect_blocks none = none
  collect_blocks (some blocks) = collect_serials blocks

  -- `CrlStore::apply_pem`: the snapshot after it, and the number of serials or an error
  unfoldable pub applied : CrlState → ℕ → Option (List Text × ℕ) → CrlState × Bool
  applied store now none = (store, false)
  applied store now (some (serials, zero)) = (store, false)
  applied store now (some (serials, suc n)) =
      (record { revoked_serials = serials; last_success_unix_secs = now }, true)

  unfoldable pub apply_pem : CrlState → ℕ → Bytes → CrlState × Bool
  apply_pem store now pem_bytes = applied store now (collect_blocks (x509.parse_many pem_bytes))

-- The `Display` text, without the words that the crates put behind "malformed certificate: ", and
-- the audit reason.
abbrev pub mtls_message : MtlsError → Text
mtls_message untrusted_chain = codes "untrusted chain"
mtls_message cert_expired = codes "certificate expired"
mtls_message not_yet_valid = codes "certificate not yet valid"
mtls_message malformed_cert = codes "malformed certificate: "
mtls_message no_identity = codes "no identity extractable from cert"
mtls_message (revoked_by_crl serial) = codes "revoked by CRL (serial " ++ serial ++ codes ")"
mtls_message (revoked_by_blocklist serial) =
    codes "revoked by local blocklist (serial " ++ serial ++ codes ")"

abbrev pub mtls_reason : MtlsError → Text
mtls_reason untrusted_chain = codes "untrusted_chain"
mtls_reason cert_expired = codes "cert_expired"
mtls_reason not_yet_valid = codes "cert_not_yet_valid"
mtls_reason malformed_cert = codes "malformed_cert"
mtls_reason no_identity = codes "no_identity"
mtls_reason (revoked_by_crl serial) = codes "revoked_by_crl"
mtls_reason (revoked_by_blocklist serial) = codes "revoked_by_blocklist"

-- The authenticator: its validator, whether it has an audit repository, and the clocks.
pub record MtlsAuthenticator : Type 0 where
  pub x509 : X509
  pub validator : MtlsValidator
  pub audit : Bool
  pub now : ℕ
  pub now_ms : ℕ

abbrev mtls_row : MtlsAuthenticator → Text → Details → List AuditEvent
mtls_row a event details =
    if a.audit
    then record default_event {
      ts_ms = a.now_ms;
      event_class = security;
      event = event;
      decision = denied;
      auth_method = some (codes "mtls");
      details = some details;
    }
      ∷ []
    else []

abbrev pub audit_failure_blocking : MtlsAuthenticator → MtlsError → List AuditEvent
audit_failure_blocking a e = mtls_row a (codes "mtls_auth_failure") (
    (codes "reason", text (mtls_reason e))
    ∷ (codes "message", text (mtls_message e))
    ∷ (codes "serial_hex", null)
    ∷ [])

abbrev pub audit_unknown_identity : MtlsAuthenticator → MtlsIdentity → List AuditEvent
audit_unknown_identity a i = mtls_row a (codes "mtls_unknown_identity") (
    (codes "identity", text i.value)
    ∷ (codes "kind", text i.kind)
    ∷ (codes "serial_hex", text i.serial_hex)
    ∷ [])

unfoldable pub bind_identity :
    MtlsAuthenticator
    → MtlsIdentity
    → Result (Option AgentRecord) RepoError
    → Result AgentIdentity AuthError × List AuditEvent
bind_identity a i (ok (some r)) = (ok (identity_of r), [])
bind_identity a i (ok none) = (err invalid_credential, audit_unknown_identity a i)
bind_identity a i (err e) = (err backend, [])

unfoldable pub with_identity :
    MtlsAuthenticator
    → Agents
    → Result MtlsIdentity MtlsError
    → Result AgentIdentity AuthError × List AuditEvent
with_identity a db (err e) = (err invalid_credential, audit_failure_blocking a e)
with_identity a db (ok i) = bind_identity a i (get_by_cert_identity db i.value)

unfoldable pub authenticate_cert :
    MtlsAuthenticator → Agents → Bytes → Result AgentIdentity AuthError × List AuditEvent
authenticate_cert a db cert_der = with_identity a db (validate a.x509 a.validator a.now cert_der)
