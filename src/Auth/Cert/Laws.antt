-- ===== src/Auth/Cert/Laws.antt =====
-- What a client certificate proves, and what a CRL changes: about src/mtls.
use agent_locksmith.Prelude.{
  ℕ, ◌≤◌, ◌≡◌, ap, subst, ◌∙◌, Bool, true, false, inl, inr, Option, none, some, List, ok,
  Result-cases, Option-cases, Bool-cases, is_some_and, arith, find-eq-some, is_some, not, ◌&&◌,
  keep, map, ◌∷◌, [], In, here, there,
}
use agent_locksmith.Text.{Text, is_empty}
use agent_locksmith.Text.Laws.{eq_iff}
use agent_locksmith.Text.Utf8.{Bytes}
use agent_locksmith.Agent.{AgentRecord, AgentIdentity, identity_of}
use agent_locksmith.Agent.Table.{Agents, get_by_cert_identity, has_cert}
use agent_locksmith.Auth.Cert.{
  X509, Certificate, GeneralName, dns_name, uri, other_name, MtlsIdentity, MtlsValidator,
  MtlsAuthenticator, to_hex, contains_serial, extract_identity, validate, bind_identity,
  with_identity, authenticate_cert, first_name, found_dns, uris, dns_names,
}

-- The certificate is in its validity window, chains to an anchor, and no list has its serial.
pub record Trusted (x509 : X509) (v : MtlsValidator) (now : ℕ) (cert : Bytes) (c : Certificate)
    : Type 0 where
  pub parsed : x509.from_der cert ≡ some c
  pub started : c.not_before ≤ now
  pub not_over : now ≤ c.not_after
  pub chain : x509.verify_for_usage cert (keep x509.is_anchor v.roots) now ≡ true
  pub not_blocked : is_some_and v.blocklist (λ l. contains_serial l (to_hex c.serial)) ≡ false
  pub not_in_crl : is_some_and v.crl (λ l. contains_serial l (to_hex c.serial)) ≡ false

-- The name of a certificate: its common name; a DNS name of it, if the common name is missing or
-- empty; a URI of it, if also every DNS name is empty. It is never empty.
pub data NameOf (cn : Option Text) (names : List GeneralName) (name : Text) : Type 0 where
  by_common_name : cn ≡ some name → is_empty name ≡ false → NameOf cn names name
  by_dns_name :
      ((s : Text) → cn ≡ some s → is_empty s ≡ true)
      → In (dns_name name) names
      → is_empty name ≡ false
      → NameOf cn names name
  by_uri :
      ((s : Text) → cn ≡ some s → is_empty s ≡ true)
      → ((s : Text) → In (dns_name s) names → is_empty s ≡ true)
      → In (uri name) names
      → is_empty name ≡ false
      → NameOf cn names name

first_name-not_empty :
    (f : GeneralName → Text) (names : List GeneralName) (s : Text)
    → first_name f names ≡ some s
    → is_empty s ≡ false
first_name-not_empty f names s h =
    ground (arith, find-eq-some {0} (λ s. not (is_empty s)) (map f names) s h)

dns_of : (n : GeneralName) (s : Text) → is_empty s ≡ false → dns_names n ≡ s → n ≡ dns_name s
dns_of (dns_name d) s h e = ap dns_name e
dns_of (uri u) s h e = ground arith
dns_of other_name s h e = ground arith

uri_of : (n : GeneralName) (s : Text) → is_empty s ≡ false → uris n ≡ s → n ≡ uri s
uri_of (dns_name d) s h e = ground arith
uri_of (uri u) s h e = ap uri e
uri_of other_name s h e = ground arith

module _ (f : GeneralName → Text) (made : Text → GeneralName)
    (only : (n : GeneralName) (s : Text) → is_empty s ≡ false → f n ≡ s → n ≡ made s) where
  first_name-In :
      (names : List GeneralName) (s : Text) → first_name f names ≡ some s → In (made s) names
  first_name-In [] s h = ground arith
  first_name-In (n ∷ names) s h = elim (Bool-cases (is_empty (f n))) [
    | inl e ↦ there (first_name-In names s (ground arith))
    | inr full ↦ let same : f n ≡ s = ground arith in here (only n s (ground arith) same)
  ]

first_name-eq-none :
    (names : List GeneralName) (s : Text)
    → first_name dns_names names ≡ none
    → In (dns_name s) names
    → is_empty s ≡ true
first_name-eq-none [] s h within = elim within [ ]
first_name-eq-none (n ∷ names) s h (here e) =
    let same : dns_names n ≡ s = ap dns_names e in ground arith
first_name-eq-none (n ∷ names) s h (there later) = first_name-eq-none names s (ground arith) later

found_dns-NameOf :
    (serial : Text) (cn : Option Text) (names : List GeneralName) (i : MtlsIdentity)
    → ((s : Text) → cn ≡ some s → is_empty s ≡ true)
    → found_dns serial names (first_name dns_names names) ≡ ok i
    → NameOf cn names i.value
found_dns-NameOf serial cn names i no_cn h = elim (Option-cases (first_name dns_names names)) [
  | inr (s, e) ↦
      let same : s ≡ i.value = ground arith in
      subst (NameOf cn names) same (
        by_dns_name no_cn (first_name-In dns_names dns_name dns_of names s e)
          (first_name-not_empty dns_names names s e))
  | inl no_dns ↦ elim (Option-cases (first_name uris names)) [
    | inr (s, e) ↦
        let same : s ≡ i.value = ground arith in
        subst (NameOf cn names) same (
          by_uri no_cn (λ d. first_name-eq-none names d no_dns)
            (first_name-In uris uri uri_of names s e) (first_name-not_empty uris names s e))
    | inl no_uri ↦ ground arith
  ]
]

extract-NameOf :
    (serial : Text) (cn : Option Text) (names : List GeneralName) (i : MtlsIdentity)
    → extract_identity serial cn names ≡ ok i
    → NameOf cn names i.value
unfolding extract_identity
extract-NameOf serial none names i h = found_dns-NameOf serial none names i (λ s e. ground arith) h
extract-NameOf serial (some cn) names i h = elim (Bool-cases (is_empty cn)) [
  | inl e ↦ found_dns-NameOf serial (some cn) names i (λ s same. ground arith) (ground arith)
  | inr full ↦
      let same : cn ≡ i.value = ground arith in
      by_common_name (ap some same) (subst (λ x. is_empty x ≡ false) same full)
]

pub validate-eq-ok :
    (x509 : X509) (v : MtlsValidator) (now : ℕ) (cert : Bytes) (i : MtlsIdentity)
    → validate x509 v now cert ≡ ok i
    → (c : Certificate) × (Trusted x509 v now cert c) × NameOf c.common_name c.general_names i.value
unfolding validate
validate-eq-ok x509 v now cert i h = elim (Option-cases (x509.from_der cert)) [
  | inl bad ↦ ground arith
  | inr (c, parsed) ↦
      let extracted : extract_identity (to_hex c.serial) c.common_name c.general_names ≡ ok i =
        ground arith in
      let named = extract-NameOf (to_hex c.serial) c.common_name c.general_names i extracted in
      (
        c,
        record {
          parsed = parsed;
          started = ground arith;
          not_over = ground arith;
          chain = ground arith;
          not_blocked = ground arith;
          not_in_crl = ground arith;
        },
        named,
      )
]

row-of_cert :
    (db : Agents) (value : Text) (r : AgentRecord)
    → get_by_cert_identity db value ≡ ok (some r)
    → r.cert_identity ≡ some value
unfolding get_by_cert_identity
row-of_cert db value r h =
    let wanted : AgentRecord → Bool =
      λ r. has_cert value r.cert_identity && not (is_some r.revoked_at) in
    elim (Option-cases r.cert_identity) [
      | inl e ↦ ground (arith, find-eq-some {0} wanted db.rows r)
      | inr (c, e) ↦ ground (arith, find-eq-some {0} wanted db.rows r, eq_iff c value)
    ]

-- An accepted client certificate is in its validity window, chains to a trusted anchor, its serial is
-- in neither list, and the identity is that of an active agent that is bound to the name of the
-- certificate: its common name, or if that is missing or empty a DNS name of it, or if these are empty
-- too a URI of it, and never an empty one.
pub authenticate_cert-eq-ok :
    (a : MtlsAuthenticator) (db : Agents) (cert : Bytes) (identity : AgentIdentity)
    → (authenticate_cert a db cert).0 ≡ ok identity
    → (c : Certificate) × (Trusted a.x509 a.validator a.now cert c)
      × ((name : Text) × (r : AgentRecord) × (NameOf c.common_name c.general_names name)
          × (r.cert_identity ≡ some name)
          × (get_by_cert_identity db name ≡ ok (some r))
          × (identity ≡ identity_of r))
unfolding authenticate_cert with_identity bind_identity
authenticate_cert-eq-ok a db cert identity h =
    elim (Result-cases (validate a.x509 a.validator a.now cert)) [
      | inr (e, bad) ↦ ground arith
      | inl (i, valid) ↦ elim (Result-cases (get_by_cert_identity db i.value)) [
        | inr (e, failed) ↦ ground arith
        | inl (row, read) ↦ elim (Option-cases row) [
          | inl nobody ↦ ground arith
          | inr (r, found) ↦
              let (c, trusted, named) = validate-eq-ok a.x509 a.validator a.now cert i valid in
              let active = read ∙ ap ok found in
              (
                c,
                trusted,
                (i.value, r, named, row-of_cert db i.value r active, active, ground arith),
              )
        ]
      ]
    ]
