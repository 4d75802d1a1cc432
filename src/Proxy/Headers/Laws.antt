-- ===== src/Proxy/Headers/Laws.antt =====
-- Which headers of src/proxy.rs reach the upstream, and which reach the agent.
use mathlib.Core.Bool.{false≢true}
use agent_locksmith.Prelude.{
  ◌≡◌, refl, ap, sym, subst, ◌∙◌, Bool, true, false, not, ◌⊎◌, inl, inr, Option, none, some, List,
  [], ◌∷◌, ◌++◌, Bool-cases, arith, In, here, there, keep, unwrap_or, if◌then◌else◌,
}
use agent_locksmith.Text.{Text, codes, ◌==◌, member, lower, to_ascii_lowercase}
use agent_locksmith.Text.Laws.{eq_iff, member_complete}
use agent_locksmith.Proxy.Target.{
  ProxyTarget, ProxyAuth, authless, by_header, by_bearer, by_stored, by_op, by_oauth,
  strip_header_lower,
}
use agent_locksmith.Proxy.Replies.{Headers}
use agent_locksmith.Proxy.Headers.{
  is_chatgpt_codex_upstream, always_stripped, is_stripped, forwarded, credential, fields,
  account_header, codex_headers, added, upstream_headers, is_hop, insert_header, forward_into,
  forward_response_headers,
}

In-append : (h : Text × Text) (xs ys : Headers) → In h (xs ++ ys) → In h xs ⊎ In h ys
In-append h [] ys m = inr m
In-append h (x ∷ xs) ys (here e) = inl (here e)
In-append h (x ∷ xs) ys (there m) = elim (In-append h xs ys m) [
  | inl l ↦ inl (there l)
  | inr r ↦ inr r
]

In-if_cons :
    (c : Bool) (h x : Text × Text) (xs : Headers)
    → In h (if c then x ∷ xs else xs)
    → ((x ≡ h) × (c ≡ true)) ⊎ In h xs
In-if_cons true h x xs (here e) = inl (e, refl)
In-if_cons true h x xs (there m) = inr m
In-if_cons false h x xs m = inr m

In-keep :
    (p : Text × Text → Bool) (h : Text × Text) (xs : Headers)
    → In h (keep p xs)
    → In h xs × (p h ≡ true)
In-keep p h [] m = elim m [ ]
In-keep p h (x ∷ xs) m = elim (In-if_cons (p x) h x (keep p xs) m) [
  | inl (e, passes) ↦ (here e, ap p (sym e) ∙ passes)
  | inr later ↦ let (i, passes) = In-keep p h xs later in (there i, passes)
]

-- A name that the agent may not set: one that is always stripped, or the target's credential header.
abbrev pub Reserved : ProxyTarget → Text → Type 0
Reserved target name =
    In (to_ascii_lowercase name) always_stripped
    ⊎ (strip_header_lower target.auth ≡ some (to_ascii_lowercase name))

stripped-Reserved :
    (target : ProxyTarget) (codex : Bool) (name : Text)
    → Reserved target name
    → is_stripped codex (strip_header_lower target.auth) name ≡ true
stripped-Reserved target codex name (inl always) = ground (arith, member_complete always)
stripped-Reserved target codex name (inr own) =
    rw own (ground (arith, eq_iff (to_ascii_lowercase name) (to_ascii_lowercase name)))

-- A header with a reserved name that is on the upstream request was put there by the proxy, whatever
-- the agent sent.
pub sent-Reserved :
    (target : ProxyTarget) (resolved : Option Text) (headers : Headers) (agent_name : Option Text)
    (name value : Text)
    → Reserved target name
    → In (name, value) (upstream_headers target resolved headers agent_name)
    → In (name, value) (added target resolved headers agent_name)
unfolding upstream_headers
sent-Reserved target resolved headers agent_name name value own m =
    let codex = is_chatgpt_codex_upstream target.upstream in
    let extra = strip_header_lower target.auth in
    elim (In-append (name, value) (forwarded codex extra headers)
      (added target resolved headers agent_name) m) [
        | inr r ↦ r
        | inl l ↦
            let (_, passes) =
              In-keep (λ (h : Text × Text). not (is_stripped codex extra h.0)) (name, value) headers
                l in
            ground (arith, stripped-Reserved target codex name own)
      ]

-- the fields that the proxy adds besides the credential have these three names
abbrev OtherName : Text × Text → Type 0
OtherName h =
    (h.0 ≡ codes "chatgpt-account-id") ⊎ (h.0 ≡ codes "openai-beta") ⊎ (h.0 ≡ codes "originator")

In-one : (h x : Text × Text) → In h (x ∷ []) → x ≡ h
In-one h x (here e) = e
In-one h x (there m) = elim m [ ]

account_name :
    (codex : Bool) (auth : ProxyAuth) (h : Text × Text)
    → In h (account_header codex auth)
    → OtherName h
account_name true (by_oauth mode session token (some account)) h m =
    inl (sym (ap (λ (x : Text × Text). x.0) (In-one h _ m)))
account_name false (by_oauth mode session token (some account)) h m = elim m [ ]
account_name codex (by_oauth mode session token none) h m = elim m [ ]
account_name codex authless h m = elim m [ ]
account_name codex (by_header name mode over) h m = elim m [ ]
account_name codex (by_bearer over) h m = elim m [ ]
account_name codex (by_stored name mode ref value) h m = elim m [ ]
account_name codex (by_op name mode reference value) h m = elim m [ ]

codex_name :
    (codex sent : Bool) (name : Text) (h : Text × Text)
    → In h (
        if codex
        then (codes "openai-beta", codes "responses=experimental")
          ∷ (if sent then [] else (codes "originator", name) ∷ [])
        else [])
    → OtherName h
codex_name false sent name h m = elim m [ ]
codex_name true sent name h (here e) = inr (inl (sym (ap (λ (x : Text × Text). x.0) e)))
codex_name true true name h (there m) = elim m [ ]
codex_name true false name h (there m) =
    inr (inr (sym (ap (λ (x : Text × Text). x.0) (In-one h _ m))))

In-fields : (c : Option (Text × Text)) (h : Text × Text) → In h (fields c) → c ≡ some h
In-fields none h m = elim m [ ]
In-fields (some x) h m = ap some (In-one h x m)

always_of :
    (name other : Text)
    → name ≡ other
    → In (to_ascii_lowercase name) always_stripped
    → member (to_ascii_lowercase other) always_stripped ≡ true
always_of name other e m =
    member_complete (subst (λ n. In (to_ascii_lowercase n) always_stripped) e m)

not_other :
    (name value : Text) → In (to_ascii_lowercase name) always_stripped → ¬ OtherName (name, value)
unfolding ◌==◌ to_ascii_lowercase lower
not_other name value m (inl e) =
    absurd (false≢true (always_of name (codes "chatgpt-account-id") e m))
not_other name value m (inr (inl e)) =
    absurd (false≢true (always_of name (codes "openai-beta") e m))
not_other name value m (inr (inr e)) = absurd (false≢true (always_of name (codes "originator") e m))

-- The one header with a name that is always stripped (`authorization`, `x-api-key`, `host`,
-- `content-length`, `transfer-encoding`) that the upstream can get is the injected credential:
-- nothing that the agent sent under these names is forwarded.
pub sent-credential :
    (target : ProxyTarget) (resolved : Option Text) (headers : Headers) (agent_name : Option Text)
    (name value : Text)
    → In (to_ascii_lowercase name) always_stripped
    → In (name, value) (upstream_headers target resolved headers agent_name)
    → credential target.auth resolved ≡ some (name, value)
sent-credential target resolved headers agent_name name value always m =
    let codex = is_chatgpt_codex_upstream target.upstream in
    let mine = sent-Reserved target resolved headers agent_name name value (inl always) m in
    elim (In-append (name, value) (fields (credential target.auth resolved))
      (account_header codex target.auth ++ codex_headers codex headers agent_name) mine) [
        | inl c ↦ In-fields (credential target.auth resolved) (name, value) c
        | inr rest ↦
            elim (In-append (name, value) (account_header codex target.auth)
              (codex_headers codex headers agent_name) rest) [
                | inl a ↦
                    absurd
                      (not_other name value always (account_name codex target.auth (name, value) a))
                | inr b ↦
                    absurd (not_other name value always (codex_name codex _ _ (name, value) b))
              ]
      ]

-- The value that the agent gets for a header: the last one the upstream sent.
abbrev pub last_value : Text → Headers → Option Text
last_value name [] = none
last_value name ((k, v) ∷ headers) =
    if k == name then some (unwrap_or (last_value name headers) v) else last_value name headers

-- The values of a header, in order.
abbrev pub values : Text → Headers → List Text
values name [] = []
values name ((k, v) ∷ headers) = if k == name then v ∷ values name headers else values name headers

abbrev pub listed : Option Text → List Text
listed none = []
listed (some v) = v ∷ []

abbrev pub at_most_one : Option Text → Option Text → Option Text
at_most_one (some v) old = some v
at_most_one none old = old

values-insert :
    (name key value : Text) (out : Headers) (old : Option Text)
    → values name out ≡ listed old
    → values name (insert_header key value out) ≡ listed (if key == name then some value else old)
unfolding insert_header
values-insert name key value [] none h = ground arith
values-insert name key value [] (some v) h = ground arith
values-insert name key value ((k, v) ∷ out) none h =
    ground
      (arith, eq_iff k key, eq_iff k name, eq_iff key name, values-insert name key value out none)
values-insert name key value ((k, v) ∷ out) (some w) h = ground (
  arith,
  eq_iff k key,
  eq_iff k name,
  eq_iff key name,
  values-insert name key value out none,
  values-insert name key value out (some w),
)

same_hop : (k name : Text) → (k == name) ≡ true → is_hop k ≡ is_hop name
same_hop k name e = ap is_hop ((eq_iff k name).0 e)

values-forward_into :
    (name : Text) (out hs : Headers) (old : Option Text)
    → values name out ≡ listed old
    → values name (forward_into out hs)
      ≡ listed (if is_hop name then old else at_most_one (last_value name hs) old)
unfolding forward_into
values-forward_into name out [] old h = elim (Bool-cases (is_hop name)) [
  | inl t ↦ ground arith
  | inr f ↦ ground arith
]
values-forward_into name out ((k, v) ∷ hs) old h = elim (Bool-cases (is_hop k)) [
  | inl hop ↦ ground (arith, same_hop k name, values-forward_into name out hs old)
  | inr kept ↦ ground (
    arith,
    same_hop k name,
    values-insert name k v out old h,
    values-forward_into name (insert_header k v out) hs (if k == name then some v else old),
  )
]

last_only :
    (hop : Bool) (value : Option Text)
    → listed (if hop then none else at_most_one value none) ≡ (if hop then [] else listed value)
last_only true value = refl
last_only false none = refl
last_only false (some v) = refl

-- The agent gets no hop-by-hop header, and of every other header exactly one field, the last that the
-- upstream sent under the name, or none if it sent none.
pub values-forward_response_headers :
    (name : Text) (upstream : Headers)
    → values name (forward_response_headers upstream)
      ≡ (if is_hop name then [] else listed (last_value name upstream))
unfolding forward_response_headers
values-forward_response_headers name upstream =
    values-forward_into name [] upstream none refl
    ∙ last_only (is_hop name) (last_value name upstream)
