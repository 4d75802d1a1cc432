-- ===== src/Proxy/Headers.antt =====
-- The headers and the URL of the upstream request, and the headers of the answer: src/proxy.rs. A
-- header map is the list of its fields, with the names in lower case as the http crate keeps them.
pub mod Laws
use agent_locksmith.Prelude.{
  ℕ, Bool, true, false, ◌&&◌, ◌||◌, not, Option, none, some, List, [], ◌∷◌, ◌++◌, any, keep, eqb,
  is_some_and, unwrap_or, if◌then◌else◌,
}
use agent_locksmith.Text.{
  Text, codes, ◌==◌, member, contains, ends_with, strip_prefix, before, is_empty, trim_end_by,
  to_ascii_lowercase, eq_ignore_ascii_case,
}
use agent_locksmith.Proxy.Target.{
  ProxyTarget, ProxyAuth, authless, by_header, by_bearer, by_stored, by_op, by_oauth,
  strip_header_lower,
}
use agent_locksmith.Proxy.Replies.{Headers}

unfoldable pub is_chatgpt_codex_upstream : Text → Bool
is_chatgpt_codex_upstream upstream =
    contains (codes "/backend-api/codex") (to_ascii_lowercase upstream)

unfoldable pub request_path_ends_with_responses : Text → Bool
request_path_ends_with_responses path = ends_with (codes "/responses") (to_ascii_lowercase path)

abbrev pub always_stripped : List Text
always_stripped =
    codes "host"
    ∷ codes "authorization"
    ∷ codes "x-api-key"
    ∷ codes "content-length"
    ∷ codes "transfer-encoding"
    ∷ []

abbrev pub is_stripped : Bool → Option Text → Text → Bool
is_stripped codex extra name =
    member (to_ascii_lowercase name) always_stripped
    || (codex && to_ascii_lowercase name == codes "openai-beta")
    || is_some_and extra (λ e. e == to_ascii_lowercase name)

abbrev pub forwarded : Bool → Option Text → Headers → Headers
forwarded codex extra headers =
    keep (λ (h : Text × Text). not (is_stripped codex extra h.0)) headers

-- The name in lower case and the value of the injected credential. `resolved` is the entry of
-- `resolved_creds` for the target.
abbrev pub bearer_value : Text → Text × Text
bearer_value v = (codes "authorization", codes "Bearer " ++ v)

abbrev pub named_or_bearer : Option Text → Text → Text × Text
named_or_bearer none v = bearer_value v
named_or_bearer (some name) v = (to_ascii_lowercase name, v)

abbrev pub first_some : Option Text → Option Text → Option Text
first_some (some v) other = some v
first_some none other = other

abbrev pub under : Option Text → Option Text → Option (Text × Text)
under name none = none
under name (some v) = some (named_or_bearer name v)

unfoldable pub credential : ProxyAuth → Option Text → Option (Text × Text)
credential authless resolved = none
credential (by_header name mode over) resolved = under (some name) (first_some over resolved)
credential (by_bearer over) resolved = under none (first_some over resolved)
credential (by_stored name mode ref value) resolved = under name value
credential (by_op name mode reference value) resolved = under name value
credential (by_oauth mode session token account) resolved = under none token

abbrev pub fields : Option (Text × Text) → Headers
fields none = []
fields (some h) = h ∷ []

abbrev pub account_header : Bool → ProxyAuth → Headers
account_header codex (by_oauth mode session token none) = []
account_header codex (by_oauth mode session token (some account)) =
    if codex then (codes "chatgpt-account-id", account) ∷ [] else []
account_header codex _ = []

abbrev pub sent_originator : Headers → Bool
sent_originator headers =
    any (λ (h : Text × Text). eq_ignore_ascii_case h.0 (codes "originator")) headers

abbrev pub codex_headers : Bool → Headers → Option Text → Headers
codex_headers codex headers agent_name =
    if codex
    then (codes "openai-beta", codes "responses=experimental")
      ∷ (if sent_originator headers
          then []
          else (codes "originator", unwrap_or agent_name (codes "locksmith-proxy")) ∷ [])
    else []

abbrev pub added : ProxyTarget → Option Text → Headers → Option Text → Headers
added target resolved headers agent_name =
    let codex = is_chatgpt_codex_upstream target.upstream in
    fields (credential target.auth resolved)
    ++ (account_header codex target.auth ++ codex_headers codex headers agent_name)

-- the headers that `build_upstream_request` puts on the request
unfoldable pub upstream_headers : ProxyTarget → Option Text → Headers → Option Text → Headers
upstream_headers target resolved headers agent_name =
    forwarded (is_chatgpt_codex_upstream target.upstream) (strip_header_lower target.auth) headers
    ++ added target resolved headers agent_name

abbrev pub with_query : Text → Option Text → Text
with_query url none = url
with_query url (some query) = if is_empty query then url else url ++ b'?' ∷ query

-- `path` is what the route captured: the request's path behind the tool's name
unfoldable pub upstream_url : Text → Text → Option Text → Text
upstream_url upstream path query =
    with_query (trim_end_by (λ c. eqb c b'/') upstream ++ b'/' ∷ path) query

abbrev pub without_scheme : Text → Text
without_scheme url =
    unwrap_or
      (first_some (strip_prefix (codes "https://") url) (strip_prefix (codes "http://") url)) url

unfoldable pub url_host : Text → Option Text
url_host url =
    let host = before (λ c. eqb c b'/' || eqb c b':') (without_scheme url) in
    if is_empty host then none else some host

abbrev pub hop_by_hop : List Text
hop_by_hop =
    codes "transfer-encoding"
    ∷ codes "content-length"
    ∷ codes "connection"
    ∷ codes "keep-alive"
    ∷ codes "proxy-connection"
    ∷ codes "upgrade"
    ∷ codes "te"
    ∷ codes "trailer"
    ∷ []

unfoldable pub is_hop : Text → Bool
is_hop name = member (to_ascii_lowercase name) hop_by_hop

-- `HeaderMap::insert`: the value replaces what the name had
unfoldable pub insert_header : Text → Text → Headers → Headers
insert_header name value [] = (name, value) ∷ []
insert_header name value ((k, v) ∷ headers) =
    if k == name then (k, value) ∷ headers else (k, v) ∷ insert_header name value headers

unfoldable pub forward_into : Headers → Headers → Headers
forward_into out [] = out
forward_into out ((name, value) ∷ upstream) =
    forward_into (if is_hop name then out else insert_header name value out) upstream

unfoldable pub forward_response_headers : Headers → Headers
forward_response_headers upstream = forward_into [] upstream
