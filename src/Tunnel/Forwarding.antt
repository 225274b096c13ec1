-- ===== src/Tunnel/Forwarding.antt =====
-- What `FixedUpstream::execute` of crates/c6-connector/src/proxy.rs lets through.
use cresix.Base.{
  ◌≤◌, ◌≡◌, List, [], ◌∷◌, ◌++◌, Bool, true, false, Option, none, some, Result, ok, err, length,
  All, arith, Bool-cases, Result-cases, inl, inr, subst, sym, ap, ◌∙◌, >>=-eq-ok,
}
use cresix.Base.Text.{Text}
use cresix.CloudCore.Relay.{max_response_body_bytes}
use cresix.CloudCore.Relay.Headers.{HeaderField}
use cresix.Tunnel.{ProxyRequest, ProxyResponse}
use cresix.Tunnel.Proxy.{
  Url, Response, Http, is_allowed_method, blocked_header, filter_field, filter_request_headers,
  response_headers, is_bad_path, leaves_origin, target_url, classify_reqwest, read_response,
  execute, validate_method,
}

-- A header that the proxy passes on, by its name.
abbrev pub Passes : Text → Type 0
Passes name = blocked_header name ≡ false

All-append {ℓ κ} :
    {A : Type ℓ} (P : A → Type κ) (xs ys : List A) → All P xs → All P ys → All P (xs ++ ys)
All-append P [] ys hx hy = hy
All-append P (x ∷ xs) ys hx hy = (hx.0, All-append P xs ys hx.1 hy)

abbrev ok_of {ℓ κ} : (E : Type ℓ) {A : Type κ} → A → Result E A
ok_of E a = ok a

ok_inj {ℓ κ} : {E : Type ℓ} {A : Type κ} {a b : A} → ok_of E a ≡ ok_of E b → a ≡ b
ok_inj h = cc

field-Passes :
    (http : Http) (field : HeaderField) (kept : List (Text × Text))
    → filter_field http field ≡ ok kept
    → All (λ h. Passes h.0) kept
field-Passes http field kept h = ground arith

filter-Passes :
    (http : Http) (fields : List HeaderField) (out : List (Text × Text))
    → filter_request_headers http fields ≡ ok out
    → All (λ h. Passes h.0) out
unfolding filter_request_headers
filter-Passes http [] out h = ground arith
filter-Passes http (field ∷ fields) out h =
    let (kept, e, more) = >>=-eq-ok (filter_field http field) _ h in
    let (rest, e', last) = >>=-eq-ok (filter_request_headers http fields) _ more in
    subst (All (λ h. Passes h.0)) (ok_inj last) (
      All-append (λ h. Passes h.0) kept rest (field-Passes http field kept e)
        (filter-Passes http fields rest e'))

response-Passes :
    (headers : List (Text × Option Text)) → All (λ h. Passes h.name) (response_headers headers)
unfolding response_headers
response-Passes [] = tt
response-Passes ((name, none) ∷ headers) = elim (Bool-cases (blocked_header name)) [
  | inl blocked ↦ rw blocked (response-Passes headers)
  | inr passes ↦ rw passes (response-Passes headers)
]
response-Passes ((name, some value) ∷ headers) = elim (Bool-cases (blocked_header name)) [
  | inl blocked ↦ rw blocked (response-Passes headers)
  | inr passes ↦ rw passes (passes, response-Passes headers)
]

classified {ℓ} : {A : Type ℓ} (r : Result Bool A) (a : A) → classify_reqwest r ≡ ok a → r ≡ ok a
unfolding classify_reqwest
classified (ok b) a h = cc
classified (err true) a h = cc
classified (err false) a h = cc

execute_steps :
    (http : Http) (origin : Url) (request : ProxyRequest) (result : ProxyResponse)
    → execute http origin request ≡ ok result
    → (method : Text) × (url : Url) × (headers : List (Text × Text)) × (response : Response)
      × (validate_method request.method ≡ ok method)
      × (target_url http origin request.target ≡ ok url)
      × (filter_request_headers http request.headers ≡ ok headers)
      × (http.send method url headers request.body ≡ ok response)
      × (read_response response ≡ ok result)
unfolding execute
execute_steps http origin request result h =
    let (method, allowed, h1) = >>=-eq-ok (validate_method request.method) _ h in
    let (url, target, h2) = >>=-eq-ok (target_url http origin request.target) _ h1 in
    let (headers, filtered, h3) = >>=-eq-ok (filter_request_headers http request.headers) _ h2 in
    let (response, sent, read) =
      >>=-eq-ok (classify_reqwest (http.send method url headers request.body)) _ h3 in
    (method, url, headers, response, allowed, target, filtered, classified _ response sent, read)

method_allowed :
    (value method : Text)
    → validate_method value ≡ ok method
    → (value ≡ method) × (is_allowed_method method ≡ true)
method_allowed value method h = ground arith

target_stays :
    (http : Http) (origin url : Url) (target : Text)
    → target_url http origin target ≡ ok url
    → (is_bad_path target ≡ false) × (leaves_origin origin url ≡ false)
unfolding target_url
target_stays http origin url target h = ground arith

read_facts :
    (response : Response) (result : ProxyResponse)
    → read_response response ≡ ok result
    → (result.headers ≡ response_headers response.headers)
      × (result.status ≡ response.status)
      × (response.bytes ≡ ok result.body)
      × (length result.body ≤ max_response_body_bytes)
read_facts response result h = elim (Result-cases (classify_reqwest response.bytes)) [
  | inr (e, failed) ↦ absurd (ground arith)
  | inl (bytes, read) ↦
      let whole = classified response.bytes bytes read in
      (ground arith, ground arith, ground arith, ground arith)
]

-- A request that the connector forwards has succeeded: it was sent to a URL of the fixed origin
-- (scheme, host and port, no user and no password), with an allowed method, with no header that
-- is blocked, and with its body unchanged. The response has the status and the body that the
-- local server sent, a body of at most 64 MiB, and no blocked header.
pub execute_forwards :
    (http : Http) (origin : Url) (request : ProxyRequest) (result : ProxyResponse)
    → execute http origin request ≡ ok result
    → (url : Url) × (headers : List (Text × Text)) × (response : Response) × (http.send
          request.method url headers request.body
        ≡ ok response)
      × (is_allowed_method request.method ≡ true)
      × (is_bad_path request.target ≡ false)
      × (leaves_origin origin url ≡ false)
      × All (λ h. Passes h.0) headers
      × (result.status ≡ response.status)
      × (response.bytes ≡ ok result.body)
      × (length result.body ≤ max_response_body_bytes)
      × All (λ h. Passes h.name) result.headers
execute_forwards http origin request result h =
    let (method, url, headers, response, m, t, f, sent, read) =
      execute_steps http origin request result h in
    let (same, allowed) = method_allowed request.method method m in
    let (path, stays) = target_stays http origin url request.target t in
    let (kept, status, whole, small) = read_facts response result read in
    (
      url,
      headers,
      response,
      ap (λ v. http.send v url headers request.body) same ∙ sent,
      ap is_allowed_method same ∙ allowed,
      path,
      stays,
      filter-Passes http request.headers headers f,
      status,
      whole,
      small,
      subst (All (λ q. Passes q.name)) (sym kept) (response-Passes response.headers),
    )
