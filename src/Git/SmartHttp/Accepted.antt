-- ===== src/Git/SmartHttp/Accepted.antt =====
-- What an accepted response of the CGI process is (crates/c6-git/src/smart_http.rs).
use cresix.Base.{
  ℕ, ◌+◌, ◌-◌, ◌^◌, ◌≤◌, ◌<◌, ◌≡◌, List, [], ◌∷◌, ◌++◌, All, Bool, true, false, not, ◌||◌, ltb,
  in_range, Option, none, some, Result, ok, ◌>>◌, >>=-eq-ok, fail_if, ok_or, if◌then◌else◌, length,
  take, drop, any, is_empty, min, arith, append-nil, refl, ap, ◌∙◌, Bool-cases, inl, inr, subst,
}
use cresix.Base.Text.{
  Text, codes, text_eq, text_key, is_one_of, split, split_once, is_ascii_control,
}
use cresix.Base.Utf8.{is_utf8, parse_unsigned}
use cresix.Git.SmartHttp.{
  SmartHttpError, SmartHttpResponse, invalid_response, response_too_large, Parsed, push_header,
  on_status, on_content_type, on_header, parse_line, parse_lines, no_headers, lines_of, separator,
  word_of, trim_left, trim_right, to_ascii_lowercase, parse_cgi_response,
}

-- A header that may reach the client: one of four names, and a value without control characters.
abbrev pub Harmless : Text × Text → Type 0
Harmless (name, value) =
    (is_one_of
        (codes "Content-Type" ∷ codes "Cache-Control" ∷ codes "Expires" ∷ codes "Pragma" ∷ []) name
      ≡ true)
    × (any is_ascii_control value ≡ false)
    × (is_empty value ≡ false)

-- The values of the Content-Type headers.
abbrev pub content_types : List (Text × Text) → List Text
content_types [] = []
content_types ((name, value) ∷ headers) =
    let rest = content_types headers in
    if text_eq name (codes "Content-Type") then value ∷ rest else rest

-- What holds of the loop's variables.
record Sane (expected : Text) (parsed : Parsed) : Type 0 where
  low : 200 ≤ parsed.status
  high : parsed.status ≤ 599
  harmless : All Harmless parsed.headers
  typed : content_types parsed.headers ≡ (if parsed.saw_content_type then expected ∷ [] else [])

pub guarded {ℓ} :
    {A : Type ℓ} {a : A} (test : Bool) (e : SmartHttpError) (rest : Result SmartHttpError A)
    → (fail_if test e >> rest) ≡ ok a
    → (test ≡ false) × (rest ≡ ok a)
guarded true e rest h = cc
guarded false e rest h = (refl, h)

All-push {ℓ} :
    {A : Type 0} (P : A → Type ℓ) (xs : List A) (x : A) → All P xs → P x → All P (xs ++ (x ∷ []))
All-push P [] x h p = (p, tt)
All-push P (y ∷ xs) x h p = (h.0, All-push P xs x h.1 p)

types-push :
    (headers : List (Text × Text)) (name value : Text)
    → content_types (headers ++ ((name, value) ∷ []))
      ≡ content_types headers ++ (if text_eq name (codes "Content-Type") then value ∷ [] else [])
types-push [] name value = refl
types-push ((n, v) ∷ headers) name value = elim (Bool-cases (text_eq n (codes "Content-Type"))) [
  | inl typed ↦ rw typed (ap (λ t. v ∷ t) (types-push headers name value))
  | inr other ↦ rw other (types-push headers name value)
]

abbrev pub http_ok {ℓ} : {A : Type ℓ} → A → Result SmartHttpError A
http_ok a = ok a

first_and_same : (seen same : Bool) → (seen || not same) ≡ false → (seen ≡ false) × (same ≡ true)
first_and_same true same h = cc
first_and_same false true h = (refl, refl)
first_and_same false false h = cc

both_false : (b c : Bool) → (b || c) ≡ false → (b ≡ false) × (c ≡ false)
both_false true c h = cc
both_false false c h = (refl, h)

given {ℓ} : {A : Type ℓ} {a : A} (o : Option A) → ok_or o invalid_response ≡ ok a → o ≡ some a
given none h = cc
given (some b) h = ground arith

first-Sane : {expected : Text} → Sane expected no_headers
first-Sane = record { low = omega arith; high = omega arith; harmless = tt; typed = refl }

in_bounds : (n : ℕ) → not (in_range 200 599 n) ≡ false → (200 ≤ n) × (n ≤ 599)
in_bounds n h = (ground arith, ground arith)

pub ok_inj {ℓ} : {A : Type ℓ} {a b : A} → http_ok a ≡ ok b → a ≡ b
ok_inj h = cc

-- The arms of the `match` on the name.
module _ (expected : Text) (parsed : Parsed) (w : Sane expected parsed) (value : Text)
    (plain : any is_ascii_control value ≡ false) (full : is_empty value ≡ false) where
  status-Sane : (next : Parsed) → on_status parsed value ≡ ok next → Sane expected next
  status-Sane next h =
      let (first, h1) = guarded parsed.saw_status invalid_response _ h in
      let (code, e, h2) =
        >>=-eq-ok (ok_or (parse_unsigned 65535 (word_of (trim_left value))) invalid_response) _
          h1 in
      let (within, h3) = guarded (not (in_range 200 599 code)) invalid_response _ h2 in
      let (low, high) = in_bounds code within in
      let sane : Sane expected (record parsed { status = code; saw_status = true }) = record {
        low = low;
        high = high;
        harmless = w.harmless;
        typed = w.typed;
      } in
      subst (Sane expected) (ok_inj h3) sane

  content_type-Sane :
      (next : Parsed) → on_content_type expected parsed value ≡ ok next → Sane expected next
  content_type-Sane next h =
      let (passed, h1) =
        guarded (parsed.saw_content_type || not (text_eq value expected)) invalid_response _ h in
      let (first, same) = first_and_same parsed.saw_content_type (text_eq value expected) passed in
      let is_expected = (text_key.beq_iff value expected).0 same in
      let none_before : content_types parsed.headers ≡ [] = rw first at w.typed in
      subst (Sane expected) (ok_inj h1) (record {
        low = w.low;
        high = w.high;
        harmless =
            All-push Harmless parsed.headers (codes "Content-Type", value) w.harmless
              (refl, plain, full);
        typed =
            types-push parsed.headers (codes "Content-Type") value
            ∙ (ap (λ t. t ++ (value ∷ [])) none_before ∙ ap (λ v. v ∷ []) is_expected);
      })

  other-Sane :
      (name : Text)
      → Harmless (name, value)
      → text_eq name (codes "Content-Type") ≡ false
      → Sane expected (push_header parsed name value)
  other-Sane name harmless other = record {
    low = w.low;
    high = w.high;
    harmless = All-push Harmless parsed.headers (name, value) w.harmless harmless;
    typed =
        types-push parsed.headers name value
        ∙ (rw other (append-nil (content_types parsed.headers) ∙ w.typed));
  }

  header-Sane :
      (next : Parsed) (name : Text)
      → on_header expected parsed name value ≡ ok next
      → Sane expected next
  unfolding on_header
  header-Sane next name h = elim (Bool-cases (text_eq name (codes "status"))) [
    | inl here ↦ status-Sane next (rw here at h)
    | inr n1 ↦ elim (Bool-cases (text_eq name (codes "content-type"))) [
      | inl here ↦ content_type-Sane next (rw (n1, here) at h)
      | inr n2 ↦ elim (Bool-cases (text_eq name (codes "cache-control"))) [
        | inl here ↦
            subst (Sane expected) (ok_inj (rw (n1, n2, here) at h))
              (other-Sane (codes "Cache-Control") (refl, plain, full) refl)
        | inr n3 ↦ elim (Bool-cases (text_eq name (codes "expires"))) [
          | inl here ↦
              subst (Sane expected) (ok_inj (rw (n1, n2, n3, here) at h))
                (other-Sane (codes "Expires") (refl, plain, full) refl)
          | inr n4 ↦ elim (Bool-cases (text_eq name (codes "pragma"))) [
            | inl here ↦
                subst (Sane expected) (ok_inj (rw (n1, n2, n3, n4, here) at h))
                  (other-Sane (codes "Pragma") (refl, plain, full) refl)
            | inr n5 ↦ subst (Sane expected) (ok_inj (rw (n1, n2, n3, n4, n5) at h)) w
          ]
        ]
      ]
    ]
  ]

line-Sane :
    (expected line : Text) (parsed next : Parsed)
    → Sane expected parsed
    → parse_line expected parsed line ≡ ok next
    → Sane expected next
unfolding parse_line
line-Sane expected line parsed next w h =
    let (shaped, h1) = guarded _ invalid_response _ h in
    let (pair, e, h2) = >>=-eq-ok (ok_or (split_once b':' line) invalid_response) _ h1 in
    let (good, h3) = guarded _ invalid_response _ h2 in
    let (full, plain) = both_false _ _ good in
    header-Sane expected parsed w (trim_right (trim_left pair.1)) plain full next
      (to_ascii_lowercase pair.0) h3

lines-Sane :
    (expected : Text) (lines : List Text) (parsed next : Parsed)
    → Sane expected parsed
    → parse_lines expected parsed lines ≡ ok next
    → Sane expected next
unfolding parse_lines
lines-Sane expected [] parsed next w h = subst (Sane expected) (ok_inj h) w
lines-Sane expected (line ∷ lines) parsed next w h =
    let (middle, e, h1) = >>=-eq-ok (parse_line expected parsed line) _ h in
    lines-Sane expected lines middle next (line-Sane expected line parsed middle w e) h1

-- A response that is accepted, with the place of its blank line.
pub record IsAccepted (bytes expected : Text) (max_header_bytes max_body_bytes : ℕ)
    (response : SmartHttpResponse) : Type 0 where
  pub cut : ℕ × ℕ
  pub is_cut : separator bytes ≡ some cut
  pub few_headers : cut.0 + cut.1 ≤ max_header_bytes
  pub is_body : response.body ≡ drop (cut.0 + cut.1) bytes
  pub few_bytes : length response.body ≤ max_body_bytes
  pub low : 200 ≤ response.status
  pub high : response.status ≤ 599
  pub harmless : All Harmless response.headers
  pub typed : content_types response.headers ≡ expected ∷ []

pub parse_cgi_response-IsAccepted :
    (bytes expected : Text) (max_header_bytes max_body_bytes : ℕ) (response : SmartHttpResponse)
    → max_header_bytes < 2 ^ 64 - 1
    → parse_cgi_response bytes max_header_bytes max_body_bytes expected ≡ ok response
    → IsAccepted bytes expected max_header_bytes max_body_bytes response
unfolding parse_cgi_response
parse_cgi_response-IsAccepted bytes expected max_header_bytes max_body_bytes response small h =
    let (cut, e, h1) = >>=-eq-ok (ok_or (separator bytes) invalid_response) _ h in
    let (few, h2) =
      guarded (ltb max_header_bytes (min (cut.0 + cut.1) (2 ^ 64 - 1))) invalid_response _ h1 in
    let (fits, h3) =
      guarded (ltb max_body_bytes (length (drop (cut.0 + cut.1) bytes))) response_too_large _ h2 in
    let (utf8, h4) = guarded (not (is_utf8 (take cut.0 bytes))) invalid_response _ h3 in
    let lines = lines_of (split 10 (take cut.0 bytes)) in
    let (parsed, e5, h5) = >>=-eq-ok (parse_lines expected no_headers lines) _ h4 in
    let (typed, h6) = guarded (not parsed.saw_content_type) invalid_response _ h5 in
    let sane = lines-Sane expected lines no_headers parsed first-Sane e5 in
    let few_headers : cut.0 + cut.1 ≤ max_header_bytes = ground arith in
    let few_bytes : length (drop (cut.0 + cut.1) bytes) ≤ max_body_bytes = ground arith in
    let saw : parsed.saw_content_type ≡ true = ground arith in
    subst (IsAccepted bytes expected max_header_bytes max_body_bytes) (ok_inj h6) (record {
      cut = cut;
      is_cut = given (separator bytes) e;
      few_headers = few_headers;
      is_body = refl;
      few_bytes = few_bytes;
      low = sane.low;
      high = sane.high;
      harmless = sane.harmless;
      typed = sane.typed ∙ rw saw refl;
    })
