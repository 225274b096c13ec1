-- ===== src/Git/SmartHttp/Whole.antt =====
-- That a response that crates/c6-git/src/smart_http.rs serves is the child's whole output.
use cresix.Base.{
  ℕ, ◌+◌, ◌-◌, ◌*◌, ◌^◌, ◌≤◌, ◌<◌, ◌≡◌, ◌⊎◌, List, [], ◌∷◌, ◌++◌, Bool, true, false, not, ◌||◌, ltb,
  leb, Option, none, some, ok, >>=-eq-ok, ok_or, if◌then◌else◌, length, is_empty, min, arith,
  append-nil, append_assoc, refl, sym, ap, ◌∙◌, Bool-cases, inl, inr, length-drop,
}
use cresix.Base.Text.{Text}
use cresix.Git.SmartHttp.{
  SmartHttpLimits, SmartHttpResponse, response_too_large, backend_failed, unavailable, PipeRead,
  bytes_read, read_failed, Bounded, keep_chunk, read_chunks, read_bounded, validate_actor,
  validate_git_protocol,
}
use cresix.Git.SmartHttp.Accepted.{ok_inj, IsAccepted, parse_cgi_response-IsAccepted, guarded}
use cresix.Git.SmartHttp.Backend.{SmartHttpBackend}
use cresix.Git.SmartHttp.Serve.{
  Machine, Child, Located, Request, status_of, environment, finish, execute, validate_repository,
}

-- What the child has written, up to its end.
abbrev pub output : List PipeRead → Text
output [] = []
output (read_failed ∷ reads) = []
output (bytes_read chunk ∷ reads) =
    let rest = output reads in if is_empty chunk then [] else chunk ++ rest

-- A read fills at most the buffer.
abbrev pub SmallReads : List PipeRead → Type 0
SmallReads [] = Unit
SmallReads (read_failed ∷ reads) = SmallReads reads
SmallReads (bytes_read chunk ∷ reads) = (length chunk ≤ 16 * 1024) × SmallReads reads

keep_full :
    (limit : ℕ) (kept : Bounded) (chunk : Text)
    → kept.overflow ≡ true
    → ((keep_chunk limit kept chunk).overflow ≡ true)
      × ((keep_chunk limit kept chunk).bytes ≡ kept.bytes)
keep_full limit kept chunk over = (ground arith, ground arith)

keep_cases :
    (limit : ℕ) (kept : Bounded) (chunk : Text)
    → limit < 2 ^ 64 - 1
    → kept.overflow ≡ false
    → ((keep_chunk limit kept chunk ≡ record kept { overflow = true })
        × (limit < length kept.bytes + length chunk))
      ⊎ (keep_chunk limit kept chunk ≡ record kept { bytes = kept.bytes ++ chunk })
keep_cases limit kept chunk small under =
    elim (Bool-cases (ltb limit (min (length kept.bytes + length chunk) (2 ^ 64 - 1)))) [
      | inl over ↦ inl (rw over refl, ground arith)
      | inr within ↦ inr (rw (within, under) refl)
    ]

-- Behind an overflow nothing is kept any more.
full_keeps :
    (limit : ℕ) (kept : Bounded) (reads : List PipeRead) (last : Bounded)
    → kept.overflow ≡ true
    → read_chunks limit kept reads ≡ ok last
    → last.bytes ≡ kept.bytes
unfolding read_chunks
full_keeps limit kept [] last over h = ground arith
full_keeps limit kept (read_failed ∷ reads) last over h = cc
full_keeps limit kept (bytes_read chunk ∷ reads) last over h = elim (Bool-cases (is_empty chunk)) [
  | inl done ↦ sym (ap Bounded.bytes (ok_inj (rw done at h)))
  | inr more ↦
      let (still, same) = keep_full limit kept chunk over in
      full_keeps limit (keep_chunk limit kept chunk) reads last still (rw more at h) ∙ same
]

-- Either all is kept, or less than a buffer is missing to the limit.
whole_or_full :
    (limit : ℕ) (kept : Bounded) (reads : List PipeRead) (last : Bounded)
    → limit < 2 ^ 64 - 1
    → kept.overflow ≡ false
    → SmallReads reads
    → read_chunks limit kept reads ≡ ok last
    → (last.bytes ≡ kept.bytes ++ output reads) ⊎ (limit < length last.bytes + 16 * 1024)
unfolding read_chunks
whole_or_full limit kept [] last small under fits h =
    inl (sym (ap Bounded.bytes (ok_inj h)) ∙ sym (append-nil kept.bytes))
whole_or_full limit kept (read_failed ∷ reads) last small under fits h = cc
whole_or_full limit kept (bytes_read chunk ∷ reads) last small under (fits, more) h =
    elim (Bool-cases (is_empty chunk)) [
      | inl done ↦
          inl
            (rw done (sym (ap Bounded.bytes (ok_inj (rw done at h))) ∙ sym (append-nil kept.bytes)))
      | inr some_bytes ↦ rw some_bytes (elim (keep_cases limit kept chunk small under) [
        | inl (over, near) ↦
            let same =
              full_keeps limit (record kept { overflow = true }) reads last refl
                (rw (some_bytes, over) at h) in
            inr (omega (arith, near, fits, ap length same))
        | inr within ↦
            elim (whole_or_full limit (record kept { bytes = kept.bytes ++ chunk }) reads last small
              under more (rw (some_bytes, within) at h)) [
                | inl whole ↦ inl (whole ∙ append_assoc kept.bytes chunk (output reads))
                | inr near ↦ inr near
              ]
      ])
    ]

given {ℓ} : {A : Type ℓ} {a : A} (o : Option A) → ok_or o unavailable ≡ ok a → o ≡ some a
given none h = cc
given (some b) h = ground arith

-- A served response: the child ended well, and what was kept of its output was accepted.
pub record IsServed (limits : SmartHttpLimits) (expected : Text) (child : Child)
    (response : SmartHttpResponse) : Type 0 where
  pub kept : Bounded
  pub is_kept :
      read_bounded (limits.max_response_bytes + limits.max_header_bytes) child.stdout ≡ ok kept
  pub ended : status_of child.ending ≡ ok true
  pub written : child.written ≡ true
  pub accepted :
      IsAccepted kept.bytes expected limits.max_header_bytes limits.max_response_bytes response
  pub whole :
      (kept.bytes ≡ output child.stdout)
      ⊎ (limits.max_header_bytes < accepted.cut.0 + accepted.cut.1 + 16 * 1024)

neither :
    (written success : Bool)
    → (not written || not success) ≡ false
    → (written ≡ true) × (success ≡ true)
neither true true h = (refl, refl)
neither true false h = cc
neither false success h = cc

finish-IsServed :
    (limits : SmartHttpLimits) (expected : Text) (child : Child) (response : SmartHttpResponse)
    → limits.max_response_bytes + limits.max_header_bytes < 2 ^ 64 - 1
    → SmallReads child.stdout
    → finish limits expected child ≡ ok response
    → IsServed limits expected child response
unfolding finish read_bounded
finish-IsServed limits expected child response small reads h =
    let limit = limits.max_response_bytes + limits.max_header_bytes in
    let (roomy, h1) = guarded (leb (2 ^ 64) limit) response_too_large _ h in
    let (kept, e2, h2) = >>=-eq-ok (read_bounded limit child.stdout) _ h1 in
    let (noise, e3, h3) = >>=-eq-ok (read_bounded limits.max_stderr_bytes child.stderr) _ h2 in
    let (success, e4, h4) = >>=-eq-ok (status_of child.ending) _ h3 in
    let (good, h5) = guarded (not child.written || not success) backend_failed _ h4 in
    let (written, succeeds) = neither child.written success good in
    let accepted =
      parse_cgi_response-IsAccepted kept.bytes expected limits.max_header_bytes
        limits.max_response_bytes response (omega (arith, small)) h5 in
    record {
      kept = kept;
      is_kept = e2;
      ended = e4 ∙ ap ok succeeds;
      written = written;
      accepted = accepted;
      whole =
          elim (whole_or_full limit (record { bytes = []; overflow = false }) child.stdout kept
            small refl reads e2) [
              | inl whole ↦ inl whole
              | inr near ↦ inr (
                  omega (
                    arith,
                    near,
                    accepted.few_bytes,
                    ap length accepted.is_body,
                    length-drop (accepted.cut.0 + accepted.cut.1) kept.bytes,
                  ))
            ];
    }

-- A response that the git backend returns comes from a child that ran in the closed environment,
-- took the whole request and exited well. Its headers are of four harmless names and hold no
-- control characters, its one Content-Type is the expected one, its status is between 200 and
-- 599, and its body is within the limit and is what the child wrote behind the blank line. All of
-- the child's output is there when its headers leave 16 KiB, the size of a read, of their limit.
pub execute-IsServed :
    (machine : Machine) (backend : SmartHttpBackend) (at : Located) (request : Request)
    (response : SmartHttpResponse)
    → backend.limits.max_response_bytes + backend.limits.max_header_bytes < 2 ^ 64 - 1
    → ((program : Text) (variables : List (Text × Text)) (input : Text) (timeout : ℕ)
          (child : Child)
        → machine.spawn program variables input timeout ≡ some child
        → SmallReads child.stdout)
    → execute machine backend at request ≡ ok response
    → (root : Text) × (name : Text) × (home : Text) × (child : Child) × (validate_repository at
        ≡ ok (root, name))
      × (validate_actor request.actor_id ≡ ok tt)
      × (validate_git_protocol request.git_protocol backend.limits.max_git_protocol_bytes ≡ ok tt)
      × (machine.spawn backend.git_executable
            (environment machine backend home root name request)
            request.body
            request.timeout
          ≡ some child)
      × IsServed backend.limits request.expected_content_type child response
unfolding execute
execute-IsServed machine backend at request response small reads h =
    let (actor, e1, h1) = >>=-eq-ok (validate_actor request.actor_id) _ h in
    let (protocol, e2, h2) =
      >>=-eq-ok (validate_git_protocol request.git_protocol backend.limits.max_git_protocol_bytes) _
        h1 in
    let (found, e3, h3) = >>=-eq-ok (validate_repository at) _ h2 in
    let (home, e4, h4) = >>=-eq-ok (ok_or machine.private_home unavailable) _ h3 in
    let (child, e5, h5) =
      >>=-eq-ok
        (ok_or
          (machine.spawn backend.git_executable
            (environment machine backend home found.0 found.1 request) request.body request.timeout)
          unavailable)
        _ h4 in
    let spawned =
      given
        (machine.spawn backend.git_executable
          (environment machine backend home found.0 found.1 request) request.body request.timeout)
        e5 in
    (
      found.0,
      found.1,
      home,
      child,
      e3,
      e1,
      e2,
      spawned,
      finish-IsServed backend.limits request.expected_content_type child response small
          (reads backend.git_executable (environment machine backend home found.0 found.1 request)
            request.body request.timeout child spawned)
          h5,
    )
