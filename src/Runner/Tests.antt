-- ===== src/Runner/Tests.antt =====
-- The tests of crates/c6-runner/src/lib.rs, and the theorems at concrete requests and streams.
use cresix.Base.{
  ok, err, ◌≤◌, ◌≢◌, inl, inr, ◌≡◌, ◌↔◌, ◌∷◌, [], ◌++◌, refl, false, map, ◌*◌, length, is_empty,
  arith,
}
use cresix.Base.Int.{pos}
use cresix.Base.Text.{Text, codes}
use cresix.Runner.Request.{
  ResourcePolicy, ExecutionRequest, NetworkDestination, allow_list, no_write, validate_request,
  validate_destination, validate_resources, is_bad_host, parse_ip, parse_octet, is_protected,
  blocked_destination, invalid_destination, validate_revision, validate_digest, validate_network,
  validate_destinations, validate_simulation,
}
use cresix.Runner.Limits.{Acceptable, validate_request_iff}
use cresix.Runner.Logs.{
  Captured, capture_log, capture_log-Captured, floor_boundary, is_char_boundary,
}
use cresix.Runner.Framing.{chunk, read_frame, read_loop, newline_position, multiple_frames}
use cresix.Runner.FrameLaws.{read_frame_complete, read_frame_sound, IsLineOf, received}
use cresix.Runner.Addresses.{show_ip, validate_destination-protected}
use cresix.Runner.{max_frame_bytes}

abbrev resources : ResourcePolicy
resources = record {
  cpu_millis = 500;
  memory_bytes = 64 * 1024 * 1024;
  disk_bytes = 64 * 1024 * 1024;
  process_limit = 16;
  timeout_seconds = 5;
  log_bytes = 4096;
}

abbrev pub request : ExecutionRequest
request = record {
  run_id = codes "run";
  workspace_id = codes "workspace";
  project_id = codes "project";
  revision_sha = codes "0123456789012345678901234567890123456789";
  manifest_digest = codes "sha256:0123456789abcdef0123456789abcdef0123456789abcdef0123456789abcdef";
  resources = resources;
  network = allow_list (record { host = codes "api.example.com"; port = 443 } ∷ []);
  repository_write = no_write;
  simulation = record { delay_ms = 0; stdout = codes "done"; stderr = []; exit_code = pos 0 };
}

pub accepted : validate_request request ≡ ok tt
unfolding validate_request validate_revision validate_digest validate_resources validate_network
    validate_destinations validate_destination validate_simulation is_bad_host parse_ip parse_octet
    is_protected
accepted = refl

abbrev host : Text → NetworkDestination
host name = record { host = name; port = 443 }

metadata_blocked : validate_destination (host (codes "169.254.169.254")) ≡ err blocked_destination
unfolding validate_destination is_bad_host parse_ip parse_octet is_protected
metadata_blocked = refl

private_blocked : validate_destination (host (codes "172.31.0.9")) ≡ err blocked_destination
unfolding validate_destination is_bad_host parse_ip parse_octet is_protected
private_blocked = refl

wildcard_refused : validate_destination (host (codes "*.example.com")) ≡ err invalid_destination
unfolding validate_destination is_bad_host parse_ip parse_octet is_protected
wildcard_refused = refl

two_lines : read_frame (chunk (codes "one\ntwo\n") ∷ []) ≡ err multiple_frames
unfolding read_frame read_loop newline_position
two_lines = refl

one_line : read_frame (chunk (codes "hel") ∷ chunk (codes "lo\n") ∷ []) ≡ ok (codes "hello")
unfolding read_frame read_loop newline_position
one_line = refl

split_character : (capture_log (0x61 ∷ 0xc3 ∷ 0xa9 ∷ []) 2).content ≡ 0x61 ∷ []
unfolding capture_log floor_boundary is_char_boundary
split_character = refl

validate_request_iff_example : (validate_request request ≡ ok tt) ↔ Acceptable request
validate_request_iff_example = validate_request_iff request

capture_log-Captured_example :
    Captured (0x61 ∷ 0xc3 ∷ 0xa9 ∷ []) 2 (capture_log (0x61 ∷ 0xc3 ∷ 0xa9 ∷ []) 2)
capture_log-Captured_example = capture_log-Captured (0x61 ∷ 0xc3 ∷ 0xa9 ∷ []) 2

read_frame_complete_example :
    read_frame (map chunk (codes "he" ∷ codes "llo\n" ∷ []) ++ chunk (codes "later") ∷ [])
    ≡ ok (codes "hello")
read_frame_complete_example =
    read_frame_complete (codes "he" ∷ codes "llo\n" ∷ []) (chunk (codes "later") ∷ [])
      (codes "hello") (refl, (refl, tt)) refl refl refl (omega arith)

read_frame_sound_example :
    (is_empty (codes "hello") ≡ false)
    × (length (codes "hello") ≤ max_frame_bytes)
    × IsLineOf (received (chunk (codes "hel") ∷ chunk (codes "lo\n") ∷ [])) (codes "hello")
read_frame_sound_example =
    read_frame_sound (chunk (codes "hel") ∷ chunk (codes "lo\n") ∷ []) (codes "hello") one_line

validate_destination-protected_example :
    validate_destination
      (record { host = show_ip (record { a = 172; b = 31; c = 0; d = 9 }); port = 443 })
    ≢ ok tt
validate_destination-protected_example =
    validate_destination-protected (record { a = 172; b = 31; c = 0; d = 9 }) 443
      (omega arith, omega arith, omega arith, omega arith)
      (inr (inr (inl (refl, omega arith, omega arith))))
