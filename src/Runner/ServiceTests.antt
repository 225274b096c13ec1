-- ===== src/Runner/ServiceTests.antt =====
-- The theorems on `RunnerService` of crates/c6-runner/src/lib.rs at concrete runs, with a store
-- in memory.
use cresix.Base.{if◌then◌else◌, ◌++◌, ok, ◌≡◌, ◌≢◌, ◌≤◌, ◌∷◌, [], List, none, refl, ap, Result}
use cresix.Base.Int.{pos}
use cresix.Base.Text.{Text, codes, text_key, text_eq}
use cresix.Base.Map.{lookup, insert, lookup-insert_self}
use cresix.Runner.{Uuid}
use cresix.Runner.Request.{
  ExecutionRequest, validate_request, validate_destination, validate_resources, is_bad_host,
  parse_ip, parse_octet, is_protected, validate_revision, validate_digest, validate_network,
  validate_destinations, validate_simulation, deny_all, no_write,
}
use cresix.Runner.Authenticator.{idempotency_conflict, SignedEnvelope, Authenticator, verify}
use cresix.Runner.Service.{
  RunRecord, RunnerService, ResultStore, RunOutcome, RunnerCommand, execute, inspect, exited,
  was_cancelled, finished, rejected, execute_run, build_record, find_result, register, persist,
}
use cresix.Runner.Idempotence.{Keeps, execute_again}
use cresix.Runner.Interleaving.{
  Event, Steps, stop, more, call, running_tasks, is_active, running_once, called, answered,
}
use cresix.Runner.Overlap.{idle, recorded, executed_twice}
use cresix.Runner.Tests.{request, accepted}
use cresix.Runner.AuthenticatorTests.{packages, fresh}

abbrev Records : Type 0
Records = List (Uuid × RunRecord)

abbrev memory : ResultStore Records
memory = record {
  load = λ s id. ok (lookup id s);
  save = λ s r. (insert r.request.run_id r s, ok tt);
}

memory-Keeps : Keeps memory
memory-Keeps s r h = ap (λ found. ok found) (lookup-insert_self r.request.run_id r s)

abbrev outcome : RunOutcome
outcome = exited (record { exit_code = pos 0; stdout = codes "done"; stderr = [] })

-- Another request under the same run identifier.
abbrev other : ExecutionRequest
other = record {
  run_id = request.run_id;
  workspace_id = request.workspace_id;
  project_id = request.project_id;
  revision_sha = codes "abcdefabcdabcdefabcdabcdefabcdabcdefabcd";
  manifest_digest = request.manifest_digest;
  resources = request.resources;
  network = deny_all;
  repository_write = no_write;
  simulation = request.simulation;
}

accepted_other : validate_request other ≡ ok tt
unfolding validate_request validate_revision validate_digest validate_resources validate_network
    validate_destinations validate_destination validate_simulation is_bad_host parse_ip parse_octet
    is_protected
accepted_other = refl

abbrev empty : RunnerService Records
empty = record { store = []; active = [] }

abbrev first_record : RunRecord
first_record = build_record request (pos 10) outcome (pos 20)

first_run : (execute_run memory empty request outcome (pos 10) (pos 20)).1 ≡ finished first_record
unfolding execute_run find_result register persist lookup
first_run = rw (execute_run, find_result, accepted) refl

abbrev ended : RunnerService Records
ended = (execute_run memory empty request outcome (pos 10) (pos 20)).0

execute_again_example :
    (execute_run memory ended request was_cancelled (pos 30) (pos 40)
      ≡ (ended, finished first_record))
    × (other ≢ request
        → execute_run memory ended other was_cancelled (pos 30) (pos 40)
          ≡ (ended, rejected idempotency_conflict))
execute_again_example =
    execute_again memory empty request outcome (pos 10) (pos 20) first_record memory-Keeps first_run
      other was_cancelled (pos 30) (pos 40) accepted_other refl

running_once_example :
    (running_tasks (codes "run") (record { request = request; phase = called } ∷ []) ≤ 1)
    × (running_tasks (codes "run") (record { request = request; phase = called } ∷ [])
        ≡ is_active (codes "run") empty)
running_once_example = running_once memory {s = empty} (codes "run") refl (more (call request) stop)

abbrev first_event : Event
first_event = record { outcome = outcome; started = pos 10; ended = pos 20 }

abbrev second_event : Event
second_event = record { outcome = was_cancelled; started = pos 15; ended = pos 25 }

nothing_stored : memory.load [] request.run_id ≡ ok none
unfolding lookup
nothing_stored = refl

executed_twice_example :
    Steps memory
      (idle memory [])
      []
      (idle memory
        (memory.save
          (memory.save [] (recorded memory request first_event)).0
          (recorded memory other second_event)).0)
      (record { request = other; phase = answered (finished (recorded memory other second_event)) }
        ∷ record {
          request = request;
          phase = answered (finished (recorded memory request first_event));
        }
        ∷ [])
executed_twice_example =
    executed_twice memory [] request other first_event second_event accepted accepted_other refl
      nothing_stored refl refl

-- The JSON text of a command is its name.
abbrev command_reader : Text → Result Text RunnerCommand
command_reader payload =
    if text_eq payload (codes "execute") then ok (execute request) else ok (inspect request.run_id)

abbrev execute_envelope : SignedEnvelope
execute_envelope = record {
  version = 1;
  request_id = codes "request";
  issued_at_ms = pos 1000;
  nonce = codes "0123456789abcdef";
  payload = codes "execute";
  mac = fresh.key ++ codes "c6-runner-v1\nrequest\n1000\n0123456789abcdef\nexecute";
}

abbrev inspect_envelope : SignedEnvelope
inspect_envelope = record {
  version = 1;
  request_id = codes "later";
  issued_at_ms = pos 1000;
  nonce = codes "fedcba9876543210";
  payload = codes "inspect";
  mac = fresh.key ++ codes "c6-runner-v1\nlater\n1000\nfedcba9876543210\ninspect";
}

abbrev after_execute : Authenticator
after_execute = (verify packages command_reader fresh execute_envelope (pos 2000)).0
