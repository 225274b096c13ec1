-- ===== src/CloudCore/Relay/Facts.antt =====
-- The tests that an accepted frame has passed and the state that it leaves, for the session
-- of crates/c6-cloud-core/src/relay.rs.
use cresix.Base.{
  ℕ, ◌+◌, ◌≤◌, ◌<◌, ◌^◌, ◌∷◌, ◌≡◌, ◌⊎◌, inl, inr, ltb, ◌==◌, ◌-◌, true, false, some, ok, length,
  arith, Bool-cases,
}
use cresix.Base.Map.{contains, lookup, insert, remove}
use cresix.Base.Text.{text_key}
use cresix.CloudCore.Relay.{max_concurrent_requests, max_request_ids_per_session, saturating_add}
use cresix.CloudCore.Relay.Frames.{
  client_hello, server_ready, request_start, request_end, response_start, response_end, cancel,
  request_failed, ping, pong, RequestStartFrame, RequestIdFrame, ResponseStartFrame,
  RequestFailedFrame, KeepaliveFrame, ClientHelloFrame, ServerReadyFrame,
}
use cresix.CloudCore.Relay.Body.{RelayBodyFrame}
use cresix.CloudCore.Relay.Session.{
  awaiting_ready, ready, FlowState, request_body, awaiting_response, response_body,
  RelaySessionState, is_ready, control_outcome, count_chunk, with_counters, is_request_body,
  is_awaiting_response, is_response_body,
}

-- The tests that an accepted arm has passed, and the state that it leaves.
pub start_facts :
    (s : RelaySessionState) (frame : RequestStartFrame) {t : RelaySessionState}
    → control_outcome s (request_start frame) ≡ ok t
    → (is_ready s ≡ true)
      × (contains frame.request_id s.seen_request_ids ≡ false)
      × (length s.flows < max_concurrent_requests)
      × (length s.seen_request_ids < max_request_ids_per_session)
      × (t ≡ record s {
        seen_request_ids = frame.request_id ∷ s.seen_request_ids;
        flows = insert frame.request_id (request_body 0 0) s.flows;
      })
unfolding control_outcome
start_facts s frame h = ground arith

-- An arm that needs an open flow: the flow that it finds, and the state that it leaves.
module _ (s : RelaySessionState) {t : RelaySessionState} where
  pub request_end_facts :
      (frame : RequestIdFrame)
      → control_outcome s (request_end frame) ≡ ok t
      → (flow : FlowState) × (is_ready s ≡ true)
        × (lookup frame.request_id s.flows ≡ some flow)
        × (is_request_body flow ≡ true)
        × (t ≡ record s { flows = insert frame.request_id awaiting_response s.flows })
  unfolding control_outcome
  request_end_facts frame h = ground arith

  pub response_start_facts :
      (frame : ResponseStartFrame)
      → control_outcome s (response_start frame) ≡ ok t
      → (flow : FlowState) × (is_ready s ≡ true)
        × (lookup frame.request_id s.flows ≡ some flow)
        × (is_awaiting_response flow ≡ true)
        × (t ≡ record s { flows = insert frame.request_id (response_body 0 0) s.flows })
  unfolding control_outcome
  response_start_facts frame h = ground arith

  pub response_end_facts :
      (frame : RequestIdFrame)
      → control_outcome s (response_end frame) ≡ ok t
      → (flow : FlowState) × (is_ready s ≡ true)
        × (lookup frame.request_id s.flows ≡ some flow)
        × (is_response_body flow ≡ true)
        × (t ≡ record s { flows = remove frame.request_id s.flows })
  unfolding control_outcome
  response_end_facts frame h = ground arith

  pub cancel_facts :
      (frame : RequestIdFrame)
      → control_outcome s (cancel frame) ≡ ok t
      → (flow : FlowState) × (is_ready s ≡ true)
        × (lookup frame.request_id s.flows ≡ some flow)
        × (t ≡ record s { flows = remove frame.request_id s.flows })
  unfolding control_outcome
  cancel_facts frame h = ground arith

  pub request_failed_facts :
      (frame : RequestFailedFrame)
      → control_outcome s (request_failed frame) ≡ ok t
      → (flow : FlowState) × (is_ready s ≡ true)
        × (lookup frame.request_id s.flows ≡ some flow)
        × (t ≡ record s { flows = remove frame.request_id s.flows })
  unfolding control_outcome
  request_failed_facts frame h = ground arith

-- What a handshake frame needs, and what an accepted one leaves.
pub hello_facts :
    (s : RelaySessionState) (frame : ClientHelloFrame) {t : RelaySessionState}
    → control_outcome s (client_hello frame) ≡ ok t
    → (is_ready s ≡ false) × (t ≡ record s { handshake = awaiting_ready })
unfolding control_outcome
hello_facts s frame h = ground arith

pub server_ready_facts :
    (s : RelaySessionState) (frame : ServerReadyFrame) {t : RelaySessionState}
    → control_outcome s (server_ready frame) ≡ ok t
    → (is_ready s ≡ false) × (t ≡ record s { handshake = ready })
unfolding control_outcome
server_ready_facts s frame h = ground arith

pub ping_facts :
    (s : RelaySessionState) (frame : KeepaliveFrame) {t : RelaySessionState}
    → control_outcome s (ping frame) ≡ ok t
    → t ≡ s
unfolding control_outcome
ping_facts s frame h = ground arith

pub pong_facts :
    (s : RelaySessionState) (frame : KeepaliveFrame) {t : RelaySessionState}
    → control_outcome s (pong frame) ≡ ok t
    → t ≡ s
unfolding control_outcome
pong_facts s frame h = ground arith

-- Either a chunk leaves the state, or it writes counters that it has moved within the limit.
pub chunk_cases :
    (s : RelaySessionState) (f : RelayBodyFrame) (n b limit : ℕ)
    → limit < 2 ^ 64 - 1
    → ((count_chunk s f (n, b, limit)).0 ≡ s)
      ⊎ ((m : ℕ) × (u : ℕ) × (n < 2 ^ 32 → m < 2 ^ 32)
          × (u ≤ limit)
          × (n ≤ m)
          × (m ≤ n + 1)
          × (b ≤ u)
          × ((count_chunk s f (n, b, limit)).0
              ≡ record s { flows = insert f.request_id (with_counters f.kind m u) s.flows }))
unfolding count_chunk
chunk_cases s f n b limit roomy =
    let u = saturating_add b (length f.payload) in
    elim (Bool-cases (f.sequence == n)) [
      | inr other ↦ inl (ground arith)
      | inl same ↦ elim (Bool-cases (ltb limit u)) [
        | inl over ↦ inl (ground arith)
        | inr fits ↦
            let within : u ≤ limit = ground arith in
            let grown : b ≤ u = omega arith in
            elim (Bool-cases (n == 2 ^ 32 - 1)) [
              | inl top ↦
                  inr (n, u, λ small. small, within, omega arith, omega arith, grown, ground arith)
              | inr more ↦ inr (
                n + 1,
                u,
                λ small. ground arith,
                within,
                omega arith,
                omega arith,
                grown,
                ground arith,
              )
            ]
      ]
    ]
