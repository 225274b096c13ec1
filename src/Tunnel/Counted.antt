-- ===== src/Tunnel/Counted.antt =====
-- What an accepted body frame leaves of a relay session of crates/c6-cloud-core/src/relay.rs.
use cresix.Base.{ℕ, ◌+◌, ◌≡◌, ◌⊎◌, true, some, ok, arith, refl, sym, ap, ◌∙◌, inl, inr, length}
use cresix.Base.Text.{text_key}
use cresix.Base.Map.{lookup, insert}
use cresix.CloudCore.Relay.{saturating_add}
use cresix.CloudCore.Relay.Body.{RelayBodyKind, RelayBodyFrame, request_chunk, response_chunk}
use cresix.CloudCore.Relay.Session.{
  FlowState, request_body, awaiting_response, response_body, RelaySessionState, observe_body,
  count_chunk, is_request_body, counters, with_counters,
}

counters_cases :
    (kind : RelayBodyKind) (flow : FlowState) (n b limit : ℕ)
    → counters kind flow ≡ some (n, b, limit)
    → ((kind ≡ request_chunk) × (flow ≡ request_body n b)) ⊎ (flow ≡ response_body n b)
counters_cases request_chunk (request_body n b) m u limit h = inl (refl, ground arith)
counters_cases response_chunk (response_body n b) m u limit h = inr (ground arith)
counters_cases request_chunk awaiting_response m u limit h = cc
counters_cases request_chunk (response_body n b) m u limit h = cc
counters_cases response_chunk awaiting_response m u limit h = cc
counters_cases response_chunk (request_body n b) m u limit h = cc

pub chunk_taken :
    (s : RelaySessionState) (f : RelayBodyFrame) (n b limit : ℕ)
    → (count_chunk s f (n, b, limit)).1 ≡ ok tt
    → (count_chunk s f (n, b, limit)).0 ≡ record s {
      flows =
          insert f.request_id
            (with_counters f.kind (n + 1) (saturating_add b (length f.payload)))
            s.flows;
    }
unfolding count_chunk
chunk_taken s f n b limit h = ground arith

-- An accepted body frame: the flow before and after it.
abbrev pub Counted : RelaySessionState → RelayBodyFrame → Type 0
Counted s f =
    (flow : FlowState) × (flow' : FlowState) × (lookup f.request_id s.flows ≡ some flow)
    × (((f.kind ≡ request_chunk) × (is_request_body flow ≡ true) × (is_request_body flow' ≡ true))
        ⊎ ((n : ℕ) × (b : ℕ) × (flow ≡ response_body n b)))
    × ((observe_body s f).0 ≡ record s { flows = insert f.request_id flow' s.flows })

body_request :
    (kind : RelayBodyKind) (n b : ℕ)
    → kind ≡ request_chunk
    → is_request_body (with_counters kind n b) ≡ true
body_request request_chunk n b h = refl
body_request response_chunk n b h = cc

body_steps :
    (s : RelaySessionState) (f : RelayBodyFrame)
    → (observe_body s f).1 ≡ ok tt
    → (flow : FlowState) × (n : ℕ) × (b : ℕ) × (limit : ℕ) × (lookup f.request_id s.flows
        ≡ some flow)
      × (counters f.kind flow ≡ some (n, b, limit))
      × (observe_body s f ≡ count_chunk s f (n, b, limit))
unfolding observe_body
body_steps s f h = ground arith

pub body_facts :
    (s : RelaySessionState) (f : RelayBodyFrame) → (observe_body s f).1 ≡ ok tt → Counted s f
body_facts s f h =
    let (flow, n, b, limit, found, counted, e) = body_steps s f h in
    let taken = chunk_taken s f n b limit (ap (λ o. o.1) (sym e) ∙ h) in
    (
      flow,
      with_counters f.kind (n + 1) (saturating_add b (length f.payload)),
      found,
      elim (counters_cases f.kind flow n b limit counted) [
        | inl (kind, is) ↦ inl (kind, ap is_request_body is, body_request f.kind _ _ kind)
        | inr is ↦ inr (n, b, is)
      ],
      ap (λ o. o.0) e ∙ taken,
    )
