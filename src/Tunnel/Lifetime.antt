-- ===== src/Tunnel/Lifetime.antt =====
-- The life of a connector (crates/c6-connector/src/runtime.rs): the sleeps between its sessions,
-- and a session from its handshake on.
use cresix.Base.{
  ℕ, suc, ◌+◌, ◌*◌, ◌/◌, ◌^◌, ◌≤◌, ◌≡◌, List, [], ◌∷◌, true, Option, none, Result, some, length,
  ◌++◌, ◌≢◌, ◌⊎◌, All, false, ok, err, arith, refl, sym, ap, ◌∙◌, min, inl, inr,
}
use cresix.Base.Text.{Text}
use cresix.CloudCore.Token.{SecretToken}
use cresix.CloudCore.Relay.{Uuid}
use cresix.CloudCore.Relay.Session.{RelaySessionState, default, is_ready}
use cresix.Tunnel.{Message}
use cresix.Tunnel.Connector.{Settings, Event, turns, send_observed_control}
use cresix.Tunnel.InStep.{IsInStep}
use cresix.Tunnel.Runs.{AllAnswer, started, loop-IsInStep}
use cresix.Tunnel.Turns.{RuntimeError, transport, protocol, authentication_rejected, configuration}
use cresix.Tunnel.Reconnect.{
  handshake, Ending, is_retried, reconnecting, run_reconnecting, max_reconnect_delay, hello_frame,
  Retries, then_sleep,
}
use cresix.Tunnel.Accepts.{Writable}
use cresix.Tunnel.Sending.{Delivers}
use cresix.Tunnel.Opening.{hello_flows, hello_session, ready_only, ready_state, handshake_session}

-- The delay before the `n`-th retry.
abbrev pub delay_of : ℕ → ℕ
delay_of n = min (1000 * 2 ^ n) max_reconnect_delay

-- `random_range(0..=upper / 4)`
abbrev pub Jittered : ℕ → List Ending → Type 0
Jittered n [] = Unit
Jittered n (ending ∷ endings) = (ending.jitter ≤ delay_of n / 4) × Jittered (suc n) endings

-- The sleeps from the `n`-th on.
abbrev pub BackOff : ℕ → List ℕ → Type 0
BackOff n [] = Unit
BackOff n (pause ∷ pauses) =
    (delay_of n ≤ pause) × (pause ≤ delay_of n + delay_of n / 4) × BackOff (suc n) pauses

-- A session that ended well or by a failure of the transport.
abbrev pub Transient : Ending → Type 0
Transient ending = (ending.outcome ≡ ok tt) ⊎ (ending.outcome ≡ err transport)

-- The loop has not returned: it has slept once behind each session.
pub record GoesOn (endings : List Ending) (run : Retries) : Type 0 where
  pub transient : All Transient endings
  pub slept : length run.sleeps ≡ length endings
  pub unreturned : run.result ≡ none

-- The loop has returned the error of the first session that is not transient, and slept once
-- behind each session before it.
pub record Stopped (endings : List Ending) (run : Retries) : Type 0 where
  pub before : List Ending
  pub last : Ending
  pub after : List Ending
  pub parts : endings ≡ before ++ (last ∷ after)
  pub transient : All Transient before
  pub error : RuntimeError
  pub failed : last.outcome ≡ err error
  pub other : error ≢ transport
  pub slept : length run.sleeps ≡ length before
  pub returned : run.result ≡ some (err error)

retried_cases :
    (outcome : Result RuntimeError (Unit {0}))
    → ((is_retried outcome ≡ true) × ((outcome ≡ ok tt) ⊎ (outcome ≡ err transport)))
      ⊎ ((is_retried outcome ≡ false)
          × ((error : RuntimeError) × (outcome ≡ err error) × (error ≢ transport)))
retried_cases (ok _) = inl (refl, inl refl)
retried_cases (err transport) = inl (refl, inr refl)
retried_cases (err authentication_rejected) = inr (refl, (authentication_rejected, refl, λ h. cc))
retried_cases (err protocol) = inr (refl, (protocol, refl, λ h. cc))
retried_cases (err configuration) = inr (refl, (configuration, refl, λ h. cc))

doubled : (n : ℕ) → min (delay_of n * 2) max_reconnect_delay ≡ delay_of (suc n)
doubled n = omega arith

-- One more transient session in front.
behind :
    (ending : Ending) (endings : List Ending) (run : Retries) (pause : ℕ)
    → Transient ending
    → GoesOn endings run ⊎ Stopped endings run
    → GoesOn (ending ∷ endings) (then_sleep pause run)
      ⊎ Stopped (ending ∷ endings) (then_sleep pause run)
behind ending endings run pause transient (inl on) = inl (record {
  transient = (transient, on.transient);
  slept = ap suc on.slept;
  unreturned = on.unreturned;
})
behind ending endings run pause transient (inr stop) = inr (record {
  before = ending ∷ stop.before;
  last = stop.last;
  after = stop.after;
  parts = ap (ending ∷◌) stop.parts;
  transient = (transient, stop.transient);
  error = stop.error;
  failed = stop.failed;
  other = stop.other;
  slept = ap suc stop.slept;
  returned = stop.returned;
})

reconnecting-BackOff :
    (n : ℕ) (endings : List Ending)
    → Jittered n endings
    → BackOff n (reconnecting (delay_of n) endings).sleeps
      × (GoesOn endings (reconnecting (delay_of n) endings)
          ⊎ Stopped endings (reconnecting (delay_of n) endings))
unfolding reconnecting
reconnecting-BackOff n [] j = (tt, inl (record { transient = tt; slept = refl; unreturned = refl }))
reconnecting-BackOff n (ending ∷ endings) (j, js) =
    let (sleeps, run) = reconnecting-BackOff (suc n) endings js in
    elim (retried_cases ending.outcome) [
      | inl (again, transient) ↦
          rw (again, doubled n)
            (
              (omega arith, omega (arith, j), sleeps),
              behind ending endings (reconnecting (delay_of (suc n)) endings)
                  (delay_of n + ending.jitter) transient run,
            )
      | inr (final, (error, failed, other)) ↦ rw final (
        tt,
        inr (record {
          before = [];
          last = ending;
          after = endings;
          parts = refl;
          transient = tt;
          error = error;
          failed = failed;
          other = other;
          slept = refl;
          returned = ap some failed;
        }),
      )
    ]

-- The connector sleeps exactly once behind each session that ended well or by a failure of the
-- transport, for at least the delay and at most a quarter more, where the delay is one second,
-- doubles with every session, and stays at sixty seconds. The first session that ends by any other
-- error ends the loop with that error and without a sleep; the loop goes on as long as there is
-- none. This holds when the jitter of each sleep is at most a quarter of its delay.
pub run_reconnecting-BackOff :
    (endings : List Ending)
    → Jittered 0 endings
    → BackOff 0 (run_reconnecting endings).sleeps
      × (GoesOn endings (run_reconnecting endings) ⊎ Stopped endings (run_reconnecting endings))
unfolding run_reconnecting
run_reconnecting-BackOff endings j = reconnecting-BackOff 0 endings j

-- A session that a handshake has opened is ready and has no flow, and as long as it lasts, the
-- maps and sets of the connector agree with its relay session: the pending requests are the flows
-- with a request body to come, the active ones are the flows that await a response and the
-- cancelled ones, and a cancelled one has no flow. The socket takes every message, control frames
-- have a text, and each answer is one to an active request.
pub session-IsInStep :
    (settings : Settings) (subprotocol : Option Text) (token : SecretToken) (installation_id : Uuid)
    (first : Option Message) (client : Result Text (Unit {0})) (s : RelaySessionState)
    (events : List (ℕ × Event))
    → handshake settings subprotocol token installation_id first client ≡ ok s
    → Delivers settings.socket
    → Writable settings.json
    → AllAnswer settings (started s) events
    → (turns settings (started s) events).ended ≡ none
    → (is_ready s ≡ true) × (s.flows ≡ []) × IsInStep (turns settings (started s) events).connector
session-IsInStep settings subprotocol token installation_id first client s events opened delivers
      writes a h =
    let hello = (send_observed_control settings (hello_frame token) default).session in
    let (frame, taken, same) =
      ready_only settings installation_id first hello s
        (handshake_session settings subprotocol token installation_id first client s opened) in
    let (up, kept) = ready_state hello frame taken in
    let empty : hello.flows ≡ [] =
      ap RelaySessionState.flows (hello_session settings (hello_frame token) default)
      ∙ hello_flows token in
    let up' : is_ready s ≡ true = ap is_ready (sym same) ∙ up in
    let empty' : s.flows ≡ [] = ap RelaySessionState.flows (sym same) ∙ (kept ∙ empty) in
    (up', empty', loop-IsInStep settings s events up' empty' delivers writes a h)
