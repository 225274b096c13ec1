-- ===== src/Tunnel/Runs.antt =====
-- The rounds of the session loop of crates/c6-connector/src/runtime.rs in a row.
use cresix.Base.{ℕ, ◌≡◌, List, [], ◌∷◌, true, none, refl, sym, ◌∙◌, Option-cases, inl, inr, subst}
use cresix.Base.Text.{text_key}
use cresix.Base.Map.{contains, lookup}
use cresix.CloudCore.Relay.{Uuid}
use cresix.CloudCore.Relay.Session.{RelaySessionState, is_ready}
use cresix.Tunnel.Connector.{Settings, Event, turn, turns, then_turn}
use cresix.Tunnel.Turns.{Connector, Turn}
use cresix.Tunnel.InStep.{Agrees, IsInStep}
use cresix.Tunnel.Accepts.{Writable}
use cresix.Tunnel.Sending.{Delivers}
use cresix.Tunnel.Loop.{Answers, ended_not, goes_on-Acceptable, turn-Proceeds}

-- Each answer in a run is one to a request that is active then.
abbrev pub AllAnswer : Settings → Connector → List (ℕ × Event) → Type 0
AllAnswer settings c [] = Unit
AllAnswer settings c ((now, event) ∷ events) =
    Answers c event × AllAnswer settings (turn settings now c event).connector events

then_turn-none :
    (first : Turn) (rest : Connector → Turn)
    → (then_turn first rest).ended ≡ none
    → (first.ended ≡ none)
      × ((rest first.connector).ended ≡ none)
      × ((then_turn first rest).connector ≡ (rest first.connector).connector)
then_turn-none first rest h = elim (Option-cases first.ended) [
  | inr (result, ended) ↦ absurd (ended_not (sym ended ∙ (rw (then_turn, ended) at h)))
  | inl goes_on ↦ (goes_on, rw (then_turn, goes_on) at h, rw (then_turn, goes_on) refl)
]

turns-IsInStep :
    (settings : Settings) (events : List (ℕ × Event)) (c : Connector)
    → IsInStep c
    → Delivers settings.socket
    → Writable settings.json
    → AllAnswer settings c events
    → (turns settings c events).ended ≡ none
    → IsInStep (turns settings c events).connector
unfolding turns
turns-IsInStep settings [] c w delivers writes a h = w
turns-IsInStep settings ((now, event) ∷ events) c w delivers writes a h =
    let (first, rest, same) =
      then_turn-none (turn settings now c event) (λ d. turns settings d events) h in
    let next =
      turn-Proceeds settings now c w delivers writes event a.0
        (goes_on-Acceptable settings now c event first) in
    subst IsInStep (sym same) (
      turns-IsInStep settings events (turn settings now c event).connector next.in_step delivers
        writes a.1 rest)

-- The connector behind a handshake.
abbrev pub started : RelaySessionState → Connector
started s = record { session = s; pending = []; active = []; cancelled = [] }

started-Agrees : (s : RelaySessionState) → s.flows ≡ [] → (id : Uuid) → Agrees (started s) id
unfolding contains lookup
started-Agrees s empty id = rw empty refl

-- From the handshake on, and as long as the session lasts, the maps and sets of the connector
-- agree with its relay session: the pending requests are the flows with a request body to come,
-- the active ones are the flows that await a response and the cancelled ones, and a cancelled one
-- has no flow. The socket takes every message, control frames have a text, and each answer is one
-- to an active request.
pub loop-IsInStep :
    (settings : Settings) (s : RelaySessionState) (events : List (ℕ × Event))
    → is_ready s ≡ true
    → s.flows ≡ []
    → Delivers settings.socket
    → Writable settings.json
    → AllAnswer settings (started s) events
    → (turns settings (started s) events).ended ≡ none
    → IsInStep (turns settings (started s) events).connector
loop-IsInStep settings s events up empty delivers writes a h =
    turns-IsInStep settings events (started s) (record { up = up; agreed = started-Agrees s empty })
      delivers writes a h
