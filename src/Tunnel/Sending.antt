-- ===== src/Tunnel/Sending.antt =====
-- `send_control`, `send_observed_control` and the loops over body chunks, with which both ends of
-- the relay send (crates/c6-cloud/src/lib.rs, crates/c6-connector/src/runtime.rs): each frame is
-- shown to the session first and then put on the socket. A socket that fails ends the session
-- with what was sent so far.
use cresix.Base.{
  ℕ, ◌+◌, ◌≤◌, ◌<◌, ◌^◌, ◌≡◌, List, [], ◌∷◌, ◌++◌, map, All, Bool, true, if◌then◌else◌, none, some,
  Result, ok, err, refl, sym, ap, ◌∙◌, arith, length, inl, inr, ◌-◌,
}
use cresix.Base.Text.{Text, text_key}
use cresix.Base.Map.{insert, lookup-insert_self, insert-insert, insert-same}
use cresix.CloudCore.Relay.{Uuid, RelayValidationError}
use cresix.CloudCore.Relay.Frames.{RelayControlFrame}
use cresix.CloudCore.Relay.Body.{RelayBodyKind, RelayBodyFrame, encode, kind_byte, to_be_bytes}
use cresix.CloudCore.Relay.Codec.{IsFrame, encode-frame}
use cresix.CloudCore.Relay.Session.{RelaySessionState, observe_control, observe_body, with_counters}
use cresix.CloudCore.Relay.Streams.{Numbered, ChunkOf, total, limit_of, HasFlow, chunk_accepted}
use cresix.Tunnel.{Message, binary, text, Json}

-- The session, the messages and how the sending ended.
pub record Sent {ℓ} (E : Type ℓ) : Type ℓ where
  pub session : RelaySessionState
  pub messages : List Message
  pub outcome : Result E (Unit {0})

abbrev pub then_send {ℓ} : {E : Type ℓ} → Sent E → (RelaySessionState → Sent E) → Sent E
then_send first rest = elim first.outcome [
  | err e ↦ first
  | ok _ ↦
      let more = rest first.session in
      record {
        session = more.session;
        messages = first.messages ++ more.messages;
        outcome = more.outcome;
      }
]

abbrev pub sent_one {ℓ} : {E : Type ℓ} → RelaySessionState → Message → Sent E
sent_one s m = record { session = s; messages = m ∷ []; outcome = ok tt }

abbrev pub stopped {ℓ} : {E : Type ℓ} → RelaySessionState → E → Sent E
stopped s e = record { session = s; messages = []; outcome = err e }

-- The WebSocket of the client libraries: whether it takes a message.
abbrev pub Socket : Type 0
Socket = Message → Bool

abbrev pub Delivers : Socket → Type 0
Delivers socket = (m : Message) → socket m ≡ true

-- `socket.send(message).await`
abbrev pub send_message {ℓ} : {E : Type ℓ} → E → Socket → RelaySessionState → Message → Sent E
send_message disconnected socket s m = if socket m then sent_one s m else stopped s disconnected

module _ {ℓ} {E : Type ℓ} (rejected unwritten disconnected : E) (socket : Socket) where
  unfoldable pub send_control : Json → RelayControlFrame → RelaySessionState → Sent E
  send_control json frame s =
      let observed = observe_control s frame in
      elim observed.1 [
        | err _ ↦ stopped observed.0 rejected
        | ok _ ↦ elim (json.to_string frame) [
          | none ↦ stopped observed.0 unwritten
          | some written ↦ send_message disconnected socket observed.0 (text written)
        ]
      ]

  unfoldable pub send_body : RelayBodyFrame → RelaySessionState → Sent E
  send_body frame s =
      let observed = observe_body s frame in
      elim observed.1 [
        | err _ ↦ stopped observed.0 rejected
        | ok _ ↦ elim (encode frame) [
          | err _ ↦ stopped observed.0 unwritten
          | ok bytes ↦ send_message disconnected socket observed.0 (binary bytes)
        ]
      ]

  unfoldable pub send_bodies : List RelayBodyFrame → RelaySessionState → Sent E
  send_bodies [] s = record { session = s; messages = []; outcome = ok tt }
  send_bodies (f ∷ fs) s = then_send (send_body f s) (send_bodies fs)

-- The message of a body frame.
abbrev pub wire : RelayBodyFrame → Message
wire f = binary (1 ∷ kind_byte f.kind ∷ (f.request_id ++ (to_be_bytes f.sequence ++ f.payload)))

-- The session with other counters on the flow of a request.
abbrev pub with_flow : RelaySessionState → Uuid → RelayBodyKind → ℕ → ℕ → RelaySessionState
with_flow s id kind n b = record s { flows = insert id (with_counters kind n b) s.flows }

-- One frame of a body that is in turn and fits.
pub observe_body-in_turn :
    (kind : RelayBodyKind) (id : Uuid) (f : RelayBodyFrame) (s : RelaySessionState) (n b : ℕ)
    → HasFlow s kind id n b
    → ChunkOf kind id f
    → f.sequence ≡ n
    → n < 2 ^ 32 - 1
    → b + length f.payload ≤ limit_of kind
    → observe_body s f ≡ (with_flow s id kind (n + 1) (b + length f.payload), ok tt)
observe_body-in_turn kind id f s n b w c turn more fits =
    elim (chunk_accepted s f kind id n b w.up c w.found more) [
      | inl (_, _, e) ↦ e
      | inr (bad, _) ↦ absurd (bad (turn, fits))
    ]

module _ {ℓ} {E : Type ℓ} (rejected unwritten disconnected : E) (socket : Socket)
    (delivers : Delivers socket) where
  pub send_control-ok :
      (json : Json) (frame : RelayControlFrame) (s s' : RelaySessionState) (written : Text)
      → observe_control s frame ≡ (s', ok tt)
      → json.to_string frame ≡ some written
      → send_control rejected unwritten disconnected socket json frame s
        ≡ sent_one s' (text written)
  unfolding send_control
  send_control-ok json frame s s' written h w = ground (arith, delivers (text written))

  send_body-ok :
      (f : RelayBodyFrame) (s s' : RelaySessionState)
      → IsFrame f
      → observe_body s f ≡ (s', ok tt)
      → send_body rejected unwritten disconnected socket f s ≡ sent_one s' (wire f)
  unfolding send_body
  send_body-ok f s s' w h = ground (arith, encode-frame f w, delivers (wire f))

  -- The frames of a body leave in order, and the counters of the flow move by their number and
  -- their bytes.
  pub send_bodies-ok :
      (kind : RelayBodyKind) (id : Uuid) (fs : List RelayBodyFrame) (s : RelaySessionState)
      (n b : ℕ)
      → length id ≡ 16
      → HasFlow s kind id n b
      → Numbered n fs
      → All (ChunkOf kind id) fs
      → n + length fs < 2 ^ 32
      → b + total fs ≤ limit_of kind
      → send_bodies rejected unwritten disconnected socket fs s ≡ record {
        session = with_flow s id kind (n + length fs) (b + total fs);
        messages = map wire fs;
        outcome = ok tt;
      }
  unfolding send_bodies total
  send_bodies-ok kind id [] s n b uuid w turn c few fits =
      let n0 : n + 0 ≡ n = omega arith in
      let b0 : b + 0 ≡ b = omega arith in
      let e : with_flow s id kind n b ≡ s =
        ap (λ m. record s { flows = m })
          (insert-same id (with_counters kind n b) s.flows w.found) in
      rw (n0, b0) (ap (λ t. record { session = t; messages = []; outcome = ok tt }) (sym e))
  send_bodies-ok kind id (f ∷ fs) s n b uuid w turn c few fits =
      let s1 = with_flow s id kind (n + 1) (b + length f.payload) in
      let frame : IsFrame f = record {
        id_len = ap length c.0.1 ∙ uuid;
        sequence_u32 = omega arith;
        payload_len = c.0.2;
      } in
      let first =
        send_body-ok f s s1 frame
          (observe_body-in_turn kind id f s n b w c.0 turn.0 (omega arith) (omega arith)) in
      let w1 : HasFlow s1 kind id (n + 1) (b + length f.payload) = record {
        up = w.up;
        found = lookup-insert_self id _ s.flows;
      } in
      let rest =
        send_bodies-ok kind id fs s1 (n + 1) (b + length f.payload) uuid w1 turn.1 c.1 (omega arith)
          (omega arith) in
      let ne : n + 1 + length fs ≡ n + length (f ∷ fs) = omega arith in
      let be : b + length f.payload + total fs ≡ b + (length f.payload + total fs) = omega arith in
      let fe =
        insert-insert id (with_counters kind (n + 1 + length fs) (b + length f.payload + total fs))
          (with_counters kind (n + 1) (b + length f.payload)) s.flows in
      rw (first, rest, fe, ne, be) refl

-- A frame that the session refuses does not leave.
pub send_control-refused {ℓ} :
    {E : Type ℓ} (rejected unwritten disconnected : E) (socket : Socket) (json : Json)
    (frame : RelayControlFrame) (s t : RelaySessionState) (e : RelayValidationError)
    → observe_control s frame ≡ (t, err e)
    → send_control rejected unwritten disconnected socket json frame s ≡ stopped t rejected
unfolding send_control
send_control-refused rejected unwritten disconnected socket json frame s t e h = ground arith
