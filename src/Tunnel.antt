-- ===== src/Tunnel.antt =====
-- How one HTTP request goes through the relay: the exchange of the cloud service
-- (crates/c6-cloud/src/lib.rs) and the session of the connector (crates/c6-connector/src), both
-- over the session states of crates/c6-cloud-core/src/relay.rs. The messages of the WebSocket,
-- its JSON text and the two shapes that the proxied request and response have.
pub mod Chunks
pub mod Proxy
pub mod Forwarding
pub mod Connector
pub mod Turns
pub mod Exchange
pub mod Sending
pub mod Parts
pub mod Requests
pub mod Gathering
pub mod Responses
pub mod RoundTrip
pub mod InStep
pub mod Rounds
pub mod Accepts
pub mod Counted
pub mod Steady
pub mod Loop
pub mod Runs
pub mod Reconnect
pub mod Lifetime
pub mod Opening
pub mod Tests
pub mod Samples
use cresix.Base.{
  ℕ, List, Option, some, Result, ok, err, ◌≡◌, if◌then◌else◌, ltb, length, ◌*◌, none, ok_or,
}
use cresix.Base.Text.{Text}
use cresix.CloudCore.Relay.{RelayValidationError, headers_too_large, illegal_transition}
use cresix.CloudCore.Relay.Headers.{HeaderField}
use cresix.CloudCore.Relay.Frames.{RelayControlFrame}

-- `tungstenite::Message` and `axum::extract::ws::Message`
pub data Message : Type 0 where
  text binary ping_message pong_message : Text → Message
  close raw_frame : Message

-- `serde_json::to_string` and `serde_json::from_str` on control frames
pub record Json : Type 0 where
  pub to_string : RelayControlFrame → Option Text
  pub from_str : Text → Option RelayControlFrame

-- A control frame has a text, and the text reads back as the frame.
abbrev pub Writes : Json → RelayControlFrame → Text → Type 0
Writes json frame written =
    (json.to_string frame ≡ some written) × (json.from_str written ≡ some frame)

-- `decode_control` of the connector's protocol.rs
unfoldable pub decode_control : Json → Text → Result RelayValidationError RelayControlFrame
decode_control json t =
    if ltb (64 * 1024) (length t)
    then err headers_too_large
    else ok_or (json.from_str t) illegal_transition

pub record ProxyRequest : Type 0 where
  pub method : Text
  pub target : Text
  pub headers : List HeaderField
  pub body : Text

-- `ProxyResponse` of the connector and `ProxyResult` of the cloud service
pub record ProxyResponse : Type 0 where
  pub status : ℕ  -- u16
  pub headers : List HeaderField
  pub body : Text
