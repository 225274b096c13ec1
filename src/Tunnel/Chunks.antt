-- ===== src/Tunnel/Chunks.antt =====
-- `body.chunks(MAX_BODY_CHUNK_BYTES).enumerate()`, with which both ends of the relay send a body
-- (crates/c6-cloud/src/lib.rs and crates/c6-connector/src/runtime.rs).
use cresix.Base.{
  ℕ, zero, suc, ◌+◌, ◌≤◌, ◌<◌, ◌%◌, ◌^◌, ◌≡◌, List, [], ◌∷◌, ◌++◌, All, length, take, drop, arith,
  refl, ap, ◌∙◌, length-append, length-drop, length-take, take-append-drop,
}
use cresix.Base.Text.{Text}
use cresix.CloudCore.Relay.{Uuid, max_body_chunk_bytes}
use cresix.CloudCore.Relay.Body.{RelayBodyKind, RelayBodyFrame}
use cresix.CloudCore.Relay.Streams.{Numbered, ChunkOf, total}

-- `slice.chunks(n)`: pieces of `n` bytes, the last one shorter. The fuel is the length.
abbrev chunks_within : ℕ → ℕ → Text → List Text
chunks_within zero n bytes = []
chunks_within (suc fuel) n [] = []
chunks_within (suc fuel) n (b ∷ bytes) =
    take n (b ∷ bytes) ∷ chunks_within fuel n (drop n (b ∷ bytes))

unfoldable pub chunks : ℕ → Text → List Text
chunks n bytes = chunks_within (length bytes) n bytes

-- `enumerate` and the frames, from a sequence number on
unfoldable pub chunk_frames : RelayBodyKind → Uuid → ℕ → List Text → List RelayBodyFrame
chunk_frames kind id n [] = []
chunk_frames kind id n (chunk ∷ rest) =
    record { kind = kind; request_id = id; sequence = n % 2 ^ 32; payload = chunk }
    ∷ chunk_frames kind id (n + 1) rest

unfoldable pub body_frames : RelayBodyKind → Uuid → Text → List RelayBodyFrame
body_frames kind id body = chunk_frames kind id 0 (chunks max_body_chunk_bytes body)

-- What the receiver collects.
abbrev pub payloads : List RelayBodyFrame → Text
payloads [] = []
payloads (f ∷ fs) = f.payload ++ payloads fs

abbrev joined : List Text → Text
joined [] = []
joined (c ∷ cs) = c ++ joined cs

chunks_within-joined :
    (fuel n : ℕ) (bytes : Text)
    → 1 ≤ n
    → length bytes ≤ fuel
    → (joined (chunks_within fuel n bytes) ≡ bytes)
      × All (λ c. length c ≤ n) (chunks_within fuel n bytes)
      × (length (chunks_within fuel n bytes) ≤ length bytes)
chunks_within-joined zero n [] some_byte enough = (refl, tt, omega arith)
chunks_within-joined zero n (b ∷ bytes) some_byte enough = absurd (omega arith)
chunks_within-joined (suc fuel) n [] some_byte enough = (refl, tt, omega arith)
chunks_within-joined (suc fuel) n (b ∷ bytes) some_byte enough =
    let all_bytes = b ∷ bytes in
    let (whole, small, few) =
      chunks_within-joined fuel n (drop n all_bytes) some_byte
        (omega (arith, length-drop n all_bytes)) in
    (
      ap (λ t. take n all_bytes ++ t) whole ∙ take-append-drop n all_bytes,
      (omega (arith, length-take n all_bytes), small),
      omega (arith, length-drop n all_bytes),
    )

chunk_frames_lem :
    (kind : RelayBodyKind) (id : Uuid) (n : ℕ) (cs : List Text)
    → All (λ c. length c ≤ max_body_chunk_bytes) cs
    → n + length cs < 2 ^ 32
    → Numbered n (chunk_frames kind id n cs)
      × All (ChunkOf kind id) (chunk_frames kind id n cs)
      × (payloads (chunk_frames kind id n cs) ≡ joined cs)
      × (length (chunk_frames kind id n cs) ≡ length cs)
unfolding chunk_frames
chunk_frames_lem kind id n [] small few = (tt, tt, refl, refl)
chunk_frames_lem kind id n (c ∷ cs) small few =
    let (numbered, chunk_of, whole, len) =
      chunk_frames_lem kind id (n + 1) cs small.1 (omega arith) in
    (
      (omega arith, numbered),
      ((refl, refl, small.0), chunk_of),
      ap (λ t. c ++ t) whole,
      omega arith,
    )

pub total-payloads : (fs : List RelayBodyFrame) → total fs ≡ length (payloads fs)
unfolding total
total-payloads [] = refl
total-payloads (f ∷ fs) = omega (arith, length-append f.payload (payloads fs), total-payloads fs)

-- The frames of a body: numbered, each within a frame's size, and together the body.
pub record Frames (kind : RelayBodyKind) (id : Uuid) (body : Text) (fs : List RelayBodyFrame)
    : Type 0 where
  pub numbered : Numbered 0 fs
  pub chunk_of : All (ChunkOf kind id) fs
  pub whole : payloads fs ≡ body
  pub few : length fs < 2 ^ 32
  pub size : total fs ≡ length body

pub body_frames-Frames :
    (kind : RelayBodyKind) (id : Uuid) (body : Text)
    → length body < 2 ^ 32
    → Frames kind id body (body_frames kind id body)
unfolding body_frames chunks
body_frames-Frames kind id body short =
    let cs = chunks_within (length body) max_body_chunk_bytes body in
    let fs = chunk_frames kind id 0 cs in
    let (joins, small, few) =
      chunks_within-joined (length body) max_body_chunk_bytes body (omega arith) (omega arith) in
    let (numbered, chunk_of, pays, len) = chunk_frames_lem kind id 0 cs small (omega arith) in
    let whole : payloads fs ≡ body = pays ∙ joins in
    record {
      numbered = numbered;
      chunk_of = chunk_of;
      whole = whole;
      few = omega arith;
      size = total-payloads fs ∙ ap length whole;
    }
