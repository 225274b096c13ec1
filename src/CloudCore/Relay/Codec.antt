-- ===== src/CloudCore/Relay/Codec.antt =====
-- The binary codec of crates/c6-cloud-core/src/relay.rs, both ways.
use cresix.Base.{
  ℕ, ◌+◌, ◌^◌, ◌≤◌, ◌<◌, [], ◌∷◌, ◌++◌, ◌≡◌, ◌↔◌, refl, ◌∙◌, ok, some, All, length, take, drop,
  arith, take-append_of_length, drop-append_of_length, drop-drop, take-append-drop, length-take,
  length-drop, length-append, suc,
}
use cresix.Base.Text.{Text}
use cresix.CloudCore.Relay.{max_body_chunk_bytes}
use cresix.CloudCore.Relay.Body.{
  RelayBodyKind, request_chunk, response_chunk, RelayBodyFrame, to_be_bytes, from_be_bytes,
  kind_byte, kind_of_byte, encode, decode,
}

-- The values that the Rust types hold: 16 bytes, a `u32`; and a chunk within the limit.
pub record IsFrame (f : RelayBodyFrame) : Type 0 where
  pub id_len : length f.request_id ≡ 16
  pub sequence_u32 : f.sequence < 2 ^ 32
  pub payload_len : length f.payload ≤ max_body_chunk_bytes

from-to_be_bytes : (n : ℕ) → n < 2 ^ 32 → from_be_bytes (to_be_bytes n) ≡ some n
unfolding from_be_bytes to_be_bytes
from-to_be_bytes n h = ground arith

to-from_be_bytes :
    (a b c d n : ℕ)
    → All (λ byte. byte < 256) (a ∷ b ∷ c ∷ d ∷ [])
    → from_be_bytes (a ∷ b ∷ c ∷ d ∷ []) ≡ some n
    → (to_be_bytes n ≡ a ∷ b ∷ c ∷ d ∷ []) × (n < 2 ^ 32)
unfolding from_be_bytes to_be_bytes
to-from_be_bytes a b c d n bytes h = (ground arith, ground arith)

abbrev IsByte : ℕ → Type 0
IsByte byte = byte < 256

All-drop : (n : ℕ) (s : Text) → All IsByte s → All IsByte (drop n s)
All-drop ℕ.zero s h = h
All-drop (suc n) [] h = h
All-drop (suc n) (x ∷ s) h = All-drop n s h.1

four_bytes :
    (s : Text)
    → 4 ≤ length s
    → All IsByte s
    → (n : ℕ) → from_be_bytes (take 4 s) ≡ some n
    → (s ≡ to_be_bytes n ++ drop 4 s) × (n < 2 ^ 32)
four_bytes (a ∷ b ∷ c ∷ d ∷ s) len bytes n h =
    let q = to-from_be_bytes a b c d n (omega arith) h in (rw (q.0), q.1)
four_bytes _ len bytes n h = absurd (omega arith)

kind-byte : (k : RelayBodyKind) → kind_of_byte (kind_byte k) ≡ some k
kind-byte request_chunk = refl
kind-byte response_chunk = refl

byte-kind : (byte : ℕ) (k : RelayBodyKind) → kind_of_byte byte ≡ some k → byte ≡ kind_byte k
byte-kind byte request_chunk h = ground arith
byte-kind byte response_chunk h = ground arith

-- The parts of an encoded frame behind its first two bytes.
module _ (id : Text) (n : ℕ) (p : Text) (id_len : length id ≡ 16) where
  behind_id : drop 16 (id ++ (to_be_bytes n ++ p)) ≡ to_be_bytes n ++ p
  behind_id = drop-append_of_length 16 id _ id_len

  sequence_part : take 4 (drop 16 (id ++ (to_be_bytes n ++ p))) ≡ to_be_bytes n
  sequence_part = rw behind_id (unfold to_be_bytes in refl)

  payload_part : drop 20 (id ++ (to_be_bytes n ++ p)) ≡ p
  payload_part =
      drop-drop 16 4 (id ++ (to_be_bytes n ++ p)) ∙ rw behind_id (unfold to_be_bytes in refl)

  length_part : length (id ++ (to_be_bytes n ++ p)) ≡ 20 + length p
  length_part =
      let four : length (to_be_bytes n) ≡ 4 = unfold to_be_bytes in refl in
      omega (arith, length-append id (to_be_bytes n ++ p), length-append (to_be_bytes n) p)

pub decode-frame :
    (f : RelayBodyFrame)
    → IsFrame f
    → decode (1 ∷ kind_byte f.kind ∷ (f.request_id ++ (to_be_bytes f.sequence ++ f.payload))) ≡ ok f
unfolding decode
decode-frame f w =
    let id = f.request_id in
    let n = f.sequence in
    let p = f.payload in
    ground (
      arith,
      take-append_of_length 16 id (to_be_bytes n ++ p) w.id_len,
      sequence_part id n p w.id_len,
      payload_part id n p w.id_len,
      length_part id n p w.id_len,
      from-to_be_bytes n w.sequence_u32,
      kind-byte f.kind,
    )

pub encode-frame :
    (f : RelayBodyFrame)
    → IsFrame f
    → encode f ≡ ok (1 ∷ kind_byte f.kind ∷ (f.request_id ++ (to_be_bytes f.sequence ++ f.payload)))
unfolding encode
encode-frame f w = ground arith

-- The cut of the bytes behind the first two.
frame_parts :
    (s : Text) (n : ℕ)
    → 20 ≤ length s
    → All IsByte s
    → from_be_bytes (take 4 (drop 16 s)) ≡ some n
    → (s ≡ take 16 s ++ (to_be_bytes n ++ drop 20 s)) × (n < 2 ^ 32) × (length (take 16 s) ≡ 16)
frame_parts s n len bytes h =
    let (cut, small) =
      four_bytes (drop 16 s) (omega (arith, length-drop 16 s)) (All-drop 16 s bytes) n h in
    let behind = drop-drop 16 4 s in
    (cc (take-append-drop 16 s, cut, behind), small, omega (arith, length-take 16 s))

-- What the tests of `decode` leave for an accepted input.
decode_facts :
    (v k : ℕ) (s : Text) (f : RelayBodyFrame)
    → decode (v ∷ k ∷ s) ≡ ok f
    → (20 ≤ length s)
      × (length s ≤ 20 + max_body_chunk_bytes)
      × (v ≡ 1)
      × (kind_of_byte k ≡ some f.kind)
      × (f.request_id ≡ take 16 s)
      × (from_be_bytes (take 4 (drop 16 s)) ≡ some f.sequence)
      × (f.payload ≡ drop 20 s)
unfolding decode
decode_facts v k s f h = ground arith

decode_sound :
    (input : Text) (f : RelayBodyFrame)
    → All IsByte input
    → decode input ≡ ok f
    → IsFrame f
      × (input ≡ 1 ∷ kind_byte f.kind ∷ (f.request_id ++ (to_be_bytes f.sequence ++ f.payload)))
decode_sound [] f bytes h = unfold decode in ground arith
decode_sound (v ∷ []) f bytes h = unfold decode in ground arith
decode_sound (v ∷ k ∷ s) f bytes h =
    let (min_len, max_len, version, kind, id, sequence, payload) = decode_facts v k s f h in
    let (cut, small, id_len) = frame_parts s f.sequence min_len bytes.1.1 sequence in
    let frame : IsFrame f = record {
      id_len = rw id id_len;
      sequence_u32 = small;
      payload_len = rw payload (omega (arith, length-drop 20 s));
    } in
    (frame, cc (byte-kind k f.kind kind))

-- The decoder is the inverse of the encoder: bytes decode to a frame exactly when the frame
-- has a 16-byte identifier, a 32-bit sequence number and a payload of at most 64 KiB, and
-- encodes to these very bytes.
pub decode_iff :
    (input : Text) (f : RelayBodyFrame)
    → All IsByte input
    → (decode input ≡ ok f) ↔ (IsFrame f × (encode f ≡ ok input))
decode_iff input f bytes = (
  λ h. let (w, layout) = decode_sound input f bytes h in (w, encode-frame f w ∙ rw (← layout)),
  λ q. cc (decode-frame f q.0, encode-frame f q.0),
)
