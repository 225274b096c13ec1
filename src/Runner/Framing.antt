-- ===== src/Runner/Framing.antt =====
-- `read_frame` of crates/c6-runner/src/lib.rs: one line of at most 256 KiB from a socket. The
-- socket is the list of what its reads return; a read of no bytes is the end of the stream.
use cresix.Base.{
  ℕ, suc, ◌+◌, List, [], ◌∷◌, ◌++◌, Option, none, some, Result, ok, err, ◌>>=◌, ◌>>◌, fail_if,
  if◌then◌else◌, ltb, ◌==◌, length, take, is_empty,
}
use cresix.Base.Text.{Text, codes}
use cresix.Runner.{max_frame_bytes}

pub data FrameError : Type 0 where
  io : Text → FrameError
  truncated too_large multiple_frames : FrameError
  malformed : Text → FrameError

pub data Read : Type 0 where
  chunk : Text → Read
  failed : Text → Read

-- `bytes.iter().position(|byte| *byte == b'\n')`
unfoldable pub newline_position : Text → Option ℕ
newline_position [] = none
newline_position (byte ∷ bytes) =
    let later = newline_position bytes in
    if byte == b'\n' then some 0 else elim later [ none ↦ none | some n ↦ some (suc n) ]

-- The `loop`, from the bytes read so far.
unfoldable pub read_loop : Text → List Read → Result FrameError Text
read_loop frame [] = err truncated
read_loop frame (failed e ∷ reads) = err (io e)
read_loop frame (chunk bytes ∷ reads) =
    let more = read_loop (frame ++ bytes) reads in
    if is_empty bytes then err truncated else elim (newline_position bytes) [
      | some newline ↦
          if newline + 1 == length bytes
          then ok (frame ++ take newline bytes)
          else err multiple_frames
      | none ↦ if ltb max_frame_bytes (length (frame ++ bytes)) then err too_large else more
    ]

unfoldable pub read_frame : List Read → Result FrameError Text
read_frame reads = do
  frame ← read_loop [] reads
  fail_if (is_empty frame) (malformed (codes "empty frame"))
  fail_if (ltb max_frame_bytes (length frame)) too_large
  ok frame
