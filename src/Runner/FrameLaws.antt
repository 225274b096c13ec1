-- ===== src/Runner/FrameLaws.antt =====
-- What `read_frame` of crates/c6-runner/src/lib.rs returns, however the stream is cut.
use cresix.Base.{
  ℕ, zero, suc, ◌+◌, ◌≤◌, ◌≡◌, ◌⊎◌, inl, inr, List, [], ◌∷◌, ◌++◌, map, none, some, ok, false,
  length, take, is_empty, All, arith, refl, sym, ap, ◌∙◌, Option-cases, Result-cases, append_assoc,
  length-append, take-append_exact,
}
use cresix.Base.Text.{Text, has_byte}
use cresix.Runner.{max_frame_bytes}
use cresix.Runner.Framing.{Read, chunk, failed, newline_position, read_loop, read_frame}

abbrev pub joined : List Text → Text
joined [] = []
joined (c ∷ cs) = c ++ joined cs

-- The place of the first newline.
position-none : (c : Text) → has_byte b'\n' c ≡ false → newline_position c ≡ none
unfolding newline_position
position-none [] h = refl
position-none (x ∷ c) h = ground (arith, position-none c)

position-some :
    (g : Text) (d : Text)
    → has_byte b'\n' g ≡ false
    → newline_position (g ++ b'\n' ∷ d) ≡ some (length g)
unfolding newline_position
position-some [] d h = refl
position-some (x ∷ g) d h = ground (arith, position-some g d)

-- A first piece of `g` and a newline ends before the newline or holds it all.
cut_cases :
    (c d g : Text)
    → c ++ d ≡ g ++ b'\n' ∷ []
    → ((d ≡ []) × (c ≡ g ++ b'\n' ∷ [])) ⊎ ((g' : Text) × (g ≡ c ++ g') × (d ≡ g' ++ b'\n' ∷ []))
cut_cases [] d g h = inr (g, refl, h)
cut_cases (x ∷ []) d [] h = inl (ground arith, ground arith)
cut_cases (x ∷ y ∷ c) d [] h = cc
cut_cases (x ∷ c) d (y ∷ g) h = elim (cut_cases c d g (ground arith)) [
  | inl (e, f) ↦ inl (e, ground arith)
  | inr (g', e, f) ↦ inr (g', ground arith, f)
]

has_byte-append :
    (c g : Text)
    → has_byte b'\n' (c ++ g) ≡ false
    → (has_byte b'\n' c ≡ false) × (has_byte b'\n' g ≡ false)
has_byte-append [] g h = (refl, h)
has_byte-append (x ∷ c) g h = ground (arith, has_byte-append c g)

nonempty_last : (g : Text) → is_empty (g ++ b'\n' ∷ []) ≡ false
nonempty_last [] = refl
nonempty_last (x ∷ g) = refl

-- One read that ends the frame, and one that does not.
read_last :
    (frame g : Text) (reads : List Read)
    → has_byte b'\n' g ≡ false
    → read_loop frame (chunk (g ++ b'\n' ∷ []) ∷ reads) ≡ ok (frame ++ g)
unfolding read_loop
read_last frame g reads h =
    let nonempty : is_empty (g ++ b'\n' ∷ []) ≡ false = nonempty_last g in
    rw (nonempty, position-some g [] h, take-append_exact g (b'\n' ∷ []))
      (ground (arith, length-append g (b'\n' ∷ [])))

read_more :
    (frame c : Text) (reads : List Read)
    → is_empty c ≡ false
    → has_byte b'\n' c ≡ false
    → length frame + length c ≤ max_frame_bytes
    → read_loop frame (chunk c ∷ reads) ≡ read_loop (frame ++ c) reads
unfolding read_loop
read_more frame c reads ne h fits = ground (arith, position-none c h, length-append frame c)

read_loop_complete :
    (chunks : List Text) (rest : List Read) (frame g : Text)
    → All (λ c. is_empty c ≡ false) chunks
    → joined chunks ≡ g ++ b'\n' ∷ []
    → has_byte b'\n' g ≡ false
    → length frame + length g ≤ max_frame_bytes
    → read_loop frame (map chunk chunks ++ rest) ≡ ok (frame ++ g)
read_loop_complete [] rest frame [] ne e h fits = cc
read_loop_complete [] rest frame (x ∷ g) ne e h fits = cc
read_loop_complete (c ∷ cs) rest frame g ne e h fits = elim (cut_cases c (joined cs) g e) [
  | inl (last, whole) ↦ rw whole (read_last frame g (map chunk cs ++ rest) h)
  | inr (g', split, later) ↦
      let (here, there) = has_byte-append c g' (rw split at h) in
      let size : length g ≡ length c + length g' = ap length split ∙ length-append c g' in
      let ih =
        read_loop_complete cs rest (frame ++ c) g' ne.1 later there
          (omega (arith, length-append frame c)) in
      let first = read_more frame c (map chunk cs ++ rest) ne.0 here (omega arith) in
      first ∙ ih ∙ rw (append_assoc, split)
]

-- Wherever the reads cut it, a line of 1 to 256 KiB bytes that ends the read it ends in is
-- returned without its newline, whatever the socket holds behind it.
pub read_frame_complete :
    (chunks : List Text) (rest : List Read) (g : Text)
    → All (λ c. is_empty c ≡ false) chunks
    → joined chunks ≡ g ++ b'\n' ∷ []
    → has_byte b'\n' g ≡ false
    → is_empty g ≡ false
    → length g ≤ max_frame_bytes
    → read_frame (map chunk chunks ++ rest) ≡ ok g
unfolding read_frame
read_frame_complete chunks rest g ne e h some_byte fits =
    ground (arith, read_loop_complete chunks rest [] g ne e h (omega arith))

-- The bytes that the reads bring, up to the first that fails.
abbrev pub received : List Read → Text
received [] = []
received (chunk bytes ∷ reads) = bytes ++ received reads
received (failed _ ∷ reads) = []

position_sound :
    (c : Text) (n : ℕ)
    → newline_position c ≡ some n
    → n + 1 ≡ length c
    → (c ≡ take n c ++ b'\n' ∷ []) × (has_byte b'\n' (take n c) ≡ false)
unfolding newline_position
position_sound [] n h e = cc
position_sound (x ∷ c) zero h e = ground arith
position_sound (x ∷ c) (suc n) h e = ground (arith, position_sound c n)

position-absent : (c : Text) → newline_position c ≡ none → has_byte b'\n' c ≡ false
unfolding newline_position
position-absent [] h = refl
position-absent (x ∷ c) h = ground (arith, position-absent c)

has_byte-join :
    (c g : Text)
    → has_byte b'\n' c ≡ false
    → has_byte b'\n' g ≡ false
    → has_byte b'\n' (c ++ g) ≡ false
has_byte-join [] g h k = k
has_byte-join (x ∷ c) g h k = ground (arith, has_byte-join c g)

-- A line at the front of some bytes.
abbrev pub IsLineOf : Text → Text → Type 0
IsLineOf bytes g = (rest : Text) × (bytes ≡ g ++ b'\n' ∷ rest) × (has_byte b'\n' g ≡ false)

read_loop_sound :
    (frame : Text) (reads : List Read) (g : Text)
    → has_byte b'\n' frame ≡ false
    → read_loop frame reads ≡ ok g
    → IsLineOf (frame ++ received reads) g
unfolding read_loop
read_loop_sound frame [] g h e = cc
read_loop_sound frame (failed m ∷ reads) g h e = cc
read_loop_sound frame (chunk c ∷ reads) g h e = elim (Option-cases (newline_position c)) [
  | inl none' ↦
      let absent = position-absent c none' in
      let (rest, split, clean) =
        read_loop_sound (frame ++ c) reads g (has_byte-join frame c h absent) (ground arith) in
      (rest, sym (append_assoc frame c (received reads)) ∙ split, clean)
  | inr (n, found) ↦
      let at_end : n + 1 ≡ length c = ground arith in
      let (cut, clean) = position_sound c n found at_end in
      let line : g ≡ frame ++ take n c = ground arith in
      let more = received reads in
      (
        more,
        ap (λ x. frame ++ (x ++ more)) cut
            ∙ ap (λ x. frame ++ x) (append_assoc (take n c) (b'\n' ∷ []) more)
            ∙ sym (append_assoc frame (take n c) (b'\n' ∷ more))
            ∙ ap (λ x. x ++ b'\n' ∷ more) (sym line),
        ap (λ x. has_byte b'\n' x) line ∙ has_byte-join frame (take n c) h clean,
      )
]

-- A frame that is returned is not empty, has at most 256 KiB and no newline, and is what the
-- reads bring up to their first newline.
pub read_frame_sound :
    (reads : List Read) (g : Text)
    → read_frame reads ≡ ok g
    → (is_empty g ≡ false) × (length g ≤ max_frame_bytes) × IsLineOf (received reads) g
unfolding read_frame
read_frame_sound reads g h = elim (Result-cases (read_loop [] reads)) [
  | inr (e, failed') ↦ ground arith
  | inl (frame, read) ↦
      let same : frame ≡ g = ground arith in
      (ground arith, ground arith, read_loop_sound [] reads g refl (read ∙ ap (λ x. ok x) same))
]
