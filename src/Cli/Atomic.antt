-- ===== src/Cli/Atomic.antt =====
-- What `write_atomic` of crates/c6-cli/src/config.rs leaves at its path, with what is relied on of
-- the file system.
use cresix.Base.{
  [], ◌%◌, ◌≡◌, ◌⊎◌, inl, inr, true, false, some, Result, ok, err, ok_or, refl, ◌∙◌, arith,
  Bool-cases, Option-cases,
}
use cresix.Base.Stateful.{
  Stateful, continue_with, ◌>>◌, lift, look, Outcome, continue_with-Outcome, lift-Outcome,
}
use cresix.Base.Text.{Text, codes}
use cresix.Cli.StateFile.{
  IoError, StateError, invalid, Metadata, FileSystem, or_io, or_io_at, tidied, validate_metadata,
  validate_directory, create_missing, ensure_directory, read_checked, read_secure,
  validate_existing, temporary_of, replace_file, write_atomic,
}

module _ {F : Type 0} (fs : FileSystem F) where
  -- A path is as it was.
  abbrev pub SameAt : Text → F → F → Type 0
  SameAt p f g = (fs.symlink_metadata g p ≡ fs.symlink_metadata f p) × (fs.read g p ≡ fs.read f p)

  -- The temporary file of a path.
  abbrev pub Beside : Text → Text → Type 0
  Beside p t =
      (d : Text) × ((name : Text) × (fs.parent p ≡ some d)
        × (fs.file_name p ≡ some name)
        × (t ≡ temporary_of fs d name))

  -- A regular file of the user that nobody else may touch.
  pub record Private (metadata : Metadata) : Type 0 where
    pub no_link : metadata.is_symlink ≡ false
    pub regular : metadata.is_file ≡ true
    pub owned : metadata.uid ≡ fs.geteuid
    pub closed : metadata.mode % 64 ≡ 0

  -- What is relied on: a new file is private and empty, what is written to it reads back, a rename takes
  -- the file along or changes nothing, what is done to the temporary file of a path leaves the
  -- path alone, and so does making its directory or syncing one.
  pub record FileLaws : Type 0 where
    pub opened :
        (t : Text) (f : F)
        → (fs.open_new t f).0 ≡ ok tt
        → (metadata : Metadata) × (fs.symlink_metadata (fs.open_new t f).1 t ≡ ok metadata)
          × Private metadata
          × (fs.read (fs.open_new t f).1 t ≡ ok [])
    pub opened_aside : (t p : Text) (f : F) → Beside p t → SameAt p f (fs.open_new t f).1
    pub written :
        (t bytes : Text) (f : F)
        → fs.read f t ≡ ok []
        → (fs.write_all t bytes f).0 ≡ ok tt
        → (fs.symlink_metadata (fs.write_all t bytes f).1 t ≡ fs.symlink_metadata f t)
          × (fs.read (fs.write_all t bytes f).1 t ≡ ok bytes)
    pub written_aside :
        (t p bytes : Text) (f : F) → Beside p t → SameAt p f (fs.write_all t bytes f).1
    pub renamed :
        (a b : Text) (f : F)
        → (fs.rename a b f).0 ≡ ok tt
        → (fs.symlink_metadata (fs.rename a b f).1 b ≡ fs.symlink_metadata f a)
          × (fs.read (fs.rename a b f).1 b ≡ fs.read f a)
    pub not_renamed :
        (a b p : Text) (e : IoError) (f : F)
        → (fs.rename a b f).0 ≡ err e
        → SameAt p f (fs.rename a b f).1
    pub synced : (d p : Text) (f : F) → SameAt p f (fs.sync_directory d f).1
    pub removed_aside : (t p : Text) (f : F) → Beside p t → SameAt p f (fs.remove_file t f).1
    pub made_aside :
        (d p : Text) (f : F) → fs.parent p ≡ some d → SameAt p f (fs.create_directory d f).1

  -- The path holds these bytes, in a file that is read.
  abbrev pub Holds : Text → Text → F → Type 0
  Holds p bytes g = read_secure fs g p ≡ ok (some bytes)

  SameAt-trans : (p : Text) (f g h : F) → SameAt p f g → SameAt p g h → SameAt p f h
  SameAt-trans p f g h (m, r) (m', r') = (m' ∙ m, r' ∙ r)

  pub SameAt-read : (p : Text) (f g : F) → SameAt p f g → read_secure fs g p ≡ read_secure fs f p
  unfolding read_secure
  SameAt-read p f g (m, r) = λ i. read_checked fs p (r i) (m i)

  private_reads :
      (p bytes : Text) (g : F) (metadata : Metadata)
      → fs.symlink_metadata g p ≡ ok metadata
      → Private metadata
      → fs.read g p ≡ ok bytes
      → Holds p bytes g
  unfolding read_secure validate_metadata
  private_reads p bytes g metadata there own read =
      let a = own.no_link in
      let b = own.regular in let c = own.owned in let d = own.closed in ground arith

  -- What holds of a run without a result.
  abbrev pub Ends : (F → Type 0) → (F → Type 0) → Result StateError (Unit {0}) × F → Type 0
  Ends P Q = Outcome (λ (_ : Unit {0}). P) Q

  io-Ends :
      (P Q : F → Type 0) (p : Text) (run : Result IoError (Unit {0}) × F)
      → (run.0 ≡ ok tt → P run.1)
      → ((e : IoError) → run.0 ≡ err e → Q run.1)
      → Ends P Q (or_io_at p run)
  io-Ends P Q p (ok u, g) good bad = good refl
  io-Ends P Q p (err e, g) good bad = bad e refl

  then-Ends :
      (P Q P' Q' : F → Type 0) (m n : Stateful StateError F (Unit {0})) (g : F)
      → Ends P Q (m g)
      → ((h : F) → P h → Ends P' Q' (n h))
      → ((h : F) → Q h → Q' h)
      → Ends P' Q' ((m >> n) g)
  then-Ends P Q P' Q' m n g first next failed =
      continue_with-Outcome (λ _. P) Q (λ _. P') Q' (λ _. n) (m g) first (λ _. next) failed

  module _ (laws : FileLaws) (p bytes : Text) (f : F) where
    abbrev Kept : F → Type 0
    Kept g = SameAt p f g

    -- The path is as it was, or holds the new bytes.
    abbrev pub OldOrNew : F → Type 0
    OldOrNew g = SameAt p f g ⊎ Holds p bytes g

    -- The temporary file is private and holds this content.
    abbrev Filled : Text → Text → F → Type 0
    Filled t content g =
        Kept g
        × ((metadata : Metadata) × (fs.symlink_metadata g t ≡ ok metadata)
            × Private metadata
            × (fs.read g t ≡ ok content))

    opened-Ends :
        (t : Text) (g : F)
        → Beside p t
        → Kept g
        → Ends (Filled t []) Kept (or_io_at t (fs.open_new t g))
    opened-Ends t g other kept =
        let aside = SameAt-trans p f g _ kept (laws.opened_aside t p g other) in
        io-Ends (Filled t []) Kept t (fs.open_new t g) (λ good. (aside, laws.opened t g good))
          (λ e bad. aside)

    written-Ends :
        (t : Text) (g : F)
        → Beside p t
        → Filled t [] g
        → Ends (Filled t bytes) Kept (or_io_at t (fs.write_all t bytes g))
    written-Ends t g other (kept, (metadata, there, own, blank)) =
        let aside = SameAt-trans p f g _ kept (laws.written_aside t p bytes g other) in
        io-Ends (Filled t bytes) Kept t (fs.write_all t bytes g)
          (λ good.
            let (m, r) = laws.written t bytes g blank good in
            (aside, (metadata, m ∙ there, own, r)))
          (λ e bad. aside)

    renamed-Ends :
        (t : Text) (g : F)
        → Filled t bytes g
        → Ends (Holds p bytes) Kept (or_io_at p (fs.rename t p g))
    renamed-Ends t g (kept, (metadata, there, own, filled)) =
        io-Ends (Holds p bytes) Kept p (fs.rename t p g)
          (λ good.
            let (m, r) = laws.renamed t p g good in
            private_reads p bytes (fs.rename t p g).1 metadata (m ∙ there) own (r ∙ filled))
          (λ e bad. SameAt-trans p f g _ kept (laws.not_renamed t p p e g bad))

    synced-Ends :
        (d : Text) (g : F)
        → Holds p bytes g
        → Ends (Holds p bytes) OldOrNew (or_io_at d (fs.sync_directory d g))
    synced-Ends d g holds =
        let new = SameAt-read p g _ (laws.synced d p g) ∙ holds in
        io-Ends (Holds p bytes) OldOrNew d (fs.sync_directory d g) (λ good. new) (λ e bad. inr new)

    replace_file-Ends :
        (d t : Text) (g : F)
        → Beside p t
        → Kept g
        → Ends (Holds p bytes) OldOrNew (replace_file fs d t p bytes g)
    unfolding replace_file
    replace_file-Ends d t g other kept =
        let write : Stateful StateError F (Unit {0}) = λ h. or_io_at t (fs.write_all t bytes h) in
        let move : Stateful StateError F (Unit {0}) = λ h. or_io_at p (fs.rename t p h) in
        let sync : Stateful StateError F (Unit {0}) = λ h. or_io_at d (fs.sync_directory d h) in
        then-Ends (Filled t []) Kept (Holds p bytes) OldOrNew (λ h. or_io_at t (fs.open_new t h))
          (write >> (move >> sync)) g (opened-Ends t g other kept)
          (λ h ready.
            then-Ends (Filled t bytes) Kept (Holds p bytes) OldOrNew write (move >> sync) h
              (written-Ends t h other ready)
              (λ h' filled.
                then-Ends (Holds p bytes) Kept (Holds p bytes) OldOrNew move sync h'
                  (renamed-Ends t h' filled) (λ last holds. synced-Ends d last holds)
                  (λ last same. inl same))
              (λ h' same. inl same))
          (λ h same. inl same)

    tidied-Ends :
        (t : Text) (run : Result StateError (Unit {0}) × F)
        → Beside p t
        → Ends (Holds p bytes) OldOrNew run
        → Ends (Holds p bytes) OldOrNew (tidied fs t run)
    tidied-Ends t (ok u, g) other h = h
    tidied-Ends t (err e, g) other (inl same) =
        inl (SameAt-trans p f g _ same (laws.removed_aside t p g other))
    tidied-Ends t (err e, g) other (inr new) =
        inr (SameAt-read p g _ (laws.removed_aside t p g other) ∙ new)

    create_missing-Ends :
        (d : Text) (g : F) → fs.parent p ≡ some d → Kept g → Ends Kept Kept (create_missing fs d g)
    create_missing-Ends d g above kept =
        let made = SameAt-trans p f g _ kept (laws.made_aside d p g above) in
        elim (Bool-cases (fs.exists g d)) [
          | inl there ↦ rw there kept
          | inr missing ↦
              rw missing
                (io-Ends Kept Kept d (fs.create_directory d g) (λ good. made) (λ e bad. made))
        ]

    ensure_directory-Ends :
        (d : Text) (g : F)
        → fs.parent p ≡ some d
        → Kept g
        → Ends Kept Kept (ensure_directory fs d g)
    unfolding ensure_directory
    ensure_directory-Ends d g above kept =
        then-Ends Kept Kept Kept Kept (create_missing fs d) _ g (create_missing-Ends d g above kept)
          (λ h same.
            continue_with-Outcome (λ (metadata : Metadata). Kept) Kept (λ (_ : Unit {0}). Kept) Kept
              (λ metadata. lift (validate_directory fs d metadata))
              (or_io d (fs.symlink_metadata h d), h)
              (lift-Outcome (λ metadata. Kept) Kept (or_io d (fs.symlink_metadata h d)) h
                (λ metadata e. same) same)
              (λ metadata h' kept'.
                lift-Outcome (λ _. Kept) Kept (validate_directory fs d metadata) h' (λ u e. kept')
                  kept')
              (λ h' kept'. kept'))
          (λ h same. same)

    named-Ends :
        (d : Text) (g : F)
        → fs.parent p ≡ some d
        → Kept g
        → Ends (Holds p bytes) OldOrNew (
            continue_with
              (λ (name : Text) (files : F).
                tidied fs
                  (temporary_of fs d name)
                  (replace_file fs d (temporary_of fs d name) p bytes files))
              (ok_or (fs.file_name p) (invalid (codes "invalid state filename")), g))
    named-Ends d g above kept = elim (Option-cases (fs.file_name p)) [
      | inl none_there ↦ rw none_there (inl kept)
      | inr (name, is) ↦ rw is (
          tidied-Ends (temporary_of fs d name) _ (d, (name, above, is, refl))
            (replace_file-Ends d (temporary_of fs d name) g (d, (name, above, is, refl)) kept))
    ]

    -- A write that succeeds leaves the bytes at the path, in a private regular file; a write that
    -- fails leaves the path as it was, or holding the new bytes.
    pub write_atomic-Ends : Ends (Holds p bytes) OldOrNew (write_atomic fs p bytes f)
    unfolding write_atomic
    write_atomic-Ends = elim (Option-cases (fs.parent p)) [
      | inl top ↦ rw top (inl (refl, refl))
      | inr (d, above) ↦
          let check : Stateful StateError F (Unit {0}) =
            look (λ g. validate_existing fs p (fs.symlink_metadata g p)) in
          let finish : Stateful StateError F (Unit {0}) = λ g.
            continue_with
              (λ (name : Text) (files : F).
                tidied fs (temporary_of fs d name)
                  (replace_file fs d (temporary_of fs d name) p bytes files))
              (ok_or (fs.file_name p) (invalid (codes "invalid state filename")), g) in
          rw above (
            then-Ends Kept Kept (Holds p bytes) OldOrNew (ensure_directory fs d) (check >> finish) f
              (ensure_directory-Ends d f above (refl, refl))
              (λ g kept.
                then-Ends Kept Kept (Holds p bytes) OldOrNew check finish g
                  (lift-Outcome (λ _. Kept) Kept (validate_existing fs p (fs.symlink_metadata g p))
                    g (λ u e. kept) kept)
                  (λ h same. named-Ends d h above same) (λ h same. inl same))
              (λ g kept. inl kept))
    ]
