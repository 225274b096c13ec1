-- ===== src/Cli/Progress.antt =====
-- When `write_atomic` of crates/c6-cli/src/config.rs succeeds.
use cresix.Base.{◌≡◌, true, some, ok, refl}
use cresix.Base.Text.{Text}
use cresix.Cli.StateFile.{
  Metadata, FileSystem, validate_directory, ensure_directory, validate_existing, temporary_of,
  replace_file, write_atomic,
}

module _ {F : Type 0} (fs : FileSystem F) where
  -- The directory is there and safe, what is at the path is safe, and the four operations succeed.
  pub record Works (p bytes : Text) (f : F) : Type 0 where
    pub directory : Text
    pub name : Text
    pub above : fs.parent p ≡ some directory
    pub named : fs.file_name p ≡ some name
    pub there : fs.exists f directory ≡ true
    pub metadata : Metadata
    pub looked : fs.symlink_metadata f directory ≡ ok metadata
    pub safe : validate_directory fs directory metadata ≡ ok tt
    pub old_safe : validate_existing fs p (fs.symlink_metadata f p) ≡ ok tt
    pub opens : (fs.open_new (temporary_of fs directory name) f).0 ≡ ok tt
    pub writes :
        (fs.write_all
          (temporary_of fs directory name)
          bytes
          (fs.open_new (temporary_of fs directory name) f).1).0
        ≡ ok tt
    pub renames :
        (fs.rename
          (temporary_of fs directory name)
          p
          (fs.write_all
            (temporary_of fs directory name)
            bytes
            (fs.open_new (temporary_of fs directory name) f).1).1).0
        ≡ ok tt
    pub syncs :
        (fs.sync_directory directory
          (fs.rename
            (temporary_of fs directory name)
            p
            (fs.write_all
              (temporary_of fs directory name)
              bytes
              (fs.open_new (temporary_of fs directory name) f).1).1).1).0
        ≡ ok tt

  pub write_atomic-ok :
      (p bytes : Text) (f : F) → Works p bytes f → (write_atomic fs p bytes f).0 ≡ ok tt
  unfolding write_atomic ensure_directory replace_file
  write_atomic-ok p bytes f w =
      rw
        (
          w.above, w.there, w.looked, w.safe, w.old_safe, w.named, w.opens, w.writes, w.renames,
          w.syncs,
        )
        refl
