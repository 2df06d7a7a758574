-- ===== src/Media/Upload.antt =====
-- The uploader of internal/media/media.go: ensureRemoteDir, Upload, UploadThumbnail and Read, on the
-- files of an SFTP server. What the server answers to each call, and what the call does to its files,
-- is a parameter.
pub mod Served
pub mod Stored
use enviadores_wabridge.Prelude.{
  ℕ, Bool, true, false, Option, none, some, List, [], ◌∷◌, ◌++◌, eqb, if◌then◌else◌, length,
}
use enviadores_wabridge.Text.Utf8.{Bytes, utf8}
use enviadores_wabridge.Store.Messages.{is_empty}
use enviadores_wabridge.Media.{Types, pick_extension, public_url}

-- config.Media, as far as the uploader reads it
pub record MediaConfig : Type 0 where
  pub remote_path : Bytes
  pub public_base_url : Bytes

-- path.Join, and the SFTP client's calls on a server: the error, if any, and the server afterwards.
-- Stat is by the size that it finds, ReadAll by the error and the bytes.
pub record Sftp (S : Type 0) : Type 0 where
  pub join : Bytes → Bytes → Bytes
  pub mkdir_all : Bytes → S → Option Bytes × S
  pub stat : Bytes → S → Option ℕ
  pub create : Bytes → S → Option Bytes × S
  pub write : Bytes → Bytes → S → Option Bytes × S
  pub close : Bytes → S → Option Bytes × S
  pub remove : Bytes → S → Option Bytes × S
  pub rename : Bytes → Bytes → S → Option Bytes × S
  pub open_file : Bytes → S → Option Bytes
  pub read_all : Bytes → S → Option Bytes × Bytes

pub data MediaError : Type 0 where
  mkdir_failed create_failed write_failed close_failed open_failed read_failed : Bytes → MediaError
  empty_sha empty_bytes empty_basename : MediaError

-- The public URL and the hash
pub record Uploaded : Type 0 where
  pub url : Bytes
  pub sha : Bytes

pub data Answer {ℓ} (A : Type ℓ) : Type ℓ where
  done : A → Answer A
  failed : MediaError → Answer A

-- ensuredOK, and the server
pub record Uploader (S : Type 0) : Type 0 where
  pub ensured_ok : Bool
  pub server : S

abbrev pub part_suffix : Bytes
part_suffix = utf8 ".part"

abbrev pub part_of : Bytes → Bytes
part_of file = file ++ part_suffix

abbrev pub has_size : ℕ → Option ℕ → Bool
has_size n none = false
has_size n (some k) = eqb k n

module _ {S : Type 0} (c : Sftp S) where
  abbrev pub after_mkdir : S → Option Bytes × S → Option MediaError × Uploader S
  after_mkdir s (none, s') = (none, record { ensured_ok = true; server = s' })
  after_mkdir s (some e, s') = (some (mkdir_failed e), record { ensured_ok = false; server = s' })

  -- ensureRemoteDir
  unfoldable pub ensure_remote_dir : MediaConfig → Uploader S → Option MediaError × Uploader S
  ensure_remote_dir cfg u =
      if u.ensured_ok
      then (none, u)
      else after_mkdir u.server (c.mkdir_all cfg.remote_path u.server)

  abbrev pub after_rename : Bytes → Option Bytes × S → Option MediaError × S
  after_rename tmp (none, s) = (none, s)
  after_rename tmp (some e, s) = (none, (c.remove tmp s).1)

  abbrev pub after_close : Bytes → Bytes → Option Bytes × S → Option MediaError × S
  after_close file tmp (none, s) = after_rename tmp (c.rename tmp file s)
  after_close file tmp (some e, s) = (some (close_failed e), (c.remove tmp s).1)

  abbrev pub after_write : Bytes → Bytes → Option Bytes × S → Option MediaError × S
  after_write file tmp (none, s) = after_close file tmp (c.close tmp s)
  after_write file tmp (some e, s) = (some (write_failed e), (c.remove tmp (c.close tmp s).1).1)

  abbrev pub after_create : Bytes → Bytes → Bytes → Option Bytes × S → Option MediaError × S
  after_create file tmp bytes (none, s) = after_write file tmp (c.write tmp bytes s)
  after_create file tmp bytes (some e, s) = (some (create_failed e), s)

  -- The part that Upload and UploadThumbnail have in common, from Stat on.
  unfoldable pub put_file : Bytes → Bytes → S → Option MediaError × S
  put_file file bytes s =
      if has_size (length bytes) (c.stat file s)
      then (none, s)
      else after_create file (part_of file) bytes (c.create (part_of file) s)

  abbrev pub answer : Uploaded → Option MediaError × S → Uploader S → Answer Uploaded × Uploader S
  answer up (none, s) u = (done up, record u { server = s })
  answer up (some e, s) u = (failed e, record u { server = s })

  abbrev pub put_ensured :
      Bytes → Bytes → Uploaded → Option MediaError × Uploader S → Answer Uploaded × Uploader S
  put_ensured file bytes up (none, u) = answer up (put_file file bytes u.server) u
  put_ensured file bytes up (some e, u) = (failed e, u)

  -- Upload, by the hexadecimal hash of the data
  unfoldable pub upload :
      MediaConfig
      → Types
      → (Bytes → Bytes)
      → Bytes
      → Bytes
      → Bytes
      → Uploader S
      → Answer Uploaded × Uploader S
  upload cfg t sha256_hex bytes mime filename u =
      let sha = sha256_hex bytes in
      let name = sha ++ pick_extension t mime filename in
      put_ensured (c.join cfg.remote_path name) bytes
        (record { url = public_url cfg.public_base_url name; sha = sha }) (ensure_remote_dir cfg u)

  -- UploadThumbnail
  unfoldable pub upload_thumbnail :
      MediaConfig → Bytes → Bytes → Uploader S → Answer Uploaded × Uploader S
  upload_thumbnail cfg sha jpeg u =
      let name = sha ++ utf8 "_thumb.jpg" in
      if is_empty sha
      then (failed empty_sha, u)
      else if is_empty jpeg
      then (failed empty_bytes, u)
      else put_ensured (c.join cfg.remote_path name) jpeg
          (record { url = public_url cfg.public_base_url name; sha = sha })
          (ensure_remote_dir cfg u)

  abbrev pub after_open : Option Bytes → Option Bytes × Bytes → Answer Bytes
  after_open (some e) r = failed (open_failed e)
  after_open none (some e, bytes) = failed (read_failed e)
  after_open none (none, bytes) = done bytes

  -- Read
  unfoldable pub read : MediaConfig → Bytes → S → Answer Bytes
  read cfg basename s =
      let file = c.join cfg.remote_path basename in
      if is_empty basename
      then failed empty_basename
      else after_open (c.open_file file s) (c.read_all file s)
