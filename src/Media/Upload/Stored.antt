-- ===== src/Media/Upload/Stored.antt =====
-- What is uploaded can be read back, on a server that answers every call.
use enviadores_wabridge.Prelude.{
  ◌≡◌, refl, ap, ◌∙◌, true, false, Option, none, some, [], ◌∷◌, ◌++◌, length, ◌⊎◌, inl, inr,
  Bool-cases,
}
use enviadores_wabridge.Text.Utf8.{Bytes}
use enviadores_wabridge.Store.Messages.{is_empty}
use enviadores_wabridge.Media.{Types, pick_extension, public_url}
use enviadores_wabridge.Media.Upload.{
  MediaConfig, Sftp, MediaError, part_of, has_size, after_rename, after_close, after_write,
  after_create, put_file, put_ensured, answer, after_mkdir, ensure_remote_dir, upload, read,
  Uploader, Uploaded, Answer, done,
}
use enviadores_wabridge.Media.Upload.Served.{Files, ensured}

-- Every call succeeds, a file that is there opens and gives its bytes, and Stat finds no other.
pub record IsUp {S : Type 0} (c : Sftp S) (w : Files c) : Type 0 where
  pub makes : (d : Bytes) (s : S) → (c.mkdir_all d s).0 ≡ none
  pub creates : (f : Bytes) (s : S) → (c.create f s).0 ≡ none
  pub writes : (f b : Bytes) (s : S) → (c.write f b s).0 ≡ none
  pub closes : (f : Bytes) (s : S) → (c.close f s).0 ≡ none
  pub renames : (f g : Bytes) (s : S) → (c.rename f g s).0 ≡ none
  pub opens : (f b : Bytes) (s : S) → w.content s f ≡ some b → c.open_file f s ≡ none
  pub reads : (f b : Bytes) (s : S) → w.content s f ≡ some b → c.read_all f s ≡ (none, b)
  pub stats : (f : Bytes) (s : S) → w.content s f ≡ none → c.stat f s ≡ none

module _ {S : Type 0} (c : Sftp S) (w : Files c) (up : IsUp c w) (file bytes : Bytes) where
  abbrev Holds : Option MediaError × S → Type 0
  Holds r = (r.0 ≡ none) × (w.content r.1 file ≡ some bytes)

  renamed :
      (r : Option Bytes × S)
      → r.0 ≡ none
      → w.content r.1 file ≡ some bytes
      → Holds (after_rename c (part_of file) r)
  renamed (none, s) ok h = (refl, h)
  renamed (some e, s) ok h = cc

  closed :
      (r : Option Bytes × S)
      → r.0 ≡ none
      → w.content r.1 (part_of file) ≡ some bytes
      → Holds (after_close c file (part_of file) r)
  closed (none, s) ok h =
      let done_it = up.renames (part_of file) file s in
      renamed (c.rename (part_of file) file s) done_it
        (w.rename_moves (part_of file) file s done_it ∙ h)
  closed (some e, s) ok h = cc

  written :
      (r : Option Bytes × S)
      → r.0 ≡ none
      → w.content r.1 (part_of file) ≡ some bytes
      → Holds (after_write c file (part_of file) r)
  written (none, s) ok h =
      let done_it = up.closes (part_of file) s in
      closed (c.close (part_of file) s) done_it (w.close_whole (part_of file) s done_it ∙ h)
  written (some e, s) ok h = cc

  created :
      (r : Option Bytes × S)
      → r.0 ≡ none
      → w.content r.1 (part_of file) ≡ some []
      → Holds (after_create c file (part_of file) bytes r)
  created (none, s) ok h =
      let done_it = up.writes (part_of file) bytes s in
      written (c.write (part_of file) bytes s) done_it
        (w.write_whole (part_of file) bytes s h done_it)
  created (some e, s) ok h = cc

  there :
      (s : S)
      → (w.content s file ≡ none) ⊎ (w.content s file ≡ some bytes)
      → has_size (length bytes) (c.stat file s) ≡ true
      → w.content s file ≡ some bytes
  there s (inr h) sized = h
  there s (inl absent) sized =
      let unsized = ap (has_size (length bytes)) (up.stats file s absent) in cc

  put_file-Holds :
      (s : S)
      → (w.content s file ≡ none) ⊎ (w.content s file ≡ some bytes)
      → Holds (put_file c file bytes s)
  unfolding put_file
  put_file-Holds s before = elim (Bool-cases (has_size (length bytes) (c.stat file s))) [
    | inl sized ↦ rw sized (refl, there s before sized)
    | inr unsized ↦ rw unsized (
        let done_it = up.creates (part_of file) s in
        created (c.create (part_of file) s) done_it (w.create_empty (part_of file) s done_it))
  ]

  abbrev Stored : Uploaded → Answer Uploaded × Uploader S → Type 0
  Stored u r = (r.0 ≡ done u) × (w.content r.1.server file ≡ some bytes)

  answered :
      (url : Uploaded) (r : Option MediaError × S) (u : Uploader S)
      → Holds r
      → Stored url (answer c url r u)
  answered url (none, s) u (ok, h) = (refl, h)
  answered url (some e, s) u (ok, h) = cc

  put_ensured-Stored :
      (url : Uploaded) (r : Option MediaError × Uploader S)
      → r.0 ≡ none
      → (w.content r.1.server file ≡ none) ⊎ (w.content r.1.server file ≡ some bytes)
      → Stored url (put_ensured c file bytes url r)
  put_ensured-Stored url (none, u) ok before =
      answered url (put_file c file bytes u.server) u (put_file-Holds u.server before)
  put_ensured-Stored url (some e, u) ok before = cc

made :
    {S : Type 0} (c : Sftp S) (s : S) (r : Option Bytes × S)
    → r.0 ≡ none
    → (after_mkdir c s r).0 ≡ none
made c s (none, s') ok = refl
made c s (some e, s') ok = cc

ensures :
    {S : Type 0} (c : Sftp S) (w : Files c) (up : IsUp c w) (cfg : MediaConfig) (u : Uploader S)
    → (ensure_remote_dir c cfg u).0 ≡ none
unfolding ensure_remote_dir
ensures c w up cfg u = elim (Bool-cases u.ensured_ok) [
  | inl made_before ↦ rw made_before refl
  | inr fresh ↦
      rw fresh
        (made c u.server (c.mkdir_all cfg.remote_path u.server) (up.makes cfg.remote_path u.server))
]

reads_back :
    {S : Type 0} (c : Sftp S) (w : Files c) (up : IsUp c w) (cfg : MediaConfig) (name bytes : Bytes)
    (s : S)
    → is_empty name ≡ false
    → w.content s (c.join cfg.remote_path name) ≡ some bytes
    → read c cfg name s ≡ done bytes
unfolding read
reads_back c w up cfg name bytes s named h =
    rw
      (
        named,
        up.opens (c.join cfg.remote_path name) bytes s h,
        up.reads (c.join cfg.remote_path name) bytes s h,
      )
      refl

append_nonempty : (s t : Bytes) → is_empty s ≡ false → is_empty (s ++ t) ≡ false
append_nonempty [] t h = cc
append_nonempty (a ∷ s) t h = refl

before_put :
    {S : Type 0} (c : Sftp S) (w : Files c) (cfg : MediaConfig) (u : Uploader S)
    (file bytes : Bytes)
    → (w.content u.server file ≡ none) ⊎ (w.content u.server file ≡ some bytes)
    → (w.content (ensure_remote_dir c cfg u).1.server file ≡ none)
      ⊎ (w.content (ensure_remote_dir c cfg u).1.server file ≡ some bytes)
before_put c w cfg u file bytes (inl h) = inl (ensured c w cfg u file ∙ h)
before_put c w cfg u file bytes (inr h) = inr (ensured c w cfg u file ∙ h)

module _ {S : Type 0} (c : Sftp S) (w : Files c) (up : IsUp c w) (cfg : MediaConfig) (t : Types)
    (sha256_hex : Bytes → Bytes) (bytes mime filename : Bytes) (u : Uploader S) where
  abbrev pub stored_name : Bytes
  stored_name = sha256_hex bytes ++ pick_extension t mime filename

  -- On a server that answers every call, where the file of that hash and extension is missing or
  -- already holds the data, and the hash is not empty: Upload answers with the public URL of the
  -- name and the hash, and Read of that name on the server afterwards gives the data.
  pub upload-read :
      is_empty (sha256_hex bytes) ≡ false
      → (w.content u.server (c.join cfg.remote_path stored_name) ≡ none)
        ⊎ (w.content u.server (c.join cfg.remote_path stored_name) ≡ some bytes)
      → ((upload c cfg t sha256_hex bytes mime filename u).0
          ≡ done
              (record { url = public_url cfg.public_base_url stored_name; sha = sha256_hex bytes }))
        × (read c cfg stored_name (upload c cfg t sha256_hex bytes mime filename u).1.server
            ≡ done bytes)
  unfolding upload
  upload-read named before =
      let file = c.join cfg.remote_path stored_name in
      let (answered_ok, kept) =
        put_ensured-Stored c w up file bytes _ (ensure_remote_dir c cfg u) (ensures c w up cfg u)
          (before_put c w cfg u file bytes before) in
      (
        answered_ok,
        reads_back c w up cfg stored_name bytes _
            (append_nonempty (sha256_hex bytes) (pick_extension t mime filename) named) kept,
      )
