-- ===== src/Media/Upload/Served.antt =====
-- What an upload does to the files of the server, whatever the calls answer.
use enviadores_wabridge.Prelude.{
  ◌≡◌, ◌≢◌, refl, sym, ap, ◌∙◌, Option, none, some, [], ◌++◌, length, ◌⊎◌, inl, inr, Bool-cases,
  if-cases,
}
use enviadores_wabridge.Text.Utf8.{Bytes}
use enviadores_wabridge.Store.Failure.{bytes_eq, bytes_eq_iff, differs_from}
use enviadores_wabridge.Media.{Types, pick_extension}
use enviadores_wabridge.Media.Upload.{
  MediaConfig, Sftp, MediaError, part_of, has_size, after_rename, after_close, after_write,
  after_create, put_file, put_ensured, answer, after_mkdir, ensure_remote_dir, upload, Uploader,
  Uploaded,
}

-- The files of a server, by the name they have: a call changes the file it names and no other, Rename
-- moves a file or leaves its target alone (it may have done the one or the other when it answers with
-- an error), and Close keeps what was written.
pub record Files {S : Type 0} (c : Sftp S) : Type 0 where
  pub content : S → Bytes → Option Bytes
  pub mkdir_keeps : (d : Bytes) (s : S) (n : Bytes) → content (c.mkdir_all d s).1 n ≡ content s n
  pub create_keeps :
      (f : Bytes) (s : S) (n : Bytes) → n ≢ f → content (c.create f s).1 n ≡ content s n
  pub create_empty :
      (f : Bytes) (s : S) → (c.create f s).0 ≡ none → content (c.create f s).1 f ≡ some []
  pub write_keeps :
      (f b : Bytes) (s : S) (n : Bytes) → n ≢ f → content (c.write f b s).1 n ≡ content s n
  pub write_whole :
      (f b : Bytes) (s : S)
      → content s f ≡ some []
      → (c.write f b s).0 ≡ none
      → content (c.write f b s).1 f ≡ some b
  pub close_keeps :
      (f : Bytes) (s : S) (n : Bytes) → n ≢ f → content (c.close f s).1 n ≡ content s n
  pub close_whole :
      (f : Bytes) (s : S) → (c.close f s).0 ≡ none → content (c.close f s).1 f ≡ content s f
  pub remove_keeps :
      (f : Bytes) (s : S) (n : Bytes) → n ≢ f → content (c.remove f s).1 n ≡ content s n
  pub rename_keeps :
      (f g : Bytes) (s : S) (n : Bytes) → n ≢ f → n ≢ g → content (c.rename f g s).1 n ≡ content s n
  pub rename_moves :
      (f g : Bytes) (s : S) → (c.rename f g s).0 ≡ none → content (c.rename f g s).1 g ≡ content s f
  pub rename_either :
      (f g : Bytes) (s : S)
      → g ≢ f
      → (content (c.rename f g s).1 g ≡ content s g) ⊎ (content (c.rename f g s).1 g ≡ content s f)

module _ {S : Type 0} (c : Sftp S) (w : Files c) (file bytes : Bytes) where
  -- The file of that name is as it was, or it is the uploaded one and whole.
  abbrev pub IsServed : S → S → Bytes → Type 0
  IsServed old s n = (w.content s n ≡ w.content old n) ⊎ ((n ≡ file) × (w.content s n ≡ some bytes))

  module _ (old : S) (n : Bytes) (other : n ≢ part_of file) where
    abbrev Kept : S → Type 0
    Kept s = w.content s n ≡ w.content old n

    renamed :
        (r : Option Bytes × S)
        → IsServed old r.1 n
        → IsServed old (after_rename c (part_of file) r).1 n
    renamed (none, s) h = h
    renamed (some e, s) (inl h) = inl (w.remove_keeps (part_of file) s n other ∙ h)
    renamed (some e, s) (inr (same, h)) = inr (same, w.remove_keeps (part_of file) s n other ∙ h)

    moved :
        (s : S)
        → Kept s
        → w.content s (part_of file) ≡ some bytes
        → IsServed old (c.rename (part_of file) file s).1 n
    moved s h whole = elim (Bool-cases (bytes_eq n file)) [
      | inr differs ↦ inl (
          w.rename_keeps (part_of file) file s n other (λ same. differs_from n file differs same)
          ∙ h)
      | inl equal ↦
          let same = (bytes_eq_iff n file).0 equal in
          let at = ap (w.content (c.rename (part_of file) file s).1) same in
          elim (w.rename_either (part_of file) file s (λ e. other (same ∙ e))) [
            | inl left ↦ inl (at ∙ left ∙ ap (w.content s) (sym same) ∙ h)
            | inr put_there ↦ inr (same, at ∙ put_there ∙ whole)
          ]
    ]

    closed :
        (r : Option Bytes × S)
        → (r.0 ≡ none → w.content r.1 (part_of file) ≡ some bytes)
        → Kept r.1
        → IsServed old (after_close c file (part_of file) r).1 n
    closed (none, s') whole h = renamed (c.rename (part_of file) file s') (moved s' h (whole refl))
    closed (some e, s') whole h = inl (w.remove_keeps (part_of file) s' n other ∙ h)

    written :
        (r : Option Bytes × S)
        → (r.0 ≡ none → w.content r.1 (part_of file) ≡ some bytes)
        → Kept r.1
        → IsServed old (after_write c file (part_of file) r).1 n
    written (none, s) whole h =
        closed (c.close (part_of file) s) (λ ok. w.close_whole (part_of file) s ok ∙ whole refl)
          (w.close_keeps (part_of file) s n other ∙ h)
    written (some e, s) whole h = inl (
        w.remove_keeps (part_of file) (c.close (part_of file) s).1 n other
        ∙ w.close_keeps (part_of file) s n other
        ∙ h)

    created :
        (r : Option Bytes × S)
        → (r.0 ≡ none → w.content r.1 (part_of file) ≡ some [])
        → Kept r.1
        → IsServed old (after_create c file (part_of file) bytes r).1 n
    created (none, s) fresh h =
        written (c.write (part_of file) bytes s) (w.write_whole (part_of file) bytes s (fresh refl))
          (w.write_keeps (part_of file) bytes s n other ∙ h)
    created (some e, s) fresh h = inl h

  pub put_file-IsServed :
      (s : S) (n : Bytes) → n ≢ part_of file → IsServed s (put_file c file bytes s).1 n
  unfolding put_file
  put_file-IsServed s n other =
      if-cases (λ (r : Option MediaError × S). IsServed s r.1 n)
        (has_size (length bytes) (c.stat file s)) (inl refl)
        (created s n other (c.create (part_of file) s) (w.create_empty (part_of file) s)
          (w.create_keeps (part_of file) s n other))

answered :
    {S : Type 0} (c : Sftp S) (w : Files c) (file bytes : Bytes) (up : Uploaded) (s : S)
    (u : Uploader S) (r : Option MediaError × S) (n : Bytes)
    → w.content u.server n ≡ w.content s n
    → IsServed c w file bytes u.server r.1 n
    → IsServed c w file bytes s (answer c up r u).1.server n
answered c w file bytes up s u (none, s') n h (inl k) = inl (k ∙ h)
answered c w file bytes up s u (some e, s') n h (inl k) = inl (k ∙ h)
answered c w file bytes up s u (none, s') n h (inr k) = inr k
answered c w file bytes up s u (some e, s') n h (inr k) = inr k

made :
    {S : Type 0} (c : Sftp S) (w : Files c) (s : S) (r : Option Bytes × S) (n : Bytes)
    → w.content r.1 n ≡ w.content s n
    → w.content (after_mkdir c s r).1.server n ≡ w.content s n
made c w s (none, s') n h = h
made c w s (some e, s') n h = h

-- The directory leaves the files alone.
pub ensured :
    {S : Type 0} (c : Sftp S) (w : Files c) (cfg : MediaConfig) (u : Uploader S) (n : Bytes)
    → w.content (ensure_remote_dir c cfg u).1.server n ≡ w.content u.server n
unfolding ensure_remote_dir
ensured c w cfg u n = elim (Bool-cases u.ensured_ok) [
  | inl made_before ↦ rw made_before refl
  | inr fresh ↦ rw fresh (
      made c w u.server (c.mkdir_all cfg.remote_path u.server) n
        (w.mkdir_keeps cfg.remote_path u.server n))
]

put_ensured-IsServed :
    {S : Type 0} (c : Sftp S) (w : Files c) (file bytes : Bytes) (up : Uploaded) (s : S)
    (r : Option MediaError × Uploader S) (n : Bytes)
    → n ≢ part_of file
    → w.content r.1.server n ≡ w.content s n
    → IsServed c w file bytes s (put_ensured c file bytes up r).1.server n
put_ensured-IsServed c w file bytes up s (some e, u) n other h = inl h
put_ensured-IsServed c w file bytes up s (none, u) n other h =
    answered c w file bytes up s u (put_file c file bytes u.server) n h
      (put_file-IsServed c w file bytes u.server n other)

-- Whatever the SFTP server answers to each call of Upload, over a server on which a call changes
-- the file that it names and no other, Close keeps what was written, and Rename moves the file or
-- leaves its target alone: every name but that of the .part file afterwards holds what it held
-- before, or it is the name of the uploaded file and holds the whole data. A file that was there
-- before may stay as it was, also one that is cut short.
pub upload-IsServed :
    {S : Type 0} (c : Sftp S) (w : Files c) (cfg : MediaConfig) (t : Types)
    (sha256_hex : Bytes → Bytes) (bytes mime filename : Bytes) (u : Uploader S) (n : Bytes)
    → n ≢ part_of (c.join cfg.remote_path (sha256_hex bytes ++ pick_extension t mime filename))
    → IsServed c w
        (c.join cfg.remote_path (sha256_hex bytes ++ pick_extension t mime filename))
        bytes
        u.server
        (upload c cfg t sha256_hex bytes mime filename u).1.server
        n
unfolding upload
upload-IsServed c w cfg t sha256_hex bytes mime filename u n other =
    put_ensured-IsServed c w
      (c.join cfg.remote_path (sha256_hex bytes ++ pick_extension t mime filename)) bytes _ u.server
      (ensure_remote_dir c cfg u) n other (ensured c w cfg u n)
