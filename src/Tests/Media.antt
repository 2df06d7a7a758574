-- ===== src/Tests/Media.antt =====
-- Concrete runs of uploads and of media URLs, on a server whose files are a log of what was put under
-- each name, the newest first.
use enviadores_wabridge.Prelude.{
  ℕ, ◌≡◌, ◌≢◌, refl, ap, true, false, Option, none, some, List, [], ◌∷◌, ◌++◌, if◌then◌else◌,
  length, drop, inl, inr, arith, Bool-cases,
}
use enviadores_wabridge.Text.Utf8.{Bytes, utf8}
use enviadores_wabridge.Text.Trim.{trim_space}
use enviadores_wabridge.Text.Search.{contains}
use enviadores_wabridge.Store.Failure.{bytes_eq, bytes_eq_iff, differs_from}
use enviadores_wabridge.Media.{
  Urls, Types, pick_extension, trim_slashes, public_url, from_slash, basename_from_public_url,
}
use enviadores_wabridge.Media.Basename.{basename_from_public_url-public_url}
use enviadores_wabridge.Media.Size.{thumbnail_size, IsThumbnail, thumbnail_size_bounds}
use enviadores_wabridge.Media.Upload.{MediaConfig, Sftp, part_of, Uploader, done, upload, read}
use enviadores_wabridge.Media.Upload.Served.{Files, IsServed, upload-IsServed}
use enviadores_wabridge.Media.Upload.Stored.{IsUp, upload-read}

-- A file, or its removal.
abbrev pub Log : Type 0
Log = List (Bytes × Option Bytes)

abbrev pub at_name : Log → Bytes → Option Bytes
at_name [] n = none
at_name ((m, b) ∷ s) n = if bytes_eq n m then b else at_name s n

abbrev grown : Bytes → Option Bytes → Option Bytes
grown b none = some b
grown b (some old) = some (old ++ b)

abbrev sized : Option Bytes → Option ℕ
sized none = none
sized (some b) = some (length b)

abbrev missing : Option Bytes → Option Bytes
missing none = some (utf8 "no such file")
missing (some b) = none

abbrev all_of : Option Bytes → Option Bytes × Bytes
all_of none = (some (utf8 "no such file"), [])
all_of (some b) = (none, b)

abbrev host : Sftp Log
host = record {
  join = λ d f. d ++ b'/' ∷ f;
  mkdir_all = λ d s. (none, s);
  stat = λ f s. sized (at_name s f);
  create = λ f s. (none, (f, some []) ∷ s);
  write = λ f b s. (none, (f, grown b (at_name s f)) ∷ s);
  close = λ f s. (none, s);
  remove = λ f s. (none, (f, none) ∷ s);
  rename = λ f g s. (none, (g, at_name s f) ∷ (f, none) ∷ s);
  open_file = λ f s. missing (at_name s f);
  read_all = λ f s. all_of (at_name s f);
}

pub other_name : (f n : Bytes) → n ≢ f → bytes_eq n f ≡ false
other_name f n differs = elim (Bool-cases (bytes_eq n f)) [
  | inl equal ↦ elim (differs ((bytes_eq_iff n f).0 equal)) [ ]
  | inr apart ↦ apart
]

own_name : (f : Bytes) → bytes_eq f f ≡ true
own_name f = (bytes_eq_iff f f).1 refl

pub put-other :
    (f : Bytes) (b : Option Bytes) (s : Log) (n : Bytes)
    → n ≢ f
    → at_name ((f, b) ∷ s) n ≡ at_name s n
put-other f b s n differs = rw (other_name f n differs) refl

pub put-own : (f : Bytes) (b : Option Bytes) (s : Log) → at_name ((f, b) ∷ s) f ≡ b
put-own f b s = rw (own_name f) refl

abbrev host_files : Files host
host_files = record {
  content = at_name;
  mkdir_keeps = λ d s n. refl;
  create_keeps = λ f s n differs. put-other f (some []) s n differs;
  create_empty = λ f s ok. put-own f (some []) s;
  write_keeps = λ f b s n differs. put-other f (grown b (at_name s f)) s n differs;
  write_whole = λ f b s empty ok. rw (own_name f, empty) refl;
  close_keeps = λ f s n differs. refl;
  close_whole = λ f s ok. refl;
  remove_keeps = λ f s n differs. put-other f none s n differs;
  rename_keeps = λ f g s n from_f from_g. rw (other_name g n from_g, other_name f n from_f) refl;
  rename_moves = λ f g s ok. put-own g (at_name s f) ((f, none) ∷ s);
  rename_either = λ f g s differs. inr (put-own g (at_name s f) ((f, none) ∷ s));
}

host-IsUp : IsUp host host_files
host-IsUp = record {
  makes = λ d s. refl;
  creates = λ f s. refl;
  writes = λ f b s. refl;
  closes = λ f s. refl;
  renames = λ f g s. refl;
  opens = λ f b s there. ap missing there;
  reads = λ f b s there. ap all_of there;
  stats = λ f s absent. ap sized absent;
}

abbrev wa_media : MediaConfig
wa_media = record { remote_path = utf8 "/m"; public_base_url = utf8 "https://api/wa_media/" }

abbrev types : Types
types = record { lower = λ s. s; extensions = λ m. [] }

-- No hash is worked out here: every file is "ab".
abbrev ab : Bytes → Bytes
ab s = utf8 "ab"

abbrev empty_host : Uploader Log
empty_host = record { ensured_ok = false; server = [] }

abbrev png : Bytes
png = utf8 "/m/ab.png"

not_the_part :
    png
    ≢ part_of
        (host.join wa_media.remote_path (ab (7 ∷ []) ++ pick_extension types (utf8 "image/png") []))
unfolding pick_extension utf8 bytes_eq contains
not_the_part =
    differs_from png
      (part_of (
        host.join wa_media.remote_path (ab (7 ∷ []) ++ pick_extension types (utf8 "image/png") [])))
      refl

upload-IsServed_example :
    IsServed host host_files png
      (7 ∷ [])
      []
      (upload host wa_media types ab (7 ∷ []) (utf8 "image/png") [] empty_host).1.server
      png
unfolding pick_extension utf8 contains
upload-IsServed_example =
    upload-IsServed host host_files wa_media types ab (7 ∷ []) (utf8 "image/png") [] empty_host png
      not_the_part

upload-read_example :
    ((upload host wa_media types ab (7 ∷ []) (utf8 "image/png") [] empty_host).0
      ≡ done (record { url = utf8 "https://api/wa_media/ab.png"; sha = utf8 "ab" }))
    × (read host wa_media
          (utf8 "ab.png")
          (upload host wa_media types ab (7 ∷ []) (utf8 "image/png") [] empty_host).1.server
        ≡ done (7 ∷ []))
unfolding pick_extension public_url trim_slashes utf8 contains
upload-read_example =
    upload-read host host_files host-IsUp wa_media types ab (7 ∷ []) (utf8 "image/png") []
      empty_host refl (inl refl)

-- The addresses that begin with https:// and need no decoding.
abbrev https : Urls
https = record { parse = λ s. some (utf8 "host", from_slash (drop 8 s)); unescape = some }

basename_from_public_url-public_url_example :
    basename_from_public_url https
      (utf8 " https://api/wa_media/")
      (utf8 "https://other/wa_media/ab.png")
    ≡ utf8 "ab.png"
unfolding from_slash trim_space public_url trim_slashes utf8 bytes_eq
basename_from_public_url-public_url_example =
    basename_from_public_url-public_url https (utf8 " https://api/wa_media/")
      (utf8 "https://other/wa_media/ab.png") (utf8 "host") (utf8 "host") (utf8 "/wa_media/")
      (utf8 "ab.png") refl refl refl refl refl refl

thumbnail_size_bounds_example : IsThumbnail (thumbnail_size 4000 3) 4000 3
thumbnail_size_bounds_example = thumbnail_size_bounds 4000 3 (omega arith) (omega arith)

wide_picture : thumbnail_size 4000 3 ≡ (200, 1)
unfolding thumbnail_size
wide_picture = refl
