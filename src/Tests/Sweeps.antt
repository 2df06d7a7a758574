-- ===== src/Tests/Sweeps.antt =====
-- Concrete runs of the sweeps and of a number check through its files.
use enviadores_wabridge.Prelude.{
  ◌≡◌, refl, false, none, some, [], ◌∷◌, ◌++◌, eqb, if◌then◌else◌, inr,
}
use enviadores_wabridge.Text.Utf8.{Bytes, utf8}
use enviadores_wabridge.Text.Trim.{trim_space}
use enviadores_wabridge.Bridge.Whatsapp.{OnWhatsapp}
use enviadores_wabridge.Bridge.NewChat.{all_digits}
use enviadores_wabridge.Bridge.CheckNumber.{normalize_check_phone, without_fillers}
use enviadores_wabridge.Bridge.CheckNumber.Lookup.{check_number}
use enviadores_wabridge.Bridge.CheckNumber.Request.{
  Folder, Json, answered, answer_check_request, request_check_number,
}
use enviadores_wabridge.Bridge.CheckNumber.Request.Answered.{
  Works, Reads, unchanged, to_check, request_check_number-check_number,
}
use enviadores_wabridge.Bridge.Sweeps.{Sweep, flush_typing_outbound, refresh_stale_profile_pics}
use enviadores_wabridge.Bridge.Sweeps.Once.{Apart, flush_typing_outbound-Apart}
use enviadores_wabridge.Bridge.Sweeps.Pictures.{
  PicturesOnly, swept_jids, refresh_stale_profile_pics-PicturesOnly,
}
use enviadores_wabridge.Tests.{start, calm}
use enviadores_wabridge.Tests.Queue.{one_person}
use enviadores_wabridge.Tests.Process.{typing_world, typed, looked_up}
use enviadores_wabridge.Tests.Media.{Log, at_name, other_name, put-other, put-own}

flush_typing_outbound-Apart_example :
    Apart
      (flush_typing_outbound calm one_person typing_world).0
      (flush_typing_outbound calm one_person
        (flush_typing_outbound calm one_person typing_world).1).0
flush_typing_outbound-Apart_example =
    flush_typing_outbound-Apart calm calm one_person one_person typing_world

abbrev one_picture : Sweep
one_picture = record {
  picture = λ n j. some (utf8 "https://pic");
  ended_before = λ n. false;
  ended_after = λ n. false;
}

refresh_stale_profile_pics-PicturesOnly_example :
    PicturesOnly
      (swept_jids calm 0 30 start)
      start.db
      (refresh_stale_profile_pics calm one_person one_picture 0 30 start).db
refresh_stale_profile_pics-PicturesOnly_example =
    refresh_stale_profile_pics-PicturesOnly calm one_person one_picture 0 30 start

abbrev folder : Folder Log
folder = record {
  read_file = λ n s. at_name s n;
  remove = λ n s. (n, none) ∷ s;
  write_file = λ n b s. (none, (n, some b) ∷ s);
  rename = λ n m s. (none, (m, at_name s n) ∷ (n, none) ∷ s);
}

folder-Works : Works folder
folder-Works = record {
  remove_own = λ n s. put-own n none s;
  remove_keeps = λ n m s differs. put-other n none s m differs;
  writes = λ n b s. refl;
  write_own = λ n b s. put-own n (some b) s;
  write_keeps = λ n b m s differs. put-other n (some b) s m differs;
  renames = λ n m s. refl;
  rename_own = λ n m s. put-own m (at_name s n) ((n, none) ∷ s);
  rename_keeps = λ n m k s from_n from_m. rw (other_name m k from_m, other_name n k from_n) refl;
}

-- Fields with a zero byte between them.
abbrev split : Bytes → Bytes × Bytes
split [] = ([], [])
split (c ∷ s) = let rest = split s in if eqb c 0 then ([], s) else (c ∷ rest.0, rest.1)

-- Of an answer, the fields that one without a hit has.
abbrev fields : Json
fields = record {
  of_request = λ r. r.id ++ 0 ∷ r.phone;
  of_result = λ r. r.id ++ 0 ∷ r.phone ++ 0 ∷ r.error;
  to_request = λ b. inr (record { id = (split b).0; phone = (split b).1 });
  to_result = λ b. inr (record {
    id = (split b).0;
    phone = (split (split b).1).0;
    error = (split (split b).1).1;
    is_in = false;
    query = [];
    jid = "";
    phone_number = "";
    verified_name = [];
    store_jid = "";
  });
}

abbrev no_query : OnWhatsapp → Bytes
no_query h = []

abbrev plain : Bytes → Bytes
plain s = s

fields-Reads :
    Reads fields
      (record { id = utf8 "n1"; phone = looked_up })
      (check_number one_person plain no_query 0 false (utf8 "n1") looked_up)
unfolding utf8 check_number normalize_check_phone trim_space without_fillers all_digits
fields-Reads = record { request = refl; result = refl }

request_check_number-check_number_example :
    (request_check_number folder fields
      (utf8 "n1")
      typed
      (unchanged 2
        (answer_check_request folder fields (to_check one_person plain no_query 0 false) ∷ []))
      []).0
    ≡ answered (check_number one_person plain no_query 0 false (utf8 "n1") looked_up)
unfolding normalize_check_phone trim_space without_fillers all_digits
request_check_number-check_number_example =
    request_check_number-check_number folder folder-Works fields one_person plain no_query 0 false
      (utf8 "n1") typed looked_up 2 [] [] refl fields-Reads
