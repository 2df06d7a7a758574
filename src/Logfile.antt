-- ===== src/Logfile.antt =====
-- internal/logfile/logfile.go: the log file that stamps each line with the date and is moved away
-- past 10 MB. What the file system does is a parameter.
pub mod Stamps
use enviadores_wabridge.Prelude.{
  ℕ, suc, ◌+◌, ◌*◌, String, Bool, true, false, not, ◌&&◌, ◌||◌, Option, none, some, List, [], ◌∷◌,
  ◌++◌, eqb, leb, ltb, length, take, if◌then◌else◌, any,
}
use enviadores_wabridge.Text.Utf8.{Bytes}

-- rotatingFile with what is in its file and in the one that was moved away. Once it cannot be opened
-- again, everything that is written is discarded.
pub record RotatingFile : Type 0 where
  pub contents : Bytes
  pub moved : Option Bytes
  pub discarding : Bool
  pub size : ℕ
  pub at_line_start : Bool
  -- calls of the file system so far
  pub calls : ℕ

-- The file system, by the number of the call: how many bytes of a write it takes before an error
-- (none: it takes them all), whether a removal or a rename works and whether the file can be opened.
pub record Disk : Type 0 where
  pub takes : ℕ → Option ℕ
  pub removes : ℕ → Bool
  pub renames : ℕ → Bool
  pub opens : ℕ → Bool

abbrev pub max_size : ℕ
max_size = 10 * 1048576

abbrev pub newline : ℕ
newline = 10

abbrev pub has_newline : Bytes → Bool
has_newline = any (λ c. eqb c newline)

-- p cut after each newline, as the loop of Write takes it.
abbrev pub glue : ℕ → List Bytes → List Bytes
glue c [] = (c ∷ []) ∷ []
glue c (l ∷ ls) = (c ∷ l) ∷ ls

unfoldable pub lines : Bytes → List Bytes
lines [] = []
lines (c ∷ s) = let rest = lines s in if eqb c newline then (c ∷ []) ∷ rest else glue c rest

module _ (disk : Disk) where
  -- f.Write: the bytes taken and whether there was no error.
  abbrev pub taken : Option ℕ → Bytes → ℕ × Bool
  taken none s = (length s, true)
  taken (some n) s = (length (take n s), false)

  unfoldable pub put : Bytes → RotatingFile → (ℕ × Bool) × RotatingFile
  put s rf =
      let r = taken (disk.takes rf.calls) s in
      (
        r,
        record rf {
          contents = if rf.discarding then rf.contents else rf.contents ++ take r.0 s;
          size = rf.size + r.0;
          calls = suc rf.calls;
        },
      )

  -- rotate, with the open that follows
  unfoldable pub rotate : RotatingFile → RotatingFile
  rotate rf =
      let gone = disk.renames (suc rf.calls) in
      let left = if disk.removes rf.calls then none else rf.moved in
      let kept = if gone then [] else rf.contents in
      let away = if gone then some rf.contents else left in
      if disk.opens (rf.calls + 2)
      then record rf {
        contents = kept;
        moved = away;
        discarding = false;
        size = length kept;
        calls = rf.calls + 3;
      }
      else record rf { contents = kept; moved = away; discarding = true; calls = rf.calls + 3 }

  abbrev pub stamp_line : Bytes → RotatingFile → RotatingFile
  stamp_line stamp rf =
      if rf.at_line_start then record (put stamp rf).1 { at_line_start = false } else rf

  abbrev pub put_line : Bytes → RotatingFile → (ℕ × Bool) × RotatingFile
  put_line l rf = put l (record rf { at_line_start = has_newline l || rf.at_line_start })

  -- The loop: the bytes written of p and whether there was no error.
  unfoldable pub write_lines : Bytes → List Bytes → RotatingFile → (ℕ × Bool) × RotatingFile
  write_lines stamp [] rf = ((0, true), rf)
  write_lines stamp (l ∷ ls) rf =
      let one = put_line l (stamp_line stamp rf) in
      let rest = write_lines stamp ls one.1 in
      if one.0.1 then ((one.0.0 + rest.0.0, rest.0.1), rest.1) else ((one.0.0, false), one.1)

  -- Write, at the date that `stamp` is the text of
  unfoldable pub write : Bytes → Bytes → RotatingFile → (ℕ × Bool) × RotatingFile
  write stamp p rf =
      write_lines stamp (lines p)
        (if leb max_size rf.size && rf.at_line_start then rotate rf else rf)
