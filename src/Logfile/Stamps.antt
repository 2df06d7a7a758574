-- ===== src/Logfile/Stamps.antt =====
-- The log file without its dates is what was written to it: Write of internal/logfile/logfile.go.
use enviadores_wabridge.Prelude.{
  ℕ, zero, suc, ◌+◌, ◌≡◌, refl, sym, ◌∙◌, ap, Bool, true, false, ◌&&◌, ◌||◌, none, List, [], ◌∷◌,
  ◌++◌, eqb, leb, length, take, if◌then◌else◌, Bool-cases, inl, inr, arith,
}
use mathlib.Core.List.{append_assoc, append-nil}
use enviadores_wabridge.Text.Utf8.{Bytes}
use enviadores_wabridge.Logfile.{
  RotatingFile, Disk, max_size, newline, has_newline, glue, lines, put, stamp_line, put_line,
  write_lines, write,
}

-- The text of a log with the first `k` bytes of each line left out, where `skip` are still to be
-- left out of the first.
unfoldable pub unstamp : ℕ → ℕ → Bytes → Bytes
unstamp k skip [] = []
unstamp k (suc skip) (c ∷ s) = unstamp k skip s
unstamp k zero (c ∷ s) = c ∷ unstamp k (if eqb c newline then k else 0) s

abbrev pub skip_at : ℕ → Bool → ℕ
skip_at k at = if at then k else 0

module _ (stamp : Bytes) where
  -- What the loop appends.
  unfoldable text : Bool → List Bytes → Bytes
  text at [] = []
  text at (l ∷ ls) = (if at then stamp else []) ++ (l ++ text (has_newline l) ls)

  unstamp-stamp : (k : ℕ) (st s : Bytes) → unstamp k (length st) (st ++ s) ≡ unstamp k 0 s
  unfolding unstamp
  unstamp-stamp k [] s = refl
  unstamp-stamp k (c ∷ st) s = unstamp-stamp k st s

  unstamp-start :
      (at : Bool) (s : Bytes)
      → unstamp (length stamp) (skip_at (length stamp) at) ((if at then stamp else []) ++ s)
        ≡ unstamp (length stamp) 0 s
  unstamp-start true s = unstamp-stamp (length stamp) stamp s
  unstamp-start false s = refl

  unstamp-text :
      (p : Bytes) (at : Bool)
      → unstamp (length stamp) (skip_at (length stamp) at) (text at (lines p)) ≡ p
  unfolding text lines unstamp
  unstamp-text [] at = refl
  unstamp-text (c ∷ s) at = elim (Bool-cases (eqb c newline)) [
    | inl e ↦ rw e (
        unstamp-start at (c ∷ text (eqb c newline || false) (lines s))
        ∙ rw e (ap (λ t. c ∷ t) (unstamp-text s true)))
    | inr e ↦ rw e (go e (lines s) (unstamp-text s false))
  ]
    where
      go :
          eqb c newline ≡ false
          → (ls : List Bytes) → unstamp (length stamp) 0 (text false ls) ≡ s
          → unstamp (length stamp) (skip_at (length stamp) at) (text at (glue c ls)) ≡ c ∷ s
      go e [] h = unstamp-start at (c ∷ []) ∙ ap (λ t. c ∷ t) h
      go e (l ∷ ls) h =
          rw e (unstamp-start at (c ∷ (l ++ text (has_newline l) ls)) ∙ rw e (ap (λ t. c ∷ t) h))

take_all : (s : Bytes) → take (length s) s ≡ s
take_all [] = refl
take_all (c ∷ s) = ap (λ t. c ∷ t) (take_all s)

unfoldable total : List Bytes → ℕ
total [] = 0
total (l ∷ ls) = length l + total ls

total-lines : (p : Bytes) → total (lines p) ≡ length p
unfolding total lines
total-lines [] = refl
total-lines (c ∷ s) = elim (Bool-cases (eqb c newline)) [
  | inl e ↦ rw e (omega (arith, total-lines s))
  | inr e ↦ rw e (go (lines s) (total-lines s))
]
  where
    go : (ls : List Bytes) → total ls ≡ length s → total (glue c ls) ≡ suc (length s)
    go [] h = omega (arith, h)
    go (l ∷ ls) h = omega (arith, h)

module _ (disk : Disk) (all_taken : (n : ℕ) → disk.takes n ≡ none) (stamp : Bytes) where
  put-contents :
      (s : Bytes) (rf : RotatingFile)
      → rf.discarding ≡ false
      → ((put disk s rf).1.contents ≡ rf.contents ++ s) × ((put disk s rf).0 ≡ (length s, true))
  unfolding put
  put-contents s rf d = (rw (all_taken rf.calls, d, take_all s) refl, rw (all_taken rf.calls) refl)

  -- What a step may leave: more contents, and still a file that is written to.
  record Wrote (rf rf' : RotatingFile) (s : Bytes) (at : Bool) : Type 0 where
    contents : rf'.contents ≡ rf.contents ++ s
    open_still : rf'.discarding ≡ false
    at_line : rf'.at_line_start ≡ at

  stamp_line-Wrote :
      (rf : RotatingFile)
      → rf.discarding ≡ false
      → Wrote rf (stamp_line disk stamp rf) (if rf.at_line_start then stamp else []) false
  unfolding put
  stamp_line-Wrote rf d = elim (Bool-cases rf.at_line_start) [
    | inl e ↦
        rw e (record { contents = (put-contents stamp rf d).0; open_still = d; at_line = refl })
    | inr e ↦
        rw e (record { contents = sym (append-nil rf.contents); open_still = d; at_line = refl })
  ]

  put_line-Wrote :
      (l : Bytes) (rf : RotatingFile)
      → rf.discarding ≡ false
      → rf.at_line_start ≡ false
      → Wrote rf (put_line disk l rf).1 l (has_newline l)
        × ((put_line disk l rf).0 ≡ (length l, true))
  unfolding put
  put_line-Wrote l rf d a =
      let moved = record rf { at_line_start = has_newline l || rf.at_line_start } in
      let (c, n) = put-contents l moved d in
      (record { contents = c; open_still = d; at_line = ground (arith, a) }, n)

  write_lines-text :
      (ls : List Bytes) (rf : RotatingFile)
      → rf.discarding ≡ false
      → ((write_lines disk stamp ls rf).1.contents ≡ rf.contents ++ text stamp rf.at_line_start ls)
        × ((write_lines disk stamp ls rf).0 ≡ (total ls, true))
  unfolding write_lines text total
  write_lines-text [] rf d = (sym (append-nil rf.contents), refl)
  write_lines-text (l ∷ ls) rf d =
      let s = stamp_line-Wrote rf d in
      let rf1 = stamp_line disk stamp rf in
      let (o, n) = put_line-Wrote l rf1 s.open_still s.at_line in
      let rf2 = (put_line disk l rf1).1 in
      let (c, m) = write_lines-text ls rf2 o.open_still in
      let start = if rf.at_line_start then stamp else [] in
      (
        rw n (
            c
            ∙ (ap (λ x. x ++ text stamp rf2.at_line_start ls)
                  (o.contents ∙ ap (λ x. x ++ l) s.contents)
                ∙ (ap (λ a. ((rf.contents ++ start) ++ l) ++ text stamp a ls) o.at_line
                    ∙ (append_assoc (rf.contents ++ start) l (text stamp (has_newline l) ls)
                        ∙ append_assoc rf.contents start (l ++ text stamp (has_newline l) ls))))),
        rw (n, m) refl,
      )

-- The log file without its stamps is what was written: while the file is open, its disk takes
-- every byte and the Write does not rotate it, Write appends a text which, without the first bytes
-- of each line that the stamp is long, is p, and it answers that it wrote all of p.
pub write-unstamp :
    (disk : Disk) (stamp p : Bytes) (rf : RotatingFile)
    → ((n : ℕ) → disk.takes n ≡ none)
    → rf.discarding ≡ false
    → (leb max_size rf.size && rf.at_line_start) ≡ false
    → (t : Bytes) × ((write disk stamp p rf).1.contents ≡ rf.contents ++ t)
      × (unstamp (length stamp) (skip_at (length stamp) rf.at_line_start) t ≡ p)
      × ((write disk stamp p rf).0 ≡ (length p, true))
unfolding write
write-unstamp disk stamp p rf all d small =
    let (c, n) = write_lines-text disk all stamp (lines p) rf d in
    (
      text stamp rf.at_line_start (lines p),
      rw small c,
      unstamp-text stamp p rf.at_line_start,
      rw (small, n, total-lines p) refl,
    )
