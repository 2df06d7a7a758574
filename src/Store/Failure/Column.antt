-- ===== src/Store/Failure/Column.antt =====
-- The column is read back out of the message that MySQL writes about it.
use enviadores_wabridge.Prelude.{
  ℕ, suc, ◌≡◌, ◌≢◌, refl, none, some, [], ◌∷◌, ◌++◌, take, drop, arith, length, All, ap,
}
use enviadores_wabridge.Text.Utf8.{Bytes}
use enviadores_wabridge.Store.Failure.{
  mysql, quote, index_byte, last_index_byte, unknown_column_ref, unknown_column_name,
}

-- No byte of the text is `b`.
abbrev pub Avoids : ℕ → Bytes → Type 0
Avoids b = All (λ x. x ≢ b)

index_byte-append : (b : ℕ) (s t : Bytes) → Avoids b s → index_byte b (s ++ b ∷ t) ≡ some (length s)
unfolding index_byte
index_byte-append b [] t h = ground arith
index_byte-append b (x ∷ s) t h = ground (arith, index_byte-append b s t h.1)

last_index_byte-none : (b : ℕ) (s : Bytes) → Avoids b s → last_index_byte b s ≡ none
unfolding last_index_byte
last_index_byte-none b [] h = refl
last_index_byte-none b (x ∷ s) h = ground (arith, last_index_byte-none b s h.1)

last_index_byte-append :
    (b : ℕ) (s t : Bytes) → Avoids b t → last_index_byte b (s ++ b ∷ t) ≡ some (length s)
unfolding last_index_byte
last_index_byte-append b [] t h = ground (arith, last_index_byte-none b t h)
last_index_byte-append b (x ∷ s) t h = ground (arith, last_index_byte-append b s t h)

drop-append : (b : ℕ) (s t : Bytes) → drop (suc (length s)) (s ++ b ∷ t) ≡ t
drop-append b [] t = refl
drop-append b (x ∷ s) t = drop-append b s t

take-append : (s t : Bytes) → take (length s) (s ++ t) ≡ s
take-append [] t = refl
take-append (x ∷ s) t = ap (λ r. x ∷ r) (take-append s t)

-- MySQL's message about `col`: any text, the quoted column, any text.
abbrev pub message_about : Bytes → Bytes → Bytes → Bytes
message_about before col after = before ++ quote ∷ (col ++ quote ∷ after)

module _ (number : ℕ) (before col after : Bytes) (b : Avoids quote before)
    (c : Avoids quote col) where
  pub unknown_column_ref-message :
      unknown_column_ref (mysql number (message_about before col after)) ≡ col
  unfolding unknown_column_ref
  unknown_column_ref-message = ground (
    arith,
    index_byte-append quote before (col ++ quote ∷ after) b,
    drop-append quote before (col ++ quote ∷ after),
    index_byte-append quote col after c,
    take-append col (quote ∷ after),
  )

-- Of MySQL's message about a qualified column (a text with no quote, the quoted column, any text),
-- unknownColumnRef returns the quoted column, qualifier included, and unknownColumnName the part
-- behind the last dot.
pub unknown_column-message :
    (number : ℕ) (before qualifier col after : Bytes)
    → Avoids quote before
    → Avoids quote (qualifier ++ b'.' ∷ col)
    → Avoids b'.' col
    → let e = mysql number (message_about before (qualifier ++ b'.' ∷ col) after) in
      (unknown_column_ref e ≡ qualifier ++ b'.' ∷ col) × (unknown_column_name e ≡ col)
unfolding unknown_column_name
unknown_column-message number before qualifier col after b c d =
    let whole = unknown_column_ref-message number before (qualifier ++ b'.' ∷ col) after b c in
    let dot = last_index_byte-append b'.' qualifier col d in
    (whole, ground (arith, whole, dot, drop-append b'.' qualifier col))
