-- ===== src/Store/Failure.antt =====
-- The errors that the store tells apart, and how it reads the column out of MySQL's "Unknown
-- column" message: IsUnknownColumn, unknownColumnRef, unknownColumnName and columnOwner of
-- internal/store/store.go.
pub mod Column
use enviadores_wabridge.Prelude.{
  ℕ, zero, suc, ◌≡◌, ◌≢◌, ◌↔◌, String, Bool, true, false, ◌&&◌, Option, none, some, List, [], ◌∷◌,
  eqb, if◌then◌else◌, take, drop, arith, refl,
}
use enviadores_wabridge.Text.Utf8.{Bytes, utf8}

pub data Error : Type 0 where
  -- *mysql.MySQLError, with its Number and Message
  mysql : ℕ → Bytes → Error
  -- sql.ErrNoRows, ErrNotAuthor, ErrEditsUnsupported
  no_rows not_author edits_unsupported : Error
  -- fmt.Errorf("unknown status %q", ...)
  unknown_status : String → Error
  -- any other error of the driver, the network or the context
  other : Bytes → Error

pub data Result {ℓ} (A : Type ℓ) : Type ℓ where
  ok : A → Result A
  err : Error → Result A

abbrev pub mysql_err_bad_field : ℕ
mysql_err_bad_field = 1054

unfoldable pub is_unknown_column : Error → Bool
is_unknown_column (mysql number message) = eqb number mysql_err_bad_field
is_unknown_column _ = false

-- strings.IndexByte and strings.LastIndexByte, with none for -1
unfoldable pub index_byte : ℕ → Bytes → Option ℕ
index_byte b [] = none
index_byte b (x ∷ s) =
    let rest = index_byte b s in
    if eqb x b then some 0 else elim rest [ none ↦ none | some i ↦ some (suc i) ]

unfoldable pub last_index_byte : ℕ → Bytes → Option ℕ
last_index_byte b [] = none
last_index_byte b (x ∷ s) = elim (last_index_byte b s) [
  | some i ↦ some (suc i)
  | none ↦ if eqb x b then some 0 else none
]

abbrev pub quote : ℕ
quote = 0x27

-- The column as the statement wrote it: what stands between the first two quotes.
unfoldable pub unknown_column_ref : Error → Bytes
unknown_column_ref (mysql number message) = elim (index_byte quote message) [
  | none ↦ []
  | some i ↦ elim (index_byte quote (drop (suc i) message)) [
    | none ↦ []
    | some j ↦ take j (drop (suc i) message)
  ]
]
unknown_column_ref _ = []

unfoldable pub unknown_column_name : Error → Bytes
unknown_column_name e =
    let col = unknown_column_ref e in
    elim (last_index_byte b'.' col) [ none ↦ col | some k ↦ drop (suc k) col ]

unfoldable pub bytes_eq : Bytes → Bytes → Bool
bytes_eq [] [] = true
bytes_eq (a ∷ s) (b ∷ t) = eqb a b && bytes_eq s t
bytes_eq _ _ = false

pub bytes_eq_iff : (s t : Bytes) → (bytes_eq s t ≡ true) ↔ (s ≡ t)
unfolding bytes_eq
bytes_eq_iff [] [] = (λ h. refl, λ h. refl)
bytes_eq_iff [] (b ∷ t) = (λ h. cc, λ h. cc)
bytes_eq_iff (a ∷ s) [] = (λ h. cc, λ h. cc)
bytes_eq_iff (a ∷ s) (b ∷ t) =
    (λ h. ground (arith, bytes_eq_iff s t), λ h. ground (arith, bytes_eq_iff s t))

pub differs_from : (s t : Bytes) → bytes_eq s t ≡ false → s ≢ t
differs_from s t h same = let equal = (bytes_eq_iff s t).1 same in cc

-- The names of the features that Fallback can switch off.
abbrev pub feature_quotes : String
feature_quotes = "wa_messages.quotes"

abbrev pub feature_edits : String
feature_edits = "wa_messages.edits"

abbrev pub feature_location : String
feature_location = "wa_messages.location"

abbrev pub feature_outbound_location : String
feature_outbound_location = "wa_outbound.location"

abbrev pub feature_heartbeat : String
feature_heartbeat = "wa_pairing.last_seen_at"

abbrev pub feature_bridge_features : String
feature_bridge_features = "wa_pairing.bridge_features"

abbrev pub feature_error_code : String
feature_error_code = "wa_outbound.error_code"

-- The map columnFeature.
unfoldable pub column_feature : Bytes → Option String
column_feature c =
    if bytes_eq c (utf8 "location_name")
    then some feature_location
    else if bytes_eq c (utf8 "location_address")
    then some feature_location
    else if bytes_eq c (utf8 "wa_outbound.location_name")
    then some feature_outbound_location
    else if bytes_eq c (utf8 "wa_outbound.location_address")
    then some feature_outbound_location
    else if bytes_eq c (utf8 "wa_outbound.location_url")
    then some feature_outbound_location
    else none

-- The qualified name as written first, then the bare column.
unfoldable pub column_owner : Error → Option String
column_owner e = elim (column_feature (unknown_column_ref e)) [
  | some owner ↦ some owner
  | none ↦
      if bytes_eq (unknown_column_name e) (unknown_column_ref e)
      then none
      else column_feature (unknown_column_name e)
]
