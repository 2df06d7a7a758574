-- ===== src/Bridge/CheckNumber.antt =====
-- internal/wabridge/checknumber.go: the form a phone is looked up in.
pub mod Normal
pub mod Lookup
pub mod Request
use enviadores_wabridge.Prelude.{
  ℕ, ◌∷◌, [], ◌||◌, ◌&&◌, Bool, true, false, Option, none, some, eqb, leb, length, if◌then◌else◌,
}
use enviadores_wabridge.Text.Utf8.{Bytes}
use enviadores_wabridge.Text.Trim.{trim_space}
use enviadores_wabridge.Bridge.NewChat.{all_digits}

-- What the replacer of NormalizeCheckPhone removes.
abbrev pub is_filler : ℕ → Bool
is_filler c = eqb c b' ' || eqb c b'-' || eqb c b'(' || eqb c b')'

unfoldable pub without_fillers : Bytes → Bytes
without_fillers [] = []
without_fillers (c ∷ s) = let rest = without_fillers s in if is_filler c then rest else c ∷ rest

-- strings.HasPrefix(s, "+")
abbrev pub with_plus : Bytes → Bytes
with_plus [] = b'+' ∷ []
with_plus (c ∷ s) = if eqb c b'+' then c ∷ s else b'+' ∷ c ∷ s

-- checkPhoneRE
abbrev pub is_check_phone : Bytes → Bool
is_check_phone [] = false
is_check_phone (c ∷ s) = eqb c b'+' && leb 8 (length s) && leb (length s) 15 && all_digits s

-- none is the error.
unfoldable pub normalize_check_phone : Bytes → Option Bytes
normalize_check_phone raw =
    let s = with_plus (without_fillers (trim_space raw)) in
    if is_check_phone s then some s else none
