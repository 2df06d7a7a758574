-- ===== src/Bridge/CheckNumber/Lookup.antt =====
-- checkNumber of internal/wabridge/checknumber.go: one lookup of a phone, which sends and stores
-- nothing. How `%q` prints a text, and the Query of a hit, are parameters.
use enviadores_wabridge.Prelude.{
  ℕ, ◌≡◌, refl, String, Bool, true, false, not, ◌&&◌, ◌||◌, Option, none, some, List, [], ◌∷◌, ◌++◌,
  ◌==◌, if◌then◌else◌, arith,
}
use enviadores_wabridge.Text.Utf8.{Bytes, utf8}
use enviadores_wabridge.Store.Exec.{Env}
use enviadores_wabridge.Store.Messages.{is_empty}
use enviadores_wabridge.Bridge.Whatsapp.{Jid, OnWhatsapp, default_user_server, hidden_user_server}
use enviadores_wabridge.Bridge.Client.{Client}
use enviadores_wabridge.Bridge.NewChat.{Bridge, NewChatRow, canonical_chat_jid, text_of}
use enviadores_wabridge.Bridge.NewChat.Tick.{send_to_hit, with_message_id}
use enviadores_wabridge.Bridge.CheckNumber.{normalize_check_phone}

-- CheckNumberResult
pub record CheckNumberResult : Type 0 where
  pub id : Bytes
  pub phone : Bytes
  -- empty where there is none
  pub error : Bytes
  pub is_in : Bool
  pub query : Bytes
  pub jid : String
  pub phone_number : String
  pub verified_name : Bytes
  pub store_jid : String

not_other : (x y : Bool) → (x || y) ≡ true → (not x && not y) ≡ false
not_other x y h = ground arith

module _ (c : Client) (quoted : Bytes → Bytes) (query_of : OnWhatsapp → Bytes) where
  abbrev pub text_unless_empty : Jid → String
  text_unless_empty j = if c.is_empty_jid j then "" else j.text

  -- The wa_chats key that a new chat to the hit would use.
  abbrev pub store_key : OnWhatsapp → String
  store_key hit =
      if hit.is_in && not (is_empty hit.jid.user)
      then (if hit.jid.server == default_user_server
          then canonical_chat_jid c.whatsapp hit.jid
          else hit.jid).text
      else ""

  abbrev pub unanswered : Bytes → Bytes → Bytes → CheckNumberResult
  unanswered id phone error = record {
    id = id;
    phone = phone;
    error = error;
    is_in = false;
    query = [];
    jid = "";
    phone_number = "";
    verified_name = [];
    store_jid = "";
  }

  abbrev pub warning : Option Bytes → Bytes
  warning none = []
  warning (some e) = utf8 "lookup warning: " ++ e

  -- What a lookup answers: its first hit counts.
  abbrev pub first_hit : Bytes → Bytes → List OnWhatsapp × Option Bytes → CheckNumberResult
  first_hit id phone ([], some e) = unanswered id phone (utf8 "lookup: " ++ e)
  first_hit id phone ([], none) = unanswered id phone []
  first_hit id phone (hit ∷ hits, e) = record {
    id = id;
    phone = phone;
    error = warning e;
    is_in = hit.is_in;
    query = query_of hit;
    jid = text_unless_empty hit.jid;
    phone_number = text_unless_empty hit.phone_number;
    verified_name = text_of hit.verified_name;
    store_jid = store_key hit;
  }

  abbrev pub look_up : ℕ → Bool → Bytes → Bytes → Option Bytes → CheckNumberResult
  look_up n connected id raw none = unanswered id raw (
      utf8 "phone "
      ++ (quoted raw ++ utf8 ": want international form, e.g. +525512345678 or +5215512345678"))
  look_up n connected id raw (some phone) =
      if not connected
      then unanswered id raw (utf8 "bridge is not connected to WhatsApp")
      else first_hit id raw (c.whatsapp.lookup n phone)

  -- checkNumber, with the number of its call of the client
  unfoldable pub check_number : ℕ → Bool → Bytes → Bytes → CheckNumberResult
  check_number n connected id raw = look_up n connected id raw (normalize_check_phone raw)

  -- When the lookup of an accepted phone finds an account with a user JID on the phone or the LID
  -- server, checkNumber of a connected bridge reports as store_jid the text of the very JID that a
  -- first message to that hit is sent to.
  pub check_number-store_jid :
      (env : Env) (n : ℕ) (id raw phone : Bytes) (hit : OnWhatsapp) (hits : List OnWhatsapp)
      (e : Option Bytes) (r : NewChatRow) (b : Bridge)
      → normalize_check_phone raw ≡ some phone
      → c.whatsapp.lookup n phone ≡ (hit ∷ hits, e)
      → hit.is_in ≡ true
      → is_empty hit.jid.user ≡ false
      → (hit.jid.server == default_user_server || hit.jid.server == hidden_user_server) ≡ true
      → (target : Jid) × ((check_number n true id raw).store_jid ≡ target.text)
        × (send_to_hit env c.whatsapp r hit b
            ≡ with_message_id env c.whatsapp r hit target r.wa_message_id b)
  unfolding check_number send_to_hit
  check_number-store_jid env n id raw phone hit hits e r b normal answer is_in user server =
      let target : Jid =
        if hit.jid.server == default_user_server
        then canonical_chat_jid c.whatsapp hit.jid
        else hit.jid in
      (
        target,
        rw (normal, answer, is_in, user) refl,
        rw (is_in, user) (rw (not_other _ _ server) refl),
      )
