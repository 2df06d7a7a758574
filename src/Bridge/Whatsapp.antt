-- ===== src/Bridge/Whatsapp.antt =====
-- What the bridge sees of the WhatsApp client, which is a library of its own (go.mau.fi/whatsmeow):
-- JIDs by the fields that the program reads, and the calls by their answers.
use enviadores_wabridge.Prelude.{ℕ, String, Bool, Option, List}
use enviadores_wabridge.Text.Utf8.{Bytes}

-- types.JID: its User and Server, and the text that its String() gives.
pub record Jid : Type 0 where
  pub user : Bytes
  pub server : String
  pub text : String

abbrev pub default_user_server : String
default_user_server = "s.whatsapp.net"

abbrev pub hidden_user_server : String
hidden_user_server = "lid"

abbrev pub group_server : String
group_server = "g.us"

abbrev pub broadcast_server : String
broadcast_server = "broadcast"

abbrev pub bot_server : String
bot_server = "bot"

-- types.IsOnWhatsAppResponse; the verified name where VerifiedName and its Details are set.
pub record OnWhatsapp : Type 0 where
  pub is_in : Bool
  pub jid : Jid
  pub phone_number : Jid
  pub verified_name : Option Bytes

-- whatsmeow.SendResponse
pub record SendResponse : Type 0 where
  pub id : String
  pub timestamp : ℕ

pub data SendResult : Type 0 where
  sent : SendResponse → SendResult
  -- the text of the error; the message may be out all the same
  send_failed : Bytes → SendResult

-- The answers of the client, by the number of the call.
pub record Whatsapp : Type 0 where
  -- isOnWhatsApp: the hits, and the text of the error if there is one
  pub lookup : ℕ → Bytes → List OnWhatsapp × Option Bytes
  pub send : ℕ → Jid → Bytes → String → SendResult
  -- newMessageID
  pub new_id : ℕ → String
  -- lidForPN: the LID that is known for a phone JID
  pub lid_for_pn : Jid → Option Jid
  -- the text of our own JID, empty when not paired
  pub self : String
  -- Contacts.GetContact through contactNameForJID, empty when nothing is known
  pub contact_name : Jid → Bytes
  -- the bridge's clock
  pub now : ℕ → ℕ
