-- ===== src/Bridge/Proto/Action.antt =====
-- What a message asks for other than to be stored: resolveAction, editAction and reactionOf of
-- internal/wabridge/messages.go.
use enviadores_wabridge.Prelude.{String, Option, none, some, ◌++◌, ◌==◌, if◌then◌else◌}
use enviadores_wabridge.Text.Utf8.{Bytes, utf8}
use enviadores_wabridge.Text.Cut.{ascii_only}
use enviadores_wabridge.Bridge.Client.{Answer, given, failure}
use enviadores_wabridge.Bridge.Proto.{
  Proto, Field, Inner, absent, holds, protocol, secret_encrypted, reaction, enc_reaction, get,
  unwrap_message,
}

-- protoAction: actionNone, actionEdit, actionRevoke and actionDrop
pub data Resolved : Type 0 where
  none_asked : Resolved
  edits : String → Proto → Resolved
  revokes : String → Resolved
  drops : Bytes → Resolved

-- editAction
unfoldable pub edit_action : String → Inner → Resolved
edit_action target absent = drops (utf8 "edit without target or content")
edit_action target (holds m) =
    if target == "" then drops (utf8 "edit without target or content") else edits target m

abbrev pub unwrap_inner : Inner → Inner
unwrap_inner absent = absent
unwrap_inner (holds m) = holds (unwrap_message m)

abbrev pub protocol_of : Inner → Option Field
protocol_of absent = none
protocol_of (holds m) = get "ProtocolMessage" m

-- The case of a ProtocolMessage.
abbrev pub protocol_action : String → String → Inner → Resolved
protocol_action kind id edited =
    if kind == "MESSAGE_EDIT"
    then edit_action id edited
    else if kind == "REVOKE"
    then (if id == "" then none_asked else revokes id)
    else none_asked

-- The decrypted content of an edit, unwrapped; its own key first.
abbrev pub plain_action : String → Inner → Option Field → Resolved
plain_action target content (some (protocol kind id edited)) =
    if kind == "MESSAGE_EDIT"
    then edit_action (if id == "" then target else id) edited
    else edit_action target content
plain_action target content _ = edit_action target content

abbrev pub decrypted_action : String → Option (Answer Inner) → Resolved
decrypted_action target none = drops (utf8 "no decryptor")
decrypted_action target (some (failure e)) = drops (utf8 "edit not decrypted: " ++ ascii_only e)
decrypted_action target (some (given content)) =
    let inner = unwrap_inner content in plain_action target inner (protocol_of inner)

abbrev pub secret_action : Option Field → Option (Answer Inner) → Resolved
secret_action (some (secret_encrypted is_edit kind target)) decrypt =
    if is_edit then decrypted_action target decrypt else drops (utf8 "secret message type " ++ kind)
secret_action _ decrypt = none_asked

abbrev pub message_action : Option Field → Option Field → Option (Answer Inner) → Resolved
message_action (some (protocol kind id edited)) enc decrypt = protocol_action kind id edited
message_action _ enc decrypt = secret_action enc decrypt

-- resolveAction, with what the decryptor answers where there is one
unfoldable pub resolve_action : Proto → Option (Answer Inner) → Resolved
resolve_action m decrypt =
    let inner = unwrap_message m in
    message_action (get "ProtocolMessage" inner) (get "SecretEncryptedMessage" inner) decrypt

-- What reactionOf returns: no reaction, the target and the emoji, or one that cannot be read, which
-- is an error or nil.
pub data ReactionFound : Type 0 where
  no_reaction : ReactionFound
  reacted : String → Bytes → ReactionFound
  unreadable : ReactionFound

-- The decrypted reaction, none where it is nil; a key without an id gives way to the envelope's.
abbrev pub opened : String → Option (Answer (Option (String × Bytes))) → ReactionFound
opened target none = unreadable
opened target (some (failure e)) = unreadable
opened target (some (given none)) = unreadable
opened target (some (given (some (id, emoji)))) = reacted (if id == "" then target else id) emoji

abbrev pub enveloped : Option Field → Option (Answer (Option (String × Bytes))) → ReactionFound
enveloped (some (enc_reaction target)) decrypt = opened target decrypt
enveloped _ decrypt = no_reaction

abbrev pub reaction_in :
    Option Field → Option Field → Option (Answer (Option (String × Bytes))) → ReactionFound
reaction_in (some (reaction target emoji)) enc decrypt = reacted target emoji
reaction_in _ enc decrypt = enveloped enc decrypt

-- reactionOf
unfoldable pub reaction_of : Proto → Option (Answer (Option (String × Bytes))) → ReactionFound
reaction_of m decrypt =
    let inner = unwrap_message m in
    reaction_in (get "ReactionMessage" inner) (get "EncReactionMessage" inner) decrypt
