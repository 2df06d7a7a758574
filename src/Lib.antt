-- ===== src/Lib.antt =====
-- The bridge between WhatsApp and the MySQL tables of the web app: its store, its text cuts and its
-- queue of first messages.
--
-- The program. cmd/wabridge starts internal/wabridge, which listens to a WhatsApp client (the
-- library go.mau.fi/whatsmeow) and works through the queue wa_outbound; both write the tables
-- wa_chats, wa_messages, wa_outbound and wa_pairing through internal/store, over an SSH tunnel, and
-- keep pictures and documents on an SFTP server through internal/media. The web app reads these
-- tables and queues rows.
--
-- The files.
--   Prelude       names of the library, Boolean tests, lists
--   Text          texts as bytes: UTF-8 (Utf8), strings.TrimSpace (Trim), and the cuts of the
--                 program (Cut): clip of internal/store/store.go, truncateRunes and asciiOnly of
--                 internal/wabridge/messages.go, truncate and the cut of markAttempt of
--                 internal/wabridge/wabridge.go, quoteForLog of internal/wabridge/newchat.go
--   Store         internal/store/store.go. Failure: its errors and the column that MySQL names;
--                 Tables: the tables as lists of rows; Exec: statements; Fallback: Fallback and
--                 FeatureOff; Messages: InsertMessage, LocateMessage; Edits: ApplyEdit,
--                 RevokeMessage; Status: MarkMessagesStatus; Reactions: UpsertReaction; Tail:
--                 RecomputeChatTail, GetQuotedRow; Chats: UpsertChat, SetPeerTyping,
--                 ClearAllPeerTyping, UpdateProfilePic, ClearUnreadUpTo; Outbound: FailOutbound,
--                 ClaimNewChatMessageID, MarkNewChatSent, SetOutboundChat, OutboundLocation, and
--                 markAttempt of internal/wabridge/wabridge.go; Typing: DrainTypingOutbound,
--                 FindStaleProfilePics; Invariant: keys
--   Bridge        internal/wabridge. Whatsapp, Client: what is asked of the client and of the host;
--                 Content: the messages sent, with attachQuote; Preview: previewFor, locationLabel
--                 and tailPreview of wabridge.go; Quote: quoteLabel, participantFor and
--                 buildQuoteContext of messages.go; Location: parseCoordinates of sendlocation.go
--                 and coordinates of wabridge.go; NewChat and NewChat/Tick: newchat.go with
--                 storeRetry and canonicalChatJID of wabridge.go; Outbound: outboundRow,
--                 queryPendingOutbound, markOutboundAttempt, markOutboundPermanentlyFailed and
--                 previewForKind of wabridge.go, with Outbound/Build: buildOutboundMessage,
--                 mediaTypeForKind, and buildLocationMessage of sendlocation.go, Outbound/Record:
--                 what sendOutboundRow writes once a message is sent, and Outbound/Send:
--                 processOutboundBatch, sendOutboundRow, lookupQuote, findMessageRow,
--                 sendReactionRow; Inbound: handleReceipt, handleChatPresence, chatAliases,
--                 senderAliases and resolvePNForLID of wabridge.go, isSkippedChat of messages.go;
--                 Inbound/Actions: applyProtocolAction, storeEditAsRow, recomputeTail and
--                 storeReaction of wabridge.go, reactionRecord of messages.go;
--                 Proto: messages as they arrive, with unwrapMessage of messages.go, Proto/Classify:
--                 classifyMessage, classifyProtocol, setProtoFields, pollOptionNames and pollPreview
--                 of wabridge.go, Proto/Reply: contextInfoOf, quoteFromContext and quotedPreview,
--                 Proto/Action: resolveAction, editAction and reactionOf of messages.go;
--                 Inbound/Media: the download of handleMessage, locationFields,
--                 uploadLocationPreview, deriveInboundThumbnail, resolveDisplayName,
--                 resolveDisplayNameForJID, resolvePhone and fetchProfilePicURL; Inbound/Live:
--                 handleMessage; History: handleHistorySync; Events: handleEvent, runQRLoop and
--                 WatchResetRequests; Connection: WatchConnection, all of wabridge.go; CheckNumber:
--                 NormalizeCheckPhone of checknumber.go, CheckNumber/Lookup: its checkNumber,
--                 CheckNumber/Request: RequestCheckNumber, answerCheckRequest, WatchCheckRequests and
--                 writeFileAtomic; Sweeps: WatchTypingOutbound, flushTypingOutbound, WatchProfilePics
--                 and refreshStaleProfilePics of wabridge.go. The other files below these are proofs.
--   Pairing       internal/pairing/pairing.go, and Heartbeat of internal/store/store.go; Reason and
--                 Reset are its proofs
--   Command       supervise of cmd/wabridge/main.go
--   Config        ExpandHome, Load and resolveStorePath of internal/config/config.go; StorePath is its
--                 proof
--   Logfile       Write and rotate of internal/logfile/logfile.go; Stamps is its proof
--   Media         internal/media: pickExtension, publicURL, publicBasePath and BasenameFromPublicURL of
--                 media.go, Upload: ensureRemoteDir, Upload, UploadThumbnail and Read, Size: the sizes
--                 of MakeImageThumbnail of thumbnail.go; the other files below it are proofs
--   Tests         concrete runs
--
-- State. A store method is a function from a World (the tables, the map Store.off, the features
-- logged, the number of statements run) to its answer and the next World. A row is a record, NULL is
-- none, and an UPDATE is update_where over the list of rows. The server is a parameter: each
-- statement is done, is refused and does nothing, or takes effect and its answer is lost, which is
-- an error as well. A Bridge is the World, newChatState, what was handed to WhatsApp so far and the
-- number of calls of the client, whose answers are indexed by that number and arbitrary. An Outbox
-- is a Bridge and what its outbound queue handed to WhatsApp; the file host, the upload, the picture
-- and PDF tools and floating-point numbers are parameters in the same way. The transactions of
-- ConsumeResetRequest and DrainTypingOutbound change the tables at their COMMIT, as one statement.
-- The SFTP server of the uploader is a state of any type with its calls, of which Files says what they
-- do to a file; the parts of net/url, path/filepath and the YAML parser that are used are parameters.
-- The directory of the number checks and its JSON are parameters in the same way (Folder, Works).
-- The queue and the live messages use the uploader through what a Host answers.
--
-- A message of WhatsApp is the list of its fields that are set, each by the name of its getter and
-- with what the program reads of it; what is asked of others while one event is handled comes with
-- the event.
--
-- Bounds. No definition runs on fuel but unwrapMessage, whose eight rounds are its own: loops are
-- over lists, bytes or the three waits of storeRetry; the loops that never end, of supervise and of
-- the watches, are over lists of what their rounds see. Texts are unbounded byte lists and numbers
-- are unbounded: attempts, ids and sizes do not reach the limits of their columns in what is
-- stated. Times are in seconds, and in nanoseconds for supervise; the waits of storeRetry and
-- time-outs take no time here, and a time-out is an error like any other.
--
-- Not modelled. Collations (texts are compared exactly, where utf8mb4_general_ci ignores case and
-- accents) and the limits of columns; the mutex of Store, since a method runs to its end; changes
-- by the web app inside a method, which come between ticks instead; log lines but for the first of
-- a feature. A process that stops inside a tick is one whose remaining statements are refused,
-- followed by a restart. The names of the address book (contactNameForJID) are those of the client.
-- Events are handled one after another, where the program runs a history sync beside the live ones.
-- The codecs and the PDF tools of internal/media, the setup of internal/logfile, internal/tunnel
-- and the rest of cmd/wabridge are not part of this.
pub mod Prelude
pub mod Text
pub mod Store
pub mod Bridge
pub mod Pairing
pub mod Command
pub mod Config
pub mod Logfile
pub mod Media
mod Tests
