-- ===== src/Bridge.antt =====
-- Package internal/wabridge: the bridge between WhatsApp and the store.
pub mod Whatsapp
pub mod Proto
pub mod Content
pub mod CheckNumber
pub mod Client
pub mod Quote
pub mod Location
pub mod Outbound
pub mod Preview
pub mod NewChat
pub mod Connection
pub mod Inbound
pub mod History
pub mod Events
pub mod Sweeps
