-- ===== src/Examples.antt =====
-- The properties at concrete inputs, and runs of the model.
mod Values
mod Wire
mod Handshakes
mod Resources
mod Older
mod Requests
mod QuicServer
mod Transport
mod Packets
mod Crypto
mod Stores
mod Tokens
mod AccessTokens
