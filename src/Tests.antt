-- ===== src/Tests.antt =====
-- Examples: a JSON library for the development to run on, and each theorem at a concrete input.
mod Json
mod Decoders
mod Items
mod Turns
mod Requests
mod Threads
mod Servers
mod Options
mod Chats
