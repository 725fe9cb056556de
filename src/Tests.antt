-- ===== src/Tests.antt =====
-- The witnesses: each theorem with hypotheses, applied where they hold.
mod SimpleWire
mod Codec
mod Addresses
mod Tables
mod Engines
mod Outputs
mod Threads
mod Noticed
mod Protocol
mod States
mod Crowd
