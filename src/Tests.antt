-- ===== src/Tests.antt =====
-- Runs of the theorems at concrete inputs.
mod Client
mod Codecs
mod Plus
mod Server
mod Tags
mod Partner
mod Pool
mod Queries
mod Blocks
mod Gateway
