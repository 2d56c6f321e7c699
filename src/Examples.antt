-- ===== src/Examples.antt =====
-- The theorems at concrete inputs, and small runs of the definitions.
mod Worlds
mod Streams
mod Libraries
mod Forms
mod Requests
mod Tokens
mod Permissions
mod Sharing
mod Reads
mod Replicas
mod Providers
mod Mappings
