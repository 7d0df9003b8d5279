-- ===== src/Examples.antt =====
-- The theorems of the development at concrete inputs.
mod Codec
mod Buckets
mod Deltas
mod Storage
mod Hydration
mod Logs
mod Catalog
mod Serving
mod Documents
mod Messages
mod Sync
mod Remote
mod Relay
mod Client
mod Answers
