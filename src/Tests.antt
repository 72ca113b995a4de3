-- ===== src/Tests.antt =====
-- Runs of the model at concrete inputs, and each theorem at an input that meets its hypotheses.
mod Pgids
mod Freelist
mod FreelistDisk
mod Node
mod Meta
mod Db
mod Txs
mod Stats
mod Write
mod Nested
mod Trees
mod Cursor
mod Pages
mod Bucket
