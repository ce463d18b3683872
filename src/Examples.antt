-- ===== src/Examples.antt =====
-- Concrete inputs at which the theorems apply, and tests of the definitions.
mod Apply
mod Chunking
mod CopyCodec
mod Extract
mod Ledger
mod Loader
mod Mcp
mod Plan
mod PosFile
mod Replicat
mod Replicating
mod Sample
mod Trail
mod Wire
