-- ===== src/Tests.antt =====
-- The theorems at concrete inputs, and runs of the model.
mod Data
mod Storage
mod Epoch
mod Server
mod Threads
mod Totals
mod Wire
mod Blocks
mod Contract
mod Epochs
mod Comm
mod Random
mod Config
mod Locks
mod Mock
mod KeyFiles
