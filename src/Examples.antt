-- ===== src/Examples.antt =====
-- Concrete parameters, and the theorems at concrete inputs.
mod Disk
mod Message
mod Codec
mod Locks
mod World
mod SimpleServer
mod Bitmap
mod Stores
mod Transactions
mod Inodes
mod Caches
mod Files
mod Wire
mod Server
mod Threads
