-- ===== src/Examples.antt =====
-- Concrete inputs for the theorems, and tests of the definitions.
mod Samples
mod RadixTree
mod Arrays
mod Threads
mod Waits
mod Timers
mod Queues
mod Files
mod Parameters
mod Bitmaps
mod Numbers
mod Times
mod Pipes
mod Urbs
mod Anchors
mod Devices
mod Buffers
mod Matches
mod Messages
mod Spaces
mod Strings
mod Kthreads
mod Setups
mod References
mod Streams
