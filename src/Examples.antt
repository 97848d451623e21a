-- ===== src/Examples.antt =====
-- The theorems at concrete inputs, and runs of the code. `Toy` has small stand-ins for the packages
-- that the program imports, which satisfy the laws of their interfaces.
mod Toy
mod Stream
mod Encoding
mod Keys
mod Reading
mod EndToEnd
mod Writing
mod Disk
mod Files
mod Batches
mod Pems
mod CommandLine
mod Readers
