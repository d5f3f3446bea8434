-- ===== src/Witnesses.antt =====
-- The theorems at concrete inputs, with the assumptions on the crates met by `Extern`'s instances.
mod Samples
mod Registry
mod Snapshot
mod Projection
mod Zmq
mod Decompress
mod Display
mod Colors
mod Input
mod XmlParser
mod NsApi
mod Exchange
mod Feed
mod System
mod Build
mod Stream
mod Sweep
mod Picture
mod Firmware
mod Persist
