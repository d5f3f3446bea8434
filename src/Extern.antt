-- ===== src/Extern.antt =====
-- What the firmware takes from crates, as records of operations with their documented laws.
pub mod Heapless
pub mod Clock
pub mod Sorting
pub mod Floats
pub mod Socket
pub mod Trickle
pub mod Inflate
pub mod Gateway
pub mod FlashMap
pub mod FlashCells
pub mod Stored
pub mod AssocMap
pub mod InsertionSort
pub mod FixedPoint
