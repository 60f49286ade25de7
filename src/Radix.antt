-- ===== src/Radix.antt =====
-- kernel/linux_radix.c: the radix tree behind every xarray, with what its operations do.
pub mod Tree
pub mod Insert
pub mod Digits
pub mod Shape
pub mod Paths
pub mod Growth
pub mod Preparation
pub mod Insertion
pub mod Storing
pub mod Deletion
pub mod Limit
pub mod Iterate
pub mod Rounding
pub mod Scanning
