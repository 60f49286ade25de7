-- ===== src/Xarray.antt =====
-- kernel/linux_xarray.c and kernel/linux_xarray.h: extensible arrays on top of the radix tree.
pub mod Calls
pub mod Laws
pub mod Allocation
pub mod Walks
