-- ===== src/Usb.antt =====
-- The descriptors, pipes and URBs of kernel/linux_usb.c.
pub mod Descriptors
pub mod Pipes
pub mod Extra
pub mod Urbs
pub mod Balance
pub mod Isoc
pub mod IsocBalance
pub mod Callback
pub mod Anchors
pub mod Killing
pub mod Match
pub mod Matching
pub mod Setup
pub mod SetupLaws
