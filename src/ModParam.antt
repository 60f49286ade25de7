-- ===== src/ModParam.antt =====
-- kernel/linux_mod_param.c: the module parameters of the drivers.
pub mod Params
pub mod Reading
pub mod Values
