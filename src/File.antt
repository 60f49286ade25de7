-- ===== src/File.antt =====
-- kernel/linux_file.c: the file operations that the character devices of webcamd call.
pub mod Mapping
pub mod Regions
pub mod Pages
pub mod Dispatch
pub mod Answers
