-- ===== src/Util.antt =====
-- pkg/util: helpers on files, contents and passwords.
pub mod Files
pub mod Atomic
pub mod Decode
pub mod Mask
