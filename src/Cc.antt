-- ===== src/Cc.antt =====
-- pkg/cc: the configuration applied to the system, in the phases of the boot.
pub mod K3s
pub mod Connman
pub mod Environment
pub mod Apply
