-- ===== src/Cliinstall.antt =====
-- pkg/cliinstall: the questions of the installer (ask.go), and what follows them (install.go).
pub mod Asking
pub mod Ask
pub mod Password
pub mod Wifi
pub mod Files
pub mod Install
