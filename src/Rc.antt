-- ===== src/Rc.antt =====
-- pkg/cli/rc/rc.go: the first commands of a boot. The messages to the log are left out, and with
-- them every error of a call: none of them stops the boot.
pub mod Calls
pub mod Mounts
pub mod Run
pub mod Makes
pub mod Boot
