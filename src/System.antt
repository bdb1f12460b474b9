-- ===== src/System.antt =====
-- pkg/system: where k3OS keeps its files (system.go), and the installation of a component's
-- version under its root (component.go).
pub mod Roots
pub mod Component
pub mod Installed
pub mod Switch
pub mod Upgrading
