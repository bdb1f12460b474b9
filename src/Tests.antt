-- ===== src/Tests.antt =====
-- The theorems at concrete inputs, and runs of the program on them.
mod Data
mod NestedMaps
mod Installation
mod Boot
mod Input
mod Values
mod Configuration
mod Installer
mod Commands
