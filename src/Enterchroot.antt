-- ===== src/Enterchroot.antt =====
-- pkg/enterchroot: finding the image of the root file system, and entering it.
pub mod Image
pub mod Loop
pub mod Start
pub mod Root
