-- ===== src/Os.antt =====
-- The operating system that the program runs on. None of it is under the repository, so it is a
-- parameter: an `Os` answers each call from the calls made before it, in any way it likes.
-- A program is an `Io`: it reads the `Os`, adds its calls to the history and returns or fails.
pub mod Call
pub mod Io
pub mod Adds
pub mod Steps
pub mod Accepted
pub mod Total
pub mod Makes
