-- ===== src/Ssh.antt =====
-- pkg/ssh/ssh.go: the authorized keys of the user `rancher`. What `url.Parse` says of a key, and what
-- the network answers, are parameters.
pub mod Passwd
pub mod Keys
pub mod AddKey
pub mod Whole
pub mod Line
