-- ===== src/Lib.antt =====
-- k3OS is an operating system for k3s clusters. This library models its program, the Go code of
-- main.go's packages under pkg/, and proves what makes its parts correct.
--
-- The program and the operating system. Nearly all of the program is calls of the operating
-- system, each with a check of its error. The operating system is not part of the repository, so
-- it is a parameter: an `Os` (Os/Call) answers each call from the calls before it, in any way it
-- likes. A function of the program is an `Io` (Os/Io): it takes an `Os` and the history of calls,
-- the latest first, and gives a result or an error and the new history. `◌>>=◌` is the early
-- return on an error, `attempt` hands an error on as a value, `defer` runs a clean-up last.
-- `Adds` (Os/Adds) says which calls a program can make at all, by one rule for each way to build
-- a program; Os/Steps goes through a program step by step, and `Accepted` (Os/Accepted) says
-- which calls were accepted in which order. Messages to the log and to the terminal are left out.
-- A Go map is the list of its entries in the order in which a range over it visits them, and a
-- string is the list of its code points (Base/Text); path names are those of path/filepath
-- (Base/FilePath), numbers in text those of strconv (Base/Number).
--
-- The parts. `main` of main.go (Entry) runs what is registered for the program's name, and
-- otherwise the application (Cli/App: pkg/cli/app/app.go) with its four sub-commands; Cli/Spec
-- has their names and flags. The boot starts with `initrd` of main.go (Entry), which moves the
-- root out of memory (Transferroot: pkg/transferroot/transferroot.go) and mounts the real root
-- (Enterchroot: pkg/enterchroot/enter.go and ensureloop.go; Image is inFile, Start is Mount and
-- findRoot, Root is run and Enter, Loop is ensureloop). There `rc` runs first (Rc:
-- pkg/cli/rc/rc.go). Later the command `config` (Cli: pkg/cli/config/config.go) reads the
-- configuration and applies it in a phase (Cc/Apply: pkg/cc/apply.go), each phase a list of
-- appliers (Cc/K3s, Cc/Connman, Cc/Environment: pkg/cc/funcs.go) that use the smaller packages:
-- Mode (pkg/mode/mode.go), Command (pkg/command/command.go), Hostname (pkg/hostname/hostname.go),
-- Sysctl (pkg/sysctl/sysctl.go), Module (pkg/module/module.go), WriteFile
-- (pkg/writefile/writefile.go), Ssh (pkg/ssh/ssh.go) and Util (pkg/util: Files is util.go, Decode
-- is decode.go, Mask is prompt.go). Upgrade (pkg/cli/upgrade/upgrade.go) takes a lock and
-- installs the components asked for by System (pkg/system: Roots is system.go, Component is
-- component.go).
--
-- The configuration. Config has the types and the file permissions (pkg/config/config.go). The
-- sources are read as maps (Config/Value); Config/Read is read.go with the merge, Config/Cmdline
-- its readCmdline, Config/UserData the user data of read_cc.go, Config/Coerce and Config/Rename
-- are coerce.go and rename.go, which Config/Schema puts in order, and Config/Env is ToEnv and
-- write.go.
--
-- The installer. Questions (pkg/questions/questions.go) reads answers. The installer (Cliinstall:
-- pkg/cliinstall and, in Cli/Installing, pkg/cli/install) asks on a terminal: an `Asking`
-- (Cliinstall/Asking) is an `Io` that also takes the lines and the keys that are typed and hands
-- on those that are left. Cliinstall/Ask, Password and Wifi are the questions of ask.go, Install
-- is Ask, AskInstall and install.go, and Files is what install.go does after the questions.
--
-- Names. A definition has the name of its Go function in snake case, as copy_component for
-- CopyComponent, or is named in the comment above it: read_entries is readFile, run_installation
-- is Run of install.go and main_config is Main of config.go; mount_root is Mount and run_root is
-- run of enter.go; mount_at, make_char, make_link, make_dir, read_names and glob_names are mount,
-- mkchar, symlink, mkdir, readdir and glob of rc.go; run_upgrade is Run of upgrade.go. A function
-- whose middle has a part of its own is split at it: CopyComponent into install_version,
-- move_aside and place_version, Run into open_lock, upgrade_all and finish.
--
-- Bounds. The offset of the image is a uint64 and counts modulo 2 ^ 64; a file mode has 32 bits.
-- The question loops have fuel of one more than the lines left to read, which is enough, since
-- each round reads a line. The password loop has its own bound of 513 rounds, the request for a
-- key one of 10 attempts, the loop devices one of 7. How far the goroutine of enter.go comes,
-- which sets the loop device to detach itself, is a parameter with the three places where it can
-- stand. The installer's loop for a password has fuel of one more than the keys left to read and
-- its loop for networks one more than the lines left, which is enough, since each round reads
-- one; the other loops are by structural recursion.
--
-- Parameters. url.Parse, strconv.Quote and Unquote, the decoders of base64 and gzip, the csv
-- reader, unix.Mkdev, reexec.Init, the routing of arguments by cli, the encoder of JSON and
-- filepath.Walk stand for the packages that the program imports. A Mapper (Config/Mapper) stands
-- for what pkg/config uses of the packages mapper, yaml, base64, regexp and fmt; what a theorem
-- needs of it is a law among its hypotheses.
--
-- Not modelled: lines of more than 64 KiB, at which a bufio.Scanner stops; that a range over a
-- map may visit keys that the loop adds (rename.go); that each question has a buffered reader of
-- its own, which drops what a pipe sends at once; the random order in which Go visits a map, in
-- place of which there is the order of a list; what reexec.Init and the cli package do with the
-- arguments, which are the parameters of Entry and Cli/App, with the help texts, the printing of
-- the version and the log level; the echo and the raw mode of the terminal; what a goroutine does
-- after the process that started it has gone on to end; the vendored packages, and the scripts
-- and images, which are not part of the program or not Go.
pub mod Base
pub mod Os
pub mod System
pub mod Upgrade
pub mod Config
pub mod Mode
pub mod Command
pub mod Hostname
pub mod Util
pub mod Questions
pub mod Enterchroot
pub mod Sysctl
pub mod Module
pub mod WriteFile
pub mod Ssh
pub mod Cc
pub mod Rc
pub mod Transferroot
pub mod Cli
pub mod Cliinstall
pub mod Entry
pub mod Tests
