-- ===== src/Util/Atomic.antt =====
-- pkg/util/util.go: the calls of `WriteFileAtomic` that change its file.
use k3os.Base.{ℕ}
use k3os.Base.Text.{Text}
use k3os.Os.Call.{Result, ok, err, Os}

-- A write that reports success counts as one change.
abbrev pub one_if_ok : Result (Unit {0}) → ℕ
one_if_ok (ok u) = 1
one_if_ok (err e) = 0
