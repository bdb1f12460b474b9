-- ===== src/Config/Permissions.antt =====
-- `File.Permissions` of pkg/config/config.go.
pub mod Octal
use k3os.Base.{
  ℕ, zero, suc, ◌+◌, ◌-◌, ◌*◌, ◌^◌, ◌≤◌, ◌<◌, ◌≡◌, refl, Option, none, some, List, [], ◌∷◌, ◌++◌,
  Bool, true, false, arith, leb, ltb, if◌then◌else◌,
}
use k3os.Base.Text.{Text, text, is_empty}
use k3os.Base.Number.{ℤ, pos, negsuc, parse_int, digits}
use k3os.Os.Call.{Error, failed, Result, ok, err}

-- `os.FileMode` has 32 bits.
abbrev pub to_file_mode : ℤ → ℕ
to_file_mode (pos n) = n
to_file_mode (negsuc n) = 2 ^ 32 - suc n

abbrev parsed : Text → Option ℤ → Result ℕ
parsed raw none =
    err (failed (text "unable to parse file permissions " ++ (raw ++ text " as integer")))
parsed raw (some i) = ok (to_file_mode i)

-- `func (f *File) Permissions()`, from the field `RawFilePermissions`
unfoldable pub permissions : Text → Result ℕ
unfolding parse_int
permissions [] = ok 0o644
permissions (c ∷ s) = parsed (c ∷ s) (parse_int 8 32 (c ∷ s))
