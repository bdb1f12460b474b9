-- ===== src/Enterchroot/Image.antt =====
-- `inFile` of pkg/enterchroot/enter.go: the image starts after a magic text in the program's own
-- file, which is read in chunks. Start opens and closes the file.
pub mod Sound
pub mod Complete
use k3os.Base.{
  ℕ, zero, suc, ◌+◌, ◌%◌, ◌^◌, Option, none, some, List, [], ◌∷◌, ◌++◌, Bool, true, false, ◌&&◌,
  ◌==◌, length, get_elem?, if◌then◌else◌,
}
use k3os.Base.Text.{Text, text, to_lower}

abbrev pub magic : Text
magic = text "_SQMAGIC_"

-- `uint64`
abbrev pub u64 : ℕ
u64 = 2 ^ 64

-- Where the loop over a chunk ends: the bytes matched so far with the offset, or the offset after
-- the magic text. `bad_index` is the panic of `test[found]` out of range.
pub data Scan : Type 0 where
  more : ℕ → ℕ → Scan
  hit : ℕ → Scan
  bad_index : Scan

module _ (test : Text) where
  -- `for _, b := range buf[:n]`
  unfoldable pub scan : ℕ → ℕ → Text → Scan
  scan found offset [] = more found offset
  scan found offset (b ∷ bytes) = elim (get_elem? test found) [
    | none ↦ bad_index
    | some t ↦
        let rest = scan (if b == t then suc found else 0) ((offset + 1) % u64) bytes in
        if b == t && suc found == length test then hit ((offset + 1) % u64) else rest
  ]

-- What one `f.Read(buf)` returns before the end of the file.
pub data FileRead : Type 0 where
  chunk : Text → FileRead
  read_error : FileRead

pub data Image : Type 0 where
  image_at : ℕ → Image
  not_found : Image
  read_failed : Image
  panicked : Image

module _ (test : Text) where
  unfoldable pub scan_file : ℕ → ℕ → List FileRead → Image
  unfolding scan
  scan_file found offset [] = not_found
  scan_file found offset (read_error ∷ reads) = read_failed
  scan_file found offset (chunk bytes ∷ reads) = elim (scan test found offset bytes) [
    | more found' offset' ↦ scan_file found' offset' reads
    | hit start ↦ image_at start
    | bad_index ↦ panicked
  ]

-- `inFile`
unfoldable pub in_file : List FileRead → Image
unfolding scan_file to_lower
in_file reads = scan_file (to_lower magic) 0 0 reads
