-- ===== src/Base/FilePath.antt =====
-- `filepath.Clean`, `Join`, `Split`, `Base` and `Dir` on Unix.
use Prim.Native.Nat.{ℕ}
use mathlib.Core.Path.{◌≡◌, refl}
use mathlib.Core.Bool.{Bool, false, ◌&&◌, ◌||◌}
use mathlib.Core.List.{List, [], ◌∷◌, ◌++◌}
use native.Mathlib.Omega.{arith}
use k3os.Base.Tests.{◌==◌, if◌then◌else◌}
use k3os.Base.Text.{Text, text, ◌=ᵗ◌, is_empty, split, join, drop_empty}

abbrev pub slash : ℕ
slash = b'/'

abbrev pub is_rooted : Text → Bool
is_rooted [] = false
is_rooted (c ∷ s) = c == slash

-- `out` holds the components kept, the last one first.
abbrev step_up : Bool → List Text → List Text
step_up rooted [] = if rooted then [] else text ".." ∷ []
step_up rooted (last ∷ out) = if last =ᵗ text ".." then text ".." ∷ last ∷ out else out

clean_into : Bool → List Text → List Text → List Text
unfolding ◌=ᵗ◌
clean_into rooted out [] = out
clean_into rooted out (piece ∷ pieces) =
    clean_into rooted
      (if is_empty piece || piece =ᵗ text "."
        then out
        else if piece =ᵗ text ".."
        then step_up rooted out
        else piece ∷ out)
      pieces

abbrev dot_if_empty : Text → Text
dot_if_empty [] = text "."
dot_if_empty (c ∷ s) = c ∷ s

abbrev onto : List Text → List Text → List Text
onto [] acc = acc
onto (x ∷ xs) acc = onto xs (x ∷ acc)

unfoldable pub clean : Text → Text
unfolding clean_into split join
clean path =
    let kept = join (text "/") (onto (clean_into (is_rooted path) [] (split slash path)) []) in
    if is_rooted path then slash ∷ kept else dot_if_empty kept

-- `filepath.Join(elem...)`: empty elements are left out
unfoldable pub join_path : List Text → Text
unfolding clean join
join_path elements =
    let kept = drop_empty elements in
    elim kept [ [] ↦ [] | e ∷ es ↦ clean (join (text "/") (e ∷ es)) ]

abbrev after_slash : Bool → Text → Text → Text
after_slash seen s rest = if seen then rest else s

has_slash : Text → Bool
has_slash [] = false
has_slash (c ∷ s) = c == slash || has_slash s

-- What follows the last slash.
unfoldable pub file_part : Text → Text
unfolding has_slash
file_part [] = []
file_part (c ∷ s) = let rest = file_part s in if has_slash (c ∷ s) then rest else c ∷ s

-- What stands up to the last slash, the slash included.
unfoldable pub dir_part : Text → Text
unfolding has_slash
dir_part [] = []
dir_part (c ∷ s) = let rest = dir_part s in if has_slash (c ∷ s) then c ∷ rest else []

-- `path.Split` cuts a path after its last slash.
pub split-path : (p : Text) → dir_part p ++ file_part p ≡ p
unfolding dir_part file_part
split-path [] = refl
split-path (c ∷ s) = ground (arith, split-path s)

-- `filepath.Dir(p)`
unfoldable pub dir_name : Text → Text
unfolding clean dir_part
dir_name p = clean (dir_part p)

strip_slashes : Text → Text
strip_slashes [] = []
strip_slashes (c ∷ s) =
    let rest = strip_slashes s in if c == slash && is_empty rest then [] else c ∷ rest

-- `filepath.Base(p)`
unfoldable pub base_name : Text → Text
unfolding strip_slashes file_part
base_name [] = text "."
base_name (c ∷ s) =
    let stripped = strip_slashes (c ∷ s) in
    elim stripped [ [] ↦ text "/" | d ∷ r ↦ file_part (d ∷ r) ]
