-- ===== src/Cc/Environment/Precedence.antt =====
-- pkg/cc/funcs.go: the map of variables that `ApplyEnvironment` fills, by their names.
use k3os.Base.{◌≡◌, refl, Option, none, some, [], ◌∷◌, arith, if◌then◌else◌}
use k3os.Base.Text.{Text, ◌=ᵗ◌, =ᵗ_iff}
use k3os.Config.{StringMap}
use k3os.Cc.Environment.{put, get, put_all}

pub get-put :
    (key val j : Text) (env : StringMap)
    → get j (put key val env) ≡ (if key =ᵗ j then some val else get j env)
unfolding get put
get-put key val j [] = refl
get-put key val j ((k, v) ∷ env) =
    ground (arith, =ᵗ_iff k key, =ᵗ_iff k j, =ᵗ_iff key j, get-put key val j env)

-- No key stands twice, as in a Go map.
abbrev pub NodupKeys : StringMap → Type 0
NodupKeys [] = Unit
NodupKeys ((k, v) ∷ env) = (get k env ≡ none) × NodupKeys env

abbrev pub or_else : Option Text → Option Text → Option Text
or_else none b = b
or_else (some a) b = some a

pub get-put_all :
    (entries env : StringMap) (j : Text)
    → NodupKeys entries
    → get j (put_all entries env) ≡ or_else (get j entries) (get j env)
unfolding put_all get
get-put_all [] env j u = refl
get-put_all ((k, v) ∷ entries) env j u =
    ground (arith, get-put_all entries (put k v env) j u.1, get-put k v j env, =ᵗ_iff k j)
