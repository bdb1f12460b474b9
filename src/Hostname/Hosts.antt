-- ===== src/Hostname/Hosts.antt =====
-- The rewriting of /etc/hosts in `syncHostname`.
use k3os.Base.{List, [], ◌∷◌, ◌++◌, Bool, false, if◌then◌else◌}
use k3os.Base.Text.{Text, text, ◌=ᵗ◌, trim_space, fields}

abbrev pub starts_with_field : Text → List Text → Bool
starts_with_field f [] = false
starts_with_field f (g ∷ gs) = g =ᵗ f

unfoldable pub is_local_name : Text → Bool
unfolding fields ◌=ᵗ◌
is_local_name line = starts_with_field (text "127.0.1.1") (fields line)

unfoldable pub rewrite_line : Text → Text → Text
unfolding is_local_name trim_space
rewrite_line hostname line =
    let trimmed = trim_space line in
    if is_local_name trimmed
    then text "127.0.1.1 " ++ (hostname ++ text "\n")
    else trimmed ++ text "\n"

unfoldable pub rewrite_hosts : Text → List Text → Text
unfolding rewrite_line
rewrite_hosts hostname [] = []
rewrite_hosts hostname (line ∷ lines) = rewrite_line hostname line ++ rewrite_hosts hostname lines
