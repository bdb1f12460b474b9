-- ===== src/Tests/Input.antt =====
-- Questions, passwords, permissions and keys.
use k3os.Base.{ℕ, ◌≡◌, ◌↔◌, ◌⊎◌, ◌+◌, refl, arith, true, false, none, List, [], ◌∷◌, ◌++◌, map}
use k3os.Base.Text.{Text, text, contains, scan_lines, drop_cr}
use k3os.Base.Lines.{any_of-IsLine}
use k3os.Os.Call.{ok, err, failed}
use k3os.Util.Mask.{Key, byte, entered, max_bytes, mask_password}
use k3os.Util.Mask.Typing.{Read, mask_password_iff}
use k3os.Questions.{answer, prompt_options}
use k3os.Questions.Chosen.{ChosenFirst, prompt_options-Chosen}
use k3os.Config.Permissions.{permissions}
use k3os.Config.Permissions.Octal.{value, permissions-printed}
use k3os.Ssh.Keys.{add_key, get_loop}
use k3os.Base.Number.{pos}
use k3os.Ssh.Passwd.{User, find_user_home_dir}
use k3os.Ssh.AddKey.{Requests, get_loop-Requests}
use k3os.Ssh.Whole.{text_of, add_key-lines}
use k3os.Tests.Data.{fresh_system}

-- "ac", delete, "b", enter; and "x" after it.
abbrev typed_keys : List Key
typed_keys = byte b'a' ∷ byte b'c' ∷ byte 127 ∷ byte b'b' ∷ byte 13 ∷ byte b'x' ∷ []

mask_password_iff_example :
    (mask_password typed_keys ≡ (entered (text "ab"), byte b'x' ∷ []))
    ↔ Read (max_bytes + 1) [] (text "ab") typed_keys (byte b'x' ∷ [])
mask_password_iff_example = mask_password_iff typed_keys (byte b'x' ∷ []) (text "ab")

abbrev twice : List Key
twice = byte b'a' ∷ byte 13 ∷ byte b'a' ∷ byte 10 ∷ []

abbrev lines : List Text
lines = text "seven\n" ∷ text "\n" ∷ text " 2 \n" ∷ text "1\n" ∷ []

abbrev three : ℕ
three = 3

prompt_options-Chosen_example :
    ((three ≡ 1) × (prompt_options none three lines ≡ answer 0 lines))
    ⊎ ((three ≡ 1 → ⊥) × ChosenFirst three [] lines (prompt_options none three lines))
prompt_options-Chosen_example = prompt_options-Chosen none three lines

add_key-lines_example :
    (lines' : List Text) × (((contains (text_of (text "ssh-rsa A" ∷ [])) (text "ssh-rsa B") ≡ true)
        × (lines' ≡ text "ssh-rsa A" ∷ []))
      ⊎ ((contains (text_of (text "ssh-rsa A" ∷ [])) (text "ssh-rsa B") ≡ false)
          × (lines' ≡ (text "ssh-rsa A" ∷ []) ++ text "ssh-rsa B" ∷ [])))
    × (add_key (text_of (text "ssh-rsa A" ∷ [])) (text "ssh-rsa B") ≡ text_of lines')
    × (scan_lines (add_key (text_of (text "ssh-rsa A" ∷ [])) (text "ssh-rsa B"))
        ≡ map drop_cr lines')
    × (add_key (add_key (text_of (text "ssh-rsa A" ∷ [])) (text "ssh-rsa B")) (text "ssh-rsa B")
        ≡ add_key (text_of (text "ssh-rsa A" ∷ [])) (text "ssh-rsa B"))
add_key-lines_example =
    add_key-lines (text "ssh-rsa A" ∷ []) (text "ssh-rsa B")
      (any_of-IsLine (text "ssh-rsa A") refl, tt) (any_of-IsLine (text "ssh-rsa B") refl)

abbrev rancher_keys : Text
rancher_keys = text "https://github.com/rancher.keys"

get_loop-Requests_example :
    Requests rancher_keys 10 [] (get_loop 10 rancher_keys (err (failed [])) fresh_system []).1
get_loop-Requests_example = get_loop-Requests rancher_keys 10 (err (failed [])) fresh_system []

permissions-printed_example : permissions (text "0755") ≡ ok 0o755
unfolding value
permissions-printed_example =
    permissions-printed 0 (7 ∷ 5 ∷ 5 ∷ [])
      (omega arith, (omega arith, (omega arith, (omega arith, tt)))) (unfold value in omega arith)

read_mode : permissions (text "-1") ≡ ok 4294967295
unfolding permissions
read_mode = refl

abbrev passwd : Text
passwd = text "root:x:0:0::/root:/bin/sh\nrancher:x:1000:1000::/home/rancher:/bin/bash\n"

abbrev rancher : User
rancher = record { uid = pos 1000; gid = pos 1000; home_dir = text "/home/rancher" }

rancher_found : find_user_home_dir passwd (text "rancher") ≡ ok rancher
unfolding find_user_home_dir
rancher_found = refl
