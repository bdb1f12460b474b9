-- ===== src/Cc/Connman/Reading.antt =====
-- pkg/cc/funcs.go: what connman reads in the file of networks that `ApplyWifi` writes.
use k3os.Base.{
  ℕ, suc, ◌≡◌, refl, ap, sym, ◌∙◌, true, false, Bool, Option, none, some, List, [], ◌∷◌, ◌++◌,
  append_assoc, All, All-append,
}
use k3os.Base.Text.{Text, text, has_prefix, split, split_two, drop_cr, scan_lines}
use k3os.Base.Number.{itoa}
use k3os.Base.Lines.{
  IsLine, any_of-IsLine, itoa-IsLine, scan_lines-line, drop_cr-append, drop_cr-behind,
}
use k3os.Config.{Wifi}
use k3os.Cc.Connman.{service, services, wifi_config}

-- A reader of key files: a line that begins with a bracket is the header of the entries below it.
abbrev pub Section : Type 0
Section = Text × List (Text × Text)

abbrev pub value_or_empty : Option Text → Text
value_or_empty none = []
value_or_empty (some value) = value

pub entry_of : Text → Text × Text
entry_of line = let (key, value) = split_two b'=' line in (key, value_or_empty value)

abbrev pub add_line :
    Bool → Text → List (Text × Text) × List Section → List (Text × Text) × List Section
add_line true line (entries, sections) = ([], (line, entries) ∷ sections)
add_line false line (entries, sections) = (entry_of line ∷ entries, sections)

-- The entries above the first header, and the sections
pub read_sections : List Text → List (Text × Text) × List Section
read_sections [] = ([], [])
read_sections (line ∷ lines) = add_line (has_prefix line (text "[")) line (read_sections lines)

abbrev pub header : ℕ → Text
header i = text "[service_wifi" ++ (itoa i ++ text "]")

-- One section for each network, numbered in their order
pub network_sections : ℕ → List Wifi → List Section
network_sections i [] = []
network_sections i (w ∷ ws) =
    (
      header i,
      (text "Type", text "wifi") ∷ (text "Passphrase", w.passphrase) ∷ (text "Name", w.name) ∷ [],
    )
    ∷ network_sections (suc i) ws

-- The name and the passphrase are one line each, and do not end with a `\r`.
abbrev pub IsPlain : Wifi → Type 0
IsPlain w =
    IsLine w.passphrase
    × (drop_cr w.passphrase ≡ w.passphrase)
    × IsLine w.name
    × (drop_cr w.name ≡ w.name)

service-regroup :
    (i : ℕ) (w : Wifi) (rest : Text)
    → service i w ++ rest
      ≡ header i
        ++ 10
          ∷ (text "Type=wifi"
              ++ 10
                ∷ ((text "Passphrase=" ++ w.passphrase)
                    ++ 10 ∷ ((text "Name=" ++ w.name) ++ 10 ∷ rest)))
unfolding service
service-regroup i w rest = simp append_assoc

header-IsLine : (i : ℕ) → IsLine (header i)
header-IsLine i =
    All-append _ (text "[service_wifi") (itoa i ++ text "]")
      (any_of-IsLine (text "[service_wifi") refl)
      (All-append _ (itoa i) (text "]") (itoa-IsLine i) (refl, tt))

drop_cr-header : (i : ℕ) → drop_cr (header i) ≡ header i
drop_cr-header i =
    ap drop_cr (sym (append_assoc (text "[service_wifi") (itoa i) (text "]")))
    ∙ drop_cr-append (text "[service_wifi" ++ itoa i) b']' []
    ∙ append_assoc (text "[service_wifi") (itoa i) (text "]")

scan_lines-service :
    (i : ℕ) (w : Wifi) (rest : Text)
    → IsPlain w
    → scan_lines (service i w ++ rest)
      ≡ header i
        ∷ text "Type=wifi"
        ∷ (text "Passphrase=" ++ w.passphrase)
        ∷ (text "Name=" ++ w.name)
        ∷ scan_lines rest
scan_lines-service i w rest (p, p', n, n') =
    rw
      (
        service-regroup i w rest,
        scan_lines-line (header i) _ (header-IsLine i),
        scan_lines-line (text "Type=wifi") _ (any_of-IsLine (text "Type=wifi") refl),
        scan_lines-line (text "Passphrase=" ++ w.passphrase) _ (
            All-append _ (text "Passphrase=") w.passphrase (any_of-IsLine (text "Passphrase=") refl)
              p),
        scan_lines-line (text "Name=" ++ w.name) rest
            (All-append _ (text "Name=") w.name (any_of-IsLine (text "Name=") refl) n),
        drop_cr-header i,
        drop_cr-behind (text "Passphrase=") w.passphrase refl p',
        drop_cr-behind (text "Name=") w.name refl n',
      )
      refl

read_sections-service :
    (i : ℕ) (w : Wifi) (lines : List Text) (sections : List Section)
    → read_sections lines ≡ ([], sections)
    → read_sections (
        header i
        ∷ text "Type=wifi"
        ∷ (text "Passphrase=" ++ w.passphrase)
        ∷ (text "Name=" ++ w.name)
        ∷ lines)
      ≡ (
        [],
        (
          header i,
          (text "Type", text "wifi")
              ∷ (text "Passphrase", w.passphrase)
              ∷ (text "Name", w.name)
              ∷ [],
        )
            ∷ sections,
      )
unfolding read_sections entry_of split_two has_prefix
read_sections-service i w lines sections e = rw e refl

read_sections-services :
    (i : ℕ) (ws : List Wifi)
    → All IsPlain ws
    → read_sections (scan_lines (services i ws)) ≡ ([], network_sections i ws)
unfolding services network_sections
read_sections-services i [] k = unfold read_sections scan_lines split in refl
read_sections-services i (w ∷ ws) (plain, k) =
    ap read_sections (scan_lines-service i w (services (suc i) ws) plain)
    ∙ read_sections-service i w (scan_lines (services (suc i) ws)) (network_sections (suc i) ws)
        (read_sections-services (suc i) ws k)

scan_lines-global :
    (rest : Text)
    → scan_lines (
        text "[global]\nName=cloud-config\nDescription=Services defined in the cloud-config\n"
        ++ rest)
      ≡ text "[global]"
        ∷ text "Name=cloud-config"
        ∷ text "Description=Services defined in the cloud-config"
        ∷ scan_lines rest
scan_lines-global rest =
    scan_lines-line (text "[global]")
      (text "Name=cloud-config\nDescription=Services defined in the cloud-config\n" ++ rest)
      (any_of-IsLine (text "[global]") refl)
    ∙ ap (λ lines. text "[global]" ∷ lines)
        (scan_lines-line (text "Name=cloud-config")
            (text "Description=Services defined in the cloud-config\n" ++ rest)
            (any_of-IsLine (text "Name=cloud-config") refl)
          ∙ ap (λ lines. text "Name=cloud-config" ∷ lines)
              (scan_lines-line (text "Description=Services defined in the cloud-config") rest
                (any_of-IsLine (text "Description=Services defined in the cloud-config") refl)))

-- In the file of networks a reader finds the section `[global]`, and then one section for each network
-- of the configuration, in their order, with its name and its passphrase as they are configured; this
-- for names and passphrases that are one line each.
pub read_sections-wifi_config :
    (ws : List Wifi)
    → All IsPlain ws
    → read_sections (scan_lines (wifi_config ws)) ≡ (
      [],
      (
        text "[global]",
        (text "Name", text "cloud-config")
            ∷ (text "Description", text "Services defined in the cloud-config")
            ∷ [],
      )
          ∷ network_sections 0 ws,
    )
unfolding wifi_config read_sections entry_of split_two has_prefix
read_sections-wifi_config ws k =
    ap read_sections (scan_lines-global (services 0 ws)) ∙ rw (read_sections-services 0 ws k) refl
