-- ===== src/Tests/Boot.antt =====
-- The phases of the boot, with what they apply.
use k3os.Os.Call.{Result, ok, Call, History, Os, read_file, write_file}
use k3os.Base.{
  ◌≡◌, refl, sym, subst, ◌+◌, ◌*◌, ◌==◌, Option, some, none, List, [], ◌∷◌, All, if◌then◌else◌,
}
use k3os.Base.Text.{Text, text, scan_lines, is_space, has_prefix}
use k3os.Os.Adds.{Adds}
use k3os.Cc.Apply.{run_applies, apply_modules, apply_hostname, boot_apply, init_apply}
use k3os.Cc.Apply.Order.{Reports, run_applies-Reports}
use k3os.Cc.Apply.Network.{IsOffline}
use k3os.Cc.Apply.Offline.{boot_apply-IsOffline}
use k3os.Rc.Run.{run_rc}
use k3os.Os.Makes.{Makes}
use k3os.Rc.Boot.{boot_calls, run_rc-Makes}
use k3os.Base.Lines.{any_of-IsLine}
use k3os.Config.{File, Wifi, K3os, StringMap}
use k3os.Cc.Environment.{get, merged, read_environment, apply_environment}
use k3os.Cc.Environment.Precedence.{or_else}
use k3os.Cc.Environment.Readable.{IsVariable}
use k3os.Cc.Environment.Written.{apply_environment-get}
use k3os.Cc.Connman.{wifi_config}
use k3os.Cc.Connman.Reading.{read_sections, network_sections, read_sections-wifi_config}
use k3os.Tests.Data.{broken_system, config, tools}

run_applies-Reports_example :
    Reports config broken_system
      (apply_modules ∷ apply_hostname ∷ [])
      []
      (run_applies config (apply_modules ∷ apply_hostname ∷ []) broken_system [])
run_applies-Reports_example =
    run_applies-Reports config broken_system (apply_modules ∷ apply_hostname ∷ []) []

boot_apply-IsOffline_example :
    Adds IsOffline (boot_apply tools config) × Adds IsOffline (init_apply tools config)
boot_apply-IsOffline_example = boot_apply-IsOffline tools config

-- A file of variables, and a configuration that sets one of them
abbrev environment_texts : History → Call → Result Text
environment_texts h c = ok (text "# proxies\nexport http_proxy=old\nPATH=/bin\n")

abbrev environment_system : Os
environment_system = record broken_system { text_of = environment_texts }

abbrev proxy_config : K3os
proxy_config = record config.k3os { environment = (text "http_proxy", text "new") ∷ [] }

abbrev without_last_mark : Text → Text
without_last_mark [] = []
without_last_mark (c ∷ []) = []
without_last_mark (c ∷ d ∷ s) = c ∷ without_last_mark (d ∷ s)

-- Takes the quotation marks away that `tools.quote` puts around a text.
abbrev without_marks : Text → Option Text
without_marks [] = none
without_marks (c ∷ s) = if c == b'"' then some (without_last_mark s) else none

abbrev written_variables : StringMap
written_variables = (text "http_proxy", text "new") ∷ (text "PATH", text "/bin") ∷ []

variables_merged :
    merged tools.quote without_marks
      (environment_texts [] (read_file (text "/etc/environment")))
      proxy_config.environment
    ≡ written_variables
unfolding merged
variables_merged = refl

written_variables-IsVariable : All (IsVariable tools.quote without_marks) written_variables
written_variables-IsVariable = (
  (
    record {
      first = b'h';
      others = text "ttp_proxy";
      spelled = refl;
      no_space = unfold is_space in refl;
      no_comment = refl;
      no_separator =
          (refl, (refl, (refl, (refl, (refl, (refl, (refl, (refl, (refl, (refl, tt))))))))));
      one_line = any_of-IsLine (text "http_proxy") refl;
      no_export = unfold has_prefix in refl;
    },
    record {
      body = text "new";
      marks = refl;
      one_line = any_of-IsLine (text "\"new\"") refl;
      back = refl;
    },
  ),
  (
    (
      record {
        first = b'P';
        others = text "ATH";
        spelled = refl;
        no_space = unfold is_space in refl;
        no_comment = refl;
        no_separator = (refl, (refl, (refl, (refl, tt))));
        one_line = any_of-IsLine (text "PATH") refl;
        no_export = unfold has_prefix in refl;
      },
      record {
        body = text "/bin";
        marks = refl;
        one_line = any_of-IsLine (text "\"/bin\"") refl;
        back = refl;
      },
    ),
    tt,
  ),
)

apply_environment-get_example :
    (written : Text) × ((apply_environment tools.quote without_marks proxy_config environment_system
        []).1
      ≡ write_file (text "/etc/environment") written 0o644
        ∷ read_file (text "/etc/environment")
        ∷ [])
    × ((j : Text)
        → get j (read_environment tools.quote without_marks (ok written))
          ≡ or_else (get j proxy_config.environment) (
              get j (
                read_environment tools.quote without_marks
                  (environment_texts [] (read_file (text "/etc/environment"))))))
apply_environment-get_example =
    apply_environment-get tools.quote without_marks proxy_config environment_system [] refl
      (unfold get in refl, tt)
      (subst (All (IsVariable tools.quote without_marks)) (sym variables_merged)
        written_variables-IsVariable)

abbrev wanted : List Text
wanted = text "kvm" ∷ text "loop" ∷ text "nvme a=1" ∷ []

run_rc-Makes_example :
    Makes boot_calls (run_rc (λ major minor. major * 256 + minor) (λ contents. none))
run_rc-Makes_example = run_rc-Makes (λ major minor. major * 256 + minor) (λ contents. none)

abbrev files : List File
files =
    record {
      encoding = text "b64";
      content = text "YQ==";
      owner = text "rancher";
      path = text "/etc/a";
      raw_file_permissions = text "0644";
    }
    ∷ []

abbrev networks : List Wifi
networks =
    record { name = text "home"; passphrase = text "a=b" }
    ∷ record { name = text "lab"; passphrase = [] }
    ∷ []

read_sections-wifi_config_example : read_sections (scan_lines (wifi_config networks)) ≡ (
  [],
  (
    text "[global]",
    (text "Name", text "cloud-config")
        ∷ (text "Description", text "Services defined in the cloud-config")
        ∷ [],
  )
      ∷ network_sections 0 networks,
)
read_sections-wifi_config_example = read_sections-wifi_config networks (
  (any_of-IsLine (text "a=b") refl, refl, any_of-IsLine (text "home") refl, refl),
  ((tt, refl, any_of-IsLine (text "lab") refl, refl), tt),
)
