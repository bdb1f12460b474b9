-- ===== src/Config/UserData/Script.antt =====
-- `readUserData` of pkg/config/read_cc.go with `WriteFiles`: a script on its way through the
-- configuration.
use k3os.Base.{
  ◌≡◌, refl, ◌⊎◌, inl, inr, none, some, [], ◌∷◌, ◌++◌, true, false, ◌||◌, Bool-cases, arith,
}
use k3os.Base.Text.{Text, text, contains, has_prefix, ◌=ᵗ◌}
use k3os.Os.Call.{ok}
use k3os.Config.{CloudConfig, File}
use k3os.Config.Permissions.{permissions}
use k3os.Util.Decode.{Codec, decode_content}
use k3os.Config.UserData.{script_config, script_of}

-- The configuration has one file, which is executable by its owner and is run, and the contents
-- decode to those bytes.
pub record Runs (codec : Codec) (contents : Text) (cc : CloudConfig) : Type 0 where
  pub file : File
  pub only : cc.write_files ≡ file ∷ []
  pub bytes : decode_content codec file.content file.encoding ≡ ok contents
  pub executable : permissions file.raw_file_permissions ≡ ok 0o700
  pub runs : cc.runcmd ≡ (text "source " ++ file.path) ∷ []

-- User data are taken for a script exactly if they hold a zero byte or begin with `#!`; and then the
-- configuration writes them back byte for byte, as the one file, with mode 0700, and runs that. What
-- base64 encodes, it decodes.
pub script_of-Runs :
    (codec : Codec) (to_base64 : Text → Text) (contents : Text)
    → ((t : Text) → codec.base64 (to_base64 t) ≡ some t)
    → (((contains contents (0 ∷ []) || has_prefix contents (text "#!")) ≡ false)
        × (script_of to_base64 contents ≡ none))
      ⊎ ((cc : CloudConfig) × ((contains contents (0 ∷ []) || has_prefix contents (text "#!"))
            ≡ true)
          × (script_of to_base64 contents ≡ some cc)
          × Runs codec contents cc)
unfolding script_of decode_content ◌=ᵗ◌ permissions
script_of-Runs codec to_base64 contents law = elim (Bool-cases (contains contents (0 ∷ []))) [
  | inl binary ↦ inr (
    script_config (to_base64 contents) (text "b64"),
    ground arith,
    ground arith,
    record {
      file = _;
      only = refl;
      bytes = ground (arith, law contents);
      executable = refl;
      runs = refl;
    },
  )
  | inr plain ↦ elim (Bool-cases (has_prefix contents (text "#!"))) [
    | inl script ↦ inr (
      script_config contents [],
      ground arith,
      ground arith,
      record { file = _; only = refl; bytes = refl; executable = refl; runs = refl },
    )
    | inr yaml ↦ inl (ground arith, ground arith)
  ]
]
