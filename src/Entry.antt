-- ===== src/Entry.antt =====
-- main.go: which program runs, and the one that starts the boot. `reexec.Init`, which looks the
-- program's name up among the registered ones, is a parameter, and so is the reading of flags.
pub mod Relocated
pub mod Booted
use k3os.Base.{
  ℕ, Bool, true, false, not, ◌&&◌, Option, none, some, List, [], ◌∷◌, ◌++◌, any_of, if◌then◌else◌,
}
use k3os.Base.Text.{Text, text, ◌=ᵗ◌}
use k3os.Base.FilePath.{base_name}
use k3os.Os.Call.{Result, mount}
use k3os.Os.Io.{Io, pure, act_, ◌>>=◌, ◌>>◌}
use k3os.Config.{CloudConfig}
use k3os.Config.Mapper.{Mapper}
use k3os.Cc.Apply.{Tools}
use k3os.Cliinstall.Asking.{Terminal}
use k3os.Cli.Spec.{AppSpec, command_names}
use k3os.Cli.App.{Routed, new_app, run_app}
use k3os.Enterchroot.Start.{Elapsed, mount_root}
use k3os.Enterchroot.Root.{enter}
use k3os.Enterchroot.Image.{FileRead}
use k3os.Transferroot.{Walk, relocate}

abbrev pub with_command : AppSpec → Text → List Text
with_command app path =
    if not (path =ᵗ app.name) && any_of (λ name. name =ᵗ path) (command_names app.commands)
    then path ∷ []
    else []

-- The arguments that `main` hands to the application: a link named like a command stands for it.
unfoldable pub app_args : AppSpec → Text → List Text → List Text
app_args app program args = app.name ∷ (with_command app (base_name program) ++ args)

-- `initrd`; an error of the remount is only logged, and other errors end the process.
module _ (walk : Walk) (program self : Text) (reads : List FileRead) (elapsed : Elapsed)
    (debug_level : Bool) where
  unfoldable pub initrd : List Text → Io (Unit {0})
  initrd args = do
    replaced ← relocate walk
    if replaced then pure tt else do
      act_ (mount [] (text "/") (text "none") (text "rw,remount"))
      mount_root program self reads elapsed (text "k3os.debug") debug_level (text "./k3os/data")
          args

-- The functions that `main` registers
pub data Program : Type 0 where
  initrd_program enter_program : Program

abbrev pub registered : List (Text × Program)
registered =
    (text "/init", initrd_program)
    ∷ (text "/sbin/init", initrd_program)
    ∷ (text "enter-root", enter_program)
    ∷ []

-- What the program takes from elsewhere
pub record World : Type 0 where
  pub init : List (Text × Program) → Text → Option Program
  pub route : AppSpec → List Text → Routed
  pub walk : Walk
  pub self : Text
  pub reads : List FileRead
  pub elapsed : Elapsed
  pub debug_level : Bool
  pub mkdev : ℕ → ℕ → ℕ
  pub read_all : Text → Option (List (List Text))
  pub mapper : Mapper
  pub to_json : CloudConfig → Result Text
  pub tools : Tools
  pub terminal : Terminal

module _ (w : World) (program : Text) (args : List Text) where
  -- The part of `main` that runs where no registered function did
  unfoldable pub main_app : Io (Unit {0})
  main_app = do
    app ← new_app w.tools.version
    run_app w.mkdev w.read_all w.mapper w.to_json w.tools program w.terminal w.route app
        (app_args app program args)

  unfoldable pub run_program : Option Program → Io (Unit {0})
  run_program none = main_app
  run_program (some initrd_program) =
      initrd w.walk program w.self w.reads w.elapsed w.debug_level (program ∷ args)
  run_program (some enter_program) = enter (program ∷ args)

  -- `main`, of `os.Args`
  unfoldable pub main : Io (Unit {0})
  main = run_program (w.init registered program)
