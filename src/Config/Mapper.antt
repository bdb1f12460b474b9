-- ===== src/Config/Mapper.antt =====
-- What the reading and writing of the configuration use of other packages: `encoding/base64`,
-- `regexp`, `fmt`, `github.com/ghodss/yaml` and `github.com/rancher/mapper` with its packages
-- `convert`, `merge` and `values`.
use k3os.Base.{Option, List}
use k3os.Base.Text.{Text}
use k3os.Os.Call.{Result}
use k3os.Config.{CloudConfig, Install}
use k3os.Config.Value.{Value, Entries}

pub record Mapper : Type 0 where
  -- `base64.StdEncoding.EncodeToString`
  pub to_base64 : Text → Text
  -- `FindAllString` of the expression for the items of the command line
  pub find_all : Text → List Text
  -- `%v`
  pub print : Value → Text
  pub unmarshal : Text → Result Entries
  pub marshal : Entries → Result Text
  -- `yaml.Marshal` of a `CloudConfig`
  pub marshal_config : CloudConfig → Result Text
  -- `convert.ToYAMLKey`, `EncodeToMap` and `ToObj`
  pub to_yaml_key : Text → Text
  pub encode : CloudConfig → Result Entries
  pub encode_install : Option Install → Result Entries
  pub to_object : Entries → CloudConfig → Result CloudConfig
  -- `schema.Mapper.ToInternal` and `merge.UpdateMerge`
  pub to_internal : Entries → Result Entries
  pub update_merge : Entries → Entries → Entries
  -- `values.GetValue` and `PutValue`
  pub get_value : List Text → Entries → Option Value
  pub put_value : List Text → Value → Entries → Entries
