-- ===== src/Config/Writer.antt =====
-- crates/core/src/config/writer.rs: the configuration of the chosen backend is put into a file. The
-- format of serde_json and failing system calls are arguments. The file is written beside its place
-- and renamed, so a write that fails leaves the old one. A result `none` is a panic.
pub mod Written
use v2ray_rs.Models.Proxy.{ProxyNode}
use v2ray_rs.Models.Settings.{AppSettings}
use v2ray_rs.Models.Validation.{IpNetApi}
use v2ray_rs.Models.Routing.{RoutingRule}
use v2ray_rs.Config.Json.{Value}
use v2ray_rs.Config.Common.{ConfigError, serialize, io}
use v2ray_rs.Config.Generator.{ConfigWriter, output_path, generate_for}
use v2ray_rs.Base.{String, Option, none, some, List, Unicode, Result, ok, err, Files, put}

pub record Faults : Type 0 where
  pub create_dir : Option String
  pub write : Option String

-- creating the directory and the temporary file, writing and renaming it
abbrev pub first_fault : Faults → Option String
first_fault f = elim f.create_dir [ some e ↦ some e | none ↦ f.write ]

abbrev pub stored : Option String → String → String → Files → Result ConfigError String × Files
stored (some e) path text files = (err (io e), files)
stored none path text files = (ok path, put path (some text) files)

module _ (to_json : Value → Result String String) (f : Faults) (path : String) where
  abbrev pub serialized : Result String String → Files → Result ConfigError String × Files
  serialized (err e) files = (err (serialize e), files)
  serialized (ok text) files = stored (first_fault f) path text files

  abbrev pub write_generated :
      Option (Result ConfigError Value) → Files → Option (Result ConfigError String × Files)
  write_generated none files = none
  write_generated (some (err e)) files = some (err e, files)
  write_generated (some (ok config)) files = some (serialized (to_json config) files)

module _ {N : Type 0} (u : Unicode) (net : IpNetApi N)
    (to_json : Value → Result String String) where
  unfoldable pub write_config :
      Faults
      → ConfigWriter
      → List ProxyNode
      → List (RoutingRule N)
      → AppSettings
      → Files
      → Option (Result ConfigError String × Files)
  write_config f w nodes rules settings files =
      let backend = settings.backend.backend_type in
      write_generated to_json f (output_path w backend)
        (generate_for u net backend nodes rules settings) files
