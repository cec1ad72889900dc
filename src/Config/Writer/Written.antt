-- ===== src/Config/Writer/Written.antt =====
-- crates/core/src/config/writer.rs: what `write_config` leaves in the files.
use v2ray_rs.Models.Proxy.{ProxyNode}
use v2ray_rs.Models.Settings.{AppSettings}
use v2ray_rs.Models.Validation.{IpNetApi}
use v2ray_rs.Models.Routing.{RoutingRule}
use v2ray_rs.Config.Json.{Value, str}
use v2ray_rs.Config.Common.{ConfigError, no_nodes}
use v2ray_rs.Config.Common.Tags.{all_tags}
use v2ray_rs.Config.Generator.{ConfigWriter, output_path, generate_for}
use v2ray_rs.Config.Generator.Tags.{config_tags, generate_for-tags}
use v2ray_rs.Config.Writer.{
  stored, write_generated, serialized, first_fault, Faults, write_config, write_generated,
  serialized, first_fault,
}
use v2ray_rs.Base.{
  String, ◌≡◌, refl, ap, ◌∙◌, ◌≢◌, ◌⊎◌, inl, inr, Option, none, some, List, [], map, Unicode,
  Result, ok, err, Files, put,
}

module _ {N : Type 0} (u : Unicode) (net : IpNetApi N) (to_json : Value → Result String String)
    (w : ConfigWriter) (nodes : List ProxyNode) (rules : List (RoutingRule N))
    (settings : AppSettings) (files : Files) where
  -- the file holds the text of a configuration with the outbounds of the nodes, or nothing changed
  abbrev pub WriteOutcome : Result ConfigError String × Files → Type 0
  WriteOutcome (r, files') =
      ((nodes ≡ []) × (r ≡ err no_nodes) × (files' ≡ files))
      ⊎ ((config : Value) × (text : String) × (generate_for u net settings.backend.backend_type
              nodes rules settings
            ≡ some (ok config))
          × (config_tags config ≡ map str (all_tags nodes))
          × (to_json config ≡ ok text)
          × (r ≡ ok (output_path w settings.backend.backend_type))
          × (files' ≡ put (output_path w settings.backend.backend_type) (some text) files))
      ⊎ ((e : ConfigError) × (r ≡ err e) × (files' ≡ files))

  serialized_outcome :
      (config : Value) (fault : Option String) (t : Result String String)
      → generate_for u net settings.backend.backend_type nodes rules settings ≡ some (ok config)
      → config_tags config ≡ map str (all_tags nodes)
      → to_json config ≡ t
      → (f : Faults) → first_fault f ≡ fault
      → WriteOutcome (serialized to_json f (output_path w settings.backend.backend_type) t files)
  serialized_outcome config fault (err e) h tags k f l = inr (inr (_, refl, refl))
  serialized_outcome config (some e) (ok text) h tags k f l = rw l (inr (inr (_, refl, refl)))
  serialized_outcome config none (ok text) h tags k f l =
      rw l (inr (inl (config, text, h, tags, k, refl, refl)))

  pub write_config_lem :
      (f : Faults)
      → (p : Result ConfigError String × Files) × (write_config u net to_json f w nodes rules
            settings files
          ≡ some p)
        × WriteOutcome p
  unfolding write_config
  write_config_lem f =
      let path = output_path w settings.backend.backend_type in
      elim (generate_for-tags u net settings.backend.backend_type nodes rules settings) [
        | inl (e, h) ↦ (
          (err no_nodes, files),
          ap (λ g. write_generated to_json f path g files) h,
          inl (e, refl, refl),
        )
        | inr (c, h, tags) ↦ (
          serialized to_json f path (to_json c) files,
          ap (λ g. write_generated to_json f path g files) h,
          serialized_outcome c (first_fault f) (to_json c) h tags refl f refl,
        )
      ]

  -- With a node, a format that can write every value and no failing call, the file is written.
  pub write_config-ok :
      (f : Faults)
      → nodes ≢ []
      → ((v : Value) → (text : String) × (to_json v ≡ ok text))
      → first_fault f ≡ none
      → (config : Value) × (text : String) × (generate_for u net settings.backend.backend_type nodes
            rules settings
          ≡ some (ok config))
        × (to_json config ≡ ok text)
        × (write_config u net to_json f w nodes rules settings files
            ≡ some (
              ok (output_path w settings.backend.backend_type),
              put (output_path w settings.backend.backend_type) (some text) files,
            ))
  unfolding write_config
  write_config-ok f some_node prints no_fault =
      let path = output_path w settings.backend.backend_type in
      elim (generate_for-tags u net settings.backend.backend_type nodes rules settings) [
        | inl (e, h) ↦ absurd (some_node e)
        | inr (c, h, tags) ↦
            let (text, j) = prints c in
            (
              c,
              text,
              h,
              j,
              ap (λ g. write_generated to_json f path g files) h
                  ∙ ap (λ (r : Result String String). some (serialized to_json f path r files)) j
                  ∙ ap (λ (o : Option String). some (stored o path text files)) no_fault,
            )
      ]
