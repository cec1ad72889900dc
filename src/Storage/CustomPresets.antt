-- ===== src/Storage/CustomPresets.antt =====
-- crates/core/src/persistence.rs: the presets that the user saved, each in a file of its own whose
-- name is made from the preset's. The format, the entries of the directory in the order of
-- `read_dir` and failing system calls are arguments.
pub mod Names
pub mod Reloading
use v2ray_rs.Models.Presets.{Preset}
use v2ray_rs.Storage.Persistence.{PersistenceError, Codec, io, json}
use v2ray_rs.Base.{
  Char, String, Bool, true, false, not, ◌&&◌, ◌||◌, Option, none, some, List, [], ◌∷◌, ◌++◌,
  if◌then◌else◌, is_some, keep_if, ◌⧺◌, str_eq, is_empty_str, is_ascii_uppercase,
  is_ascii_lowercase, is_ascii_digit, Unicode, rsplit_once, split, Result, ok, err, ◌>>=◌, ◌>>◌,
  join, Files, put, leb_str, sort_by, map_chars, join_words,
}

abbrev pub is_ascii_alphanumeric : Char → Bool
is_ascii_alphanumeric c = is_ascii_uppercase c || is_ascii_lowercase c || is_ascii_digit c

abbrev pub or_dash : Char → Char
or_dash c = if is_ascii_alphanumeric c then c else "-"

unfoldable pub slugify : Unicode → String → String
slugify u name =
    join_words "-"
      (keep_if (λ s. not (is_empty_str s)) (split b'-' (map_chars or_dash (u.to_lowercase name))))

abbrev pub preset_path : Unicode → String → String → String
preset_path u dir name = join dir (slugify u name ⧺ ".json")

-- the directory of the presets, and the files of the disk
pub record Store : Type 0 where
  pub dir_exists : Bool
  pub files : Files

pub record Faults : Type 0 where
  pub create_dir : Option String
  pub set_permissions : Option String
  pub write : Option String
  pub remove : Option String
  pub read_dir : Option String
  pub read : String → Option String

abbrev made : Option String → Option String → Store → Result PersistenceError (Unit {0}) × Store
made (some e) permissions s = (err (io e), s)
made none (some e) s = (err (io e), record s { dir_exists = true })
made none none s = (ok tt, record s { dir_exists = true })

abbrev pub create_dir_with_permissions : Faults → Store → Result PersistenceError (Unit {0}) × Store
create_dir_with_permissions f s =
    if not s.dir_exists then made f.create_dir f.set_permissions s else (ok tt, s)

-- `atomic_write`
abbrev pub put_preset :
    Option String → String → String → Store → Result PersistenceError (Unit {0}) × Store
put_preset (some e) path text s = (err (io e), s)
put_preset none path text s = (ok tt, record s { files = put path (some text) s.files })

abbrev pub encoded :
    Option String
    → String
    → Result String String
    → Store
    → Result PersistenceError (Unit {0}) × Store
encoded fault path (err e) s = (err (json e), s)
encoded fault path (ok text) s = put_preset fault path text s

module _ {N : Type 0} (u : Unicode) (dir : String) (f : Faults) where
  abbrev pub saved :
      Codec (Preset N)
      → Preset N
      → Result PersistenceError (Unit {0}) × Store
      → Result PersistenceError (Unit {0}) × Store
  saved codec preset (err e, s) = (err e, s)
  saved codec preset (ok _, s) =
      encoded f.write (preset_path u dir preset.name) (codec.encode preset) s

  unfoldable pub save_preset :
      Codec (Preset N) → Preset N → Store → Result PersistenceError (Unit {0}) × Store
  save_preset codec preset s = saved codec preset (create_dir_with_permissions f s)

module _ (u : Unicode) (dir : String) (f : Faults) where
  abbrev removed : Option String → String → Store → Result PersistenceError Bool × Store
  removed (some e) path s = (err (io e), s)
  removed none path s = (ok true, record s { files = put path none s.files })

  unfoldable pub delete_preset : String → Store → Result PersistenceError Bool × Store
  delete_preset name s =
      let path = preset_path u dir name in
      if is_some (s.files path) then removed f.remove path s else (ok false, s)

abbrev is_json : Option (String × String) → Bool
is_json none = false
is_json (some (stem, ext)) = not (is_empty_str stem) && str_eq ext "json"

-- `path.extension().is_some_and(…)`: what stands before the last dot is not empty
abbrev pub has_json_extension : String → Bool
has_json_extension name = is_json (rsplit_once b'.' name)

-- a preset that cannot be read back is left out
abbrev pub push_decoded {ℓ} : {A : Type ℓ} → Result String A → List A → List A
push_decoded (err e) presets = presets
push_decoded (ok p) presets = presets ++ p ∷ []

-- `fs::read_to_string`
abbrev pub read_to_string : Option String → Option String → Result PersistenceError String
read_to_string (some e) file = err (io e)
read_to_string none none = err (io "No such file or directory")
read_to_string none (some text) = ok text

abbrev pub by_name : {N : Type 0} → Preset N → Preset N → Bool
by_name a b = leb_str a.name b.name

module _ {N : Type 0} (codec : Codec (Preset N)) (dir : String) (f : Faults) (files : Files) where
  -- the loop over the entries, which the first error of the file system ends
  unfoldable pub load_entries :
      List (Result String String) → List (Preset N) → Result PersistenceError (List (Preset N))
  load_entries [] presets = ok presets
  load_entries (err e ∷ entries) presets = err (io e)
  load_entries (ok name ∷ entries) presets =
      let skipped = load_entries entries presets in
      if has_json_extension name
      then (do
        contents ← read_to_string (f.read (join dir name)) (files (join dir name))
        load_entries entries (push_decoded (codec.decode contents) presets))
      else skipped

  abbrev listed :
      Option String → List (Result String String) → Result PersistenceError (List (Preset N))
  listed (some e) entries = err (io e)
  listed none entries = load_entries entries []

module _ {N : Type 0} (codec : Codec (Preset N)) (dir : String) (f : Faults) where
  unfoldable pub load_custom_presets :
      List (Result String String) → Store → Result PersistenceError (List (Preset N))
  unfolding load_entries
  load_custom_presets entries s = if not s.dir_exists then ok [] else (do
    presets ← listed codec dir f s.files f.read_dir entries
    ok (sort_by by_name presets))
