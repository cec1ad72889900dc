-- ===== src/Storage/Geodata.antt =====
-- crates/core/src/geodata.rs: the geographic databases of the backends, when they are downloaded
-- again, and the record of the last check. The network, the clock, the format of serde_json and
-- failing system calls are arguments. Files are written to a temporary file that is renamed, so a
-- write that fails leaves the file as it was.
pub mod Downloads
pub mod Fresh
pub mod Freshness
use v2ray_rs.Models.Settings.{BackendType, v2ray, xray, sing_box}
use v2ray_rs.Storage.Persistence.{Codec}
use v2ray_rs.Base.{
  ℕ, ◌-◌, ◌/◌, String, Bool, true, not, ◌&&◌, Option, none, some, List, [], ◌∷◌, leb, ◌==◌,
  if◌then◌else◌, is_some, ◌⧺◌, Result, ok, err, ◌>>=◌, ◌>>◌, map_err, ℤ, pos, negsuc, as_i64, leb_ℤ,
  join, Files, put,
}

pub data GeodataError : Type 0 where
  download : String → String → GeodataError
  io : String → GeodataError
  json : String → GeodataError

-- an instant: the nanoseconds since the first one that chrono can represent
pub record GeodataMetadata : Type 0 where
  pub last_check : ℕ
  pub geoip_version : Option String
  pub geosite_version : Option String

pub record GeodataDownload : Type 0 where
  pub url : String
  pub filename : String

pub record GeodataManager : Type 0 where
  pub geodata_dir : String
  pub metadata_path : String

-- `AppPaths::geodata_dir` of the data directory
abbrev pub new : String → GeodataManager
new data_dir = record {
  geodata_dir = join data_dir "geodata";
  metadata_path = join (join data_dir "geodata") "metadata.json";
}

abbrev pub geoip_name : BackendType → String
geoip_name v2ray = "geoip.dat"
geoip_name xray = "geoip.dat"
geoip_name sing_box = "geoip.db"

abbrev pub geosite_name : BackendType → String
geosite_name v2ray = "geosite.dat"
geosite_name xray = "geosite.dat"
geosite_name sing_box = "geosite.db"

-- whether the directory exists, and the files
pub record Store : Type 0 where
  pub dir_exists : Bool
  pub files : Files

-- the system calls that fail in a call
pub record Faults : Type 0 where
  pub create_dir : Option String
  pub set_permissions : Option String
  pub read : Option String
  pub write : String → Option String

abbrev chmod : Option String → Store → Result GeodataError (Unit {0}) × Store
chmod none s = (ok tt, s)
chmod (some e) s = (err (io e), s)

abbrev mkdir : Option String → Option String → Store → Result GeodataError (Unit {0}) × Store
mkdir (some e) permissions s = (err (io e), s)
mkdir none permissions s = chmod permissions (record s { dir_exists = true })

abbrev pub ensure_dir : Faults → Store → Result GeodataError (Unit {0}) × Store
ensure_dir f s = if not s.dir_exists then mkdir f.create_dir f.set_permissions s else (ok tt, s)

-- creating the temporary file, writing and renaming it
abbrev pub store_file :
    Option String → String → String → Store → Result GeodataError (Unit {0}) × Store
store_file none path content s = (ok tt, record s { files = put path (some content) s.files })
store_file (some e) path content s = (err (io e), s)

-- `?` on a call that changes the store
abbrev pub then_store {ℓ} :
    {A : Type ℓ}
    → Result GeodataError (Unit {0}) × Store
    → (Store → Result GeodataError A × Store)
    → Result GeodataError A × Store
then_store (err e, s) k = (err e, s)
then_store (ok _, s) k = k s

-- What a request gives: no answer, a status that is no success, a body that breaks off, or a body.
pub data Answer : Type 0 where
  unanswered : String → Answer
  refused : (status : String) → Answer
  broken : String → Answer
  body : String → Answer

abbrev pub content_of : String → Answer → Result GeodataError String
content_of url (unanswered reason) = err (download url reason)
content_of url (refused status) = err (download url ("HTTP " ⧺ status))
content_of url (broken reason) = err (download url reason)
content_of url (body bytes) = ok bytes

unfoldable pub download_urls : BackendType → List GeodataDownload
download_urls sing_box =
    record {
      url = "https://github.com/SagerNet/sing-geoip/releases/latest/download/geoip.db";
      filename = "geoip.db";
    }
    ∷ record {
      url = "https://github.com/SagerNet/sing-geosite/releases/latest/download/geosite.db";
      filename = "geosite.db";
    }
    ∷ []
download_urls _ =
    record {
      url = "https://github.com/v2fly/geoip/releases/latest/download/geoip.dat";
      filename = "geoip.dat";
    }
    ∷ record {
      url = "https://github.com/v2fly/domain-list-community/releases/latest/download/dlc.dat";
      filename = "geosite.dat";
    }
    ∷ []

-- `num_seconds` of `now - last`, which is cut off towards zero
abbrev pub seconds_since : ℕ → ℕ → ℤ
seconds_since now last =
    if leb last now
    then pos ((now - last) / 1000000000)
    else (let behind = (last - now) / 1000000000 in
        if behind == 0 then pos 0 else negsuc (behind - 1))

module _ (m : GeodataManager) where
  abbrev pub geoip_path : BackendType → String
  geoip_path backend = join m.geodata_dir (geoip_name backend)

  abbrev pub geosite_path : BackendType → String
  geosite_path backend = join m.geodata_dir (geosite_name backend)

  unfoldable pub has_geodata : BackendType → Store → Bool
  has_geodata backend s =
      is_some (s.files (geoip_path backend)) && is_some (s.files (geosite_path backend))

  module _ (codec : Codec GeodataMetadata) (f : Faults) where
    abbrev read_metadata :
        Option String → Option String → Result GeodataError (Option GeodataMetadata)
    read_metadata none fault = ok none
    read_metadata (some text) (some e) = err (io e)
    read_metadata (some text) none = do
      metadata ← map_err json (codec.decode text)
      ok (some metadata)

    unfoldable pub load_metadata : Store → Result GeodataError (Option GeodataMetadata)
    load_metadata s = read_metadata (s.files m.metadata_path) f.read

    abbrev write_metadata : Result String String → Store → Result GeodataError (Unit {0}) × Store
    write_metadata (err e) s = (err (json e), s)
    write_metadata (ok text) s = store_file (f.write m.metadata_path) m.metadata_path text s

    unfoldable pub save_metadata : GeodataMetadata → Store → Result GeodataError (Unit {0}) × Store
    save_metadata metadata s = then_store (ensure_dir f s) (write_metadata (codec.encode metadata))

    abbrev pub is_old : ℕ → ℕ → Result GeodataError (Option GeodataMetadata) → Bool
    is_old now interval (ok (some metadata)) =
        leb_ℤ (as_i64 interval) (seconds_since now metadata.last_check)
    is_old now interval _ = true

    unfoldable pub needs_update : ℕ → ℕ → Store → Bool
    unfolding load_metadata
    needs_update now interval s = is_old now interval (load_metadata s)

    module _ (web : String → Answer) where
      abbrev store_content :
          String → Result GeodataError String → Store → Result GeodataError (Unit {0}) × Store
      store_content target (err e) s = (err e, s)
      store_content target (ok bytes) s = store_file (f.write target) target bytes s

      -- the loop of `download_geodata`, which the first error ends
      unfoldable pub download_files :
          List GeodataDownload → Store → Result GeodataError (Unit {0}) × Store
      download_files [] s = (ok tt, s)
      download_files (d ∷ ds) s =
          then_store
            (store_content (join m.geodata_dir d.filename) (content_of d.url (web d.url)) s)
            (download_files ds)

      abbrev built : Option String → Store → Result GeodataError (Unit {0}) × Store
      built none s = (ok tt, s)
      built (some reason) s = (err (download "" reason), s)

      abbrev noting : ℕ → Store → Result GeodataError GeodataMetadata × Store
      noting now s =
          let metadata : GeodataMetadata = record {
            last_check = now;
            geoip_version = none;
            geosite_version = none;
          } in
          then_store (save_metadata metadata s) (λ s'. (ok metadata, s'))

      -- `client_fault`: the client could not be built
      unfoldable pub download_geodata :
          Option String → ℕ → BackendType → Store → Result GeodataError GeodataMetadata × Store
      unfolding download_files save_metadata download_urls
      download_geodata client_fault now backend s = then_store (ensure_dir f s) λ s₁.
          then_store (built client_fault s₁)
            λ s₂. then_store (download_files (download_urls backend) s₂) (noting now)

      abbrev as_some :
          Result GeodataError GeodataMetadata × Store
          → Result GeodataError (Option GeodataMetadata) × Store
      as_some (err e, s) = (err e, s)
      as_some (ok metadata, s) = (ok (some metadata), s)

      -- `now` is the clock when the age is tested, `later` when the metadata is made
      unfoldable pub check_and_download :
          Option String
          → ℕ
          → ℕ
          → BackendType
          → ℕ
          → Store
          → Result GeodataError (Option GeodataMetadata) × Store
      check_and_download client_fault now later backend interval s =
          if has_geodata backend s && not (needs_update now interval s)
          then (ok none, s)
          else as_some (download_geodata client_fault later backend s)
