-- ===== src/Detection.antt =====
-- crates/core/src/backend.rs: the search for the programs of the backends. The file system and the
-- runs of `which` and of the programs are arguments.
pub mod Selection
use Prim.Native.Nat.{bit_and}
use v2ray_rs.Models.Settings.{BackendType, v2ray, xray, sing_box}
use v2ray_rs.Base.{
  ℕ, code, String, Bool, false, not, ◌&&◌, Option, none, some, List, [], ◌∷◌, map, ◌==◌,
  if◌then◌else◌, ◌⧺◌, is_empty_str, trim, Result, ok, err, to_option, join_words, lines,
}

pub data BackendError : Type 0 where
  none_found : BackendError
  not_found : String → BackendError
  not_executable : String → BackendError
  execution_failed : String → String → BackendError
  version_detection_failed : String → String → BackendError

pub record DetectedBackend : Type 0 where
  pub backend_type : BackendType
  pub binary_path : String
  pub version : Option String

-- a program that ran: its status, and what it printed, decoded
pub record Output : Type 0 where
  pub success : Bool
  pub status : String
  pub stdout : String
  pub stderr : String

-- `mode` is the permissions of a file whose metadata can be read
pub record Machine : Type 0 where
  pub exists : String → Bool
  pub mode : String → Option ℕ
  pub which : String → Result String Output
  pub run_version : String → Result String Output

unfoldable pub backend_name : BackendType → String
backend_name v2ray = "v2ray"
backend_name xray = "xray"
backend_name sing_box = "sing-box"

abbrev pub display_version : String → String → Option String → String
display_version name path none = name ⧺ " at " ⧺ path
display_version name path (some v) = name ⧺ " (" ⧺ v ⧺ ") at " ⧺ path

unfoldable pub display : DetectedBackend → String
unfolding backend_name
display d = display_version (backend_name d.backend_type) d.binary_path d.version

abbrev pub usr_bin : BackendType → String
usr_bin bt = "/usr/bin/" ⧺ backend_name bt

abbrev pub usr_local_bin : BackendType → String
usr_local_bin bt = "/usr/local/bin/" ⧺ backend_name bt

abbrev pub well_known_paths : BackendType → List String
well_known_paths bt = usr_bin bt ∷ usr_local_bin bt ∷ []

-- `mode & 0o111 != 0`
abbrev pub any_execute : Option ℕ → Bool
any_execute none = false
any_execute (some mode) = not (bit_and mode 0x49 == 0)

-- what a run of `which` names
abbrev pub named_path : Result String Output → Option String
named_path (err e) = none
named_path (ok o) =
    if o.success then (let s = trim o.stdout in if is_empty_str s then none else some s) else none

abbrev pub first_line : List String → String → String
first_line [] text = text
first_line (l ∷ ls) text = l

abbrev pub version_of : String → Result String Output → Result BackendError String
version_of path (err reason) = err (execution_failed path reason)
version_of path (ok o) =
    if not o.success
    then (let stderr = trim o.stderr in
        err (
          version_detection_failed path
            (if is_empty_str stderr then "exit code " ⧺ o.status else stderr)))
    else (let stdout = trim o.stdout in
        if is_empty_str stdout
        then err (version_detection_failed path "empty version output")
        else ok (first_line (lines stdout) stdout))

module _ (m : Machine) where
  unfoldable pub is_executable : String → Bool
  is_executable path = any_execute (m.mode path)

  unfoldable pub find_in_path : String → Option String
  find_in_path name = named_path (m.which name)

  unfoldable pub detect_version : String → Result BackendError String
  detect_version path = version_of path (m.run_version path)

  -- the loop over the well known paths
  abbrev pub first_usable : List String → Option String
  first_usable [] = none
  first_usable (path ∷ paths) =
      if m.exists path && is_executable path then some path else first_usable paths

  abbrev or_in_path : BackendType → Option String → Option String
  or_in_path bt (some path) = some path
  or_in_path bt none = find_in_path (backend_name bt)

  unfoldable pub detect_binary : BackendType → Option String
  detect_binary bt = or_in_path bt (first_usable (well_known_paths bt))

  abbrev detected : BackendType → String → DetectedBackend
  detected bt path = record {
    backend_type = bt;
    binary_path = path;
    version = to_option (detect_version path);
  }

  abbrev pub with_version : BackendType → Option String → Result BackendError DetectedBackend
  with_version bt none = err (not_found (backend_name bt))
  with_version bt (some path) = ok (detected bt path)

  unfoldable pub detect_single : BackendType → Result BackendError DetectedBackend
  detect_single bt = with_version bt (detect_binary bt)

  abbrev pub backend_types : List BackendType
  backend_types = v2ray ∷ xray ∷ sing_box ∷ []

  -- `filter_map(|bt| detect_single(bt).ok())`
  abbrev pub keep_detected :
      Result BackendError DetectedBackend → List DetectedBackend → List DetectedBackend
  keep_detected (err e) ds = ds
  keep_detected (ok d) ds = d ∷ ds

  abbrev pub detect_each : List BackendType → List DetectedBackend
  detect_each [] = []
  detect_each (bt ∷ bts) = keep_detected (detect_single bt) (detect_each bts)

  unfoldable pub detect_all : List DetectedBackend
  detect_all = detect_each backend_types

  abbrev pub first_of : List DetectedBackend → Result BackendError DetectedBackend
  first_of [] = err none_found
  first_of (d ∷ ds) = ok d

  unfoldable pub auto_select : Result BackendError DetectedBackend
  unfolding detect_all
  auto_select = first_of detect_all

  abbrev pub unless_empty : List DetectedBackend → Result BackendError (List DetectedBackend)
  unless_empty [] = err none_found
  unless_empty (d ∷ ds) = ok (d ∷ ds)

  unfoldable pub detect_all_or_error : Result BackendError (List DetectedBackend)
  unfolding detect_all
  detect_all_or_error = unless_empty detect_all

  unfoldable pub validate_custom_path : String → BackendType → Result BackendError DetectedBackend
  validate_custom_path path bt =
      if not (m.exists path)
      then err (not_found path)
      else if not (is_executable path)
      then err (not_executable path)
      else ok (detected bt path)

unfoldable pub install_guidance : BackendType → String
install_guidance v2ray =
    "Install v2ray:\n  Arch Linux: sudo pacman -S v2ray\n  Debian/Ubuntu: sudo apt install v2ray\n  Manual: https://github.com/v2fly/v2ray-core/releases"
install_guidance xray =
    "Install xray:\n  Arch Linux: yay -S xray (AUR)\n  Script: bash -c \"$(curl -L https://github.com/XTLS/Xray-install/raw/main/install-release.sh)\"\n  Manual: https://github.com/XTLS/Xray-core/releases"
install_guidance sing_box =
    "Install sing-box:\n  Arch Linux: sudo pacman -S sing-box\n  Manual: https://github.com/SagerNet/sing-box/releases"

unfoldable pub all_install_guidance : String
unfolding install_guidance
all_install_guidance = join_words "\n\n" (map install_guidance (v2ray ∷ xray ∷ sing_box ∷ []))
