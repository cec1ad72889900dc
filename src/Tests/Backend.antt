-- ===== src/Tests/Backend.antt =====
-- Runs of the search for a left process, of the geodata and of the detection of a backend.
use v2ray_rs.Models.Settings.{v2ray, xray, sing_box}
use v2ray_rs.Process.Pid.{ProcessTable, is_backend_process, write, check_and_kill_orphaned}
use v2ray_rs.Process.Pid.Orphans.{
  ListsPids, IsChecked, found_orphan, check_and_kill_orphaned_lem, check_and_kill_orphaned-write,
}
use v2ray_rs.Storage.Persistence.{Codec}
use v2ray_rs.Storage.Persistence.Subscriptions.{RoundTrips}
use v2ray_rs.Storage.Geodata.{
  GeodataError, unanswered, GeodataMetadata, Store, Answer, body, new, check_and_download,
  download_geodata, download_urls, has_geodata, needs_update, load_metadata,
}
use v2ray_rs.Storage.Geodata.Downloads.{checked_at}
use v2ray_rs.Storage.Geodata.Freshness.{
  CheckOutcome, no_faults, check_and_download_lem, check_and_download_again,
}
use v2ray_rs.Detection.{Machine, auto_select}
use v2ray_rs.Detection.Selection.{Selected, auto_select_lem}
use v2ray_rs.Tests.Samples.{ascii}
use v2ray_rs.Base.{
  ℕ, String, ◌≡◌, refl, ap, inl, inr, true, false, ◌&&◌, Option, none, some, [], ◌∷◌, arith, ◌==◌,
  if◌then◌else◌, ==_iff, Bool-cases, str_eq, Result, ok, err, pos,
}

abbrev cmdline : ℕ → Option String
cmdline pid = if pid == 42 then some "/usr/bin/xray" else none

abbrev table : ProcessTable
table = record { exists = λ z. true; cmdline = cmdline }

table-ListsPids : ListsPids table
table-ListsPids pid h = elim (Bool-cases (pid == 42)) [
  | inl e ↦ let here : pid ≡ 42 = (==_iff pid 42).0 e in rw here (omega arith, omega arith)
  | inr e ↦ absurd (h (rw e refl))
]

check_and_kill_orphaned_lem_example :
    IsChecked ascii table
      (some "42")
      (check_and_kill_orphaned ascii table none (some "busy") (some "42"))
check_and_kill_orphaned_lem_example =
    check_and_kill_orphaned_lem ascii table none (some "busy") (some "42") table-ListsPids

check_and_kill_orphaned-write_example :
    check_and_kill_orphaned ascii table none none (write none 42 (some "7")).1
    ≡ found_orphan (table.exists (pos 42) && is_backend_process ascii table 42) 42
check_and_kill_orphaned-write_example =
    check_and_kill_orphaned-write ascii table 42 (some "7") (omega arith)

-- a format for one record of a check
abbrev metadata_text : ℕ → Option String → Option String → Result String String
metadata_text n none none = if n == 100 then ok "{}" else err "unsupported"
metadata_text n geoip geosite = err "unsupported"

abbrev metadata_codec : Codec GeodataMetadata
metadata_codec = record {
  encode = λ m. metadata_text m.last_check m.geoip_version m.geosite_version;
  decode = λ s. if str_eq s "{}" then ok (checked_at 100) else err "syntax error";
}

abbrev text_of : Result String String → String
text_of (ok t) = t
text_of (err e) = e

metadata_read :
    (n : ℕ) (geoip geosite : Option String) (text : String)
    → metadata_text n geoip geosite ≡ ok text
    → metadata_codec.decode text
      ≡ ok (record { last_check = n; geoip_version = geoip; geosite_version = geosite })
metadata_read n none none text h = elim (Bool-cases (n == 100)) [
  | inl e ↦
      let written : "{}" ≡ text = ap text_of (rw e at h) in
      let n_100 : n ≡ 100 = (==_iff n 100).0 e in rw (← written, n_100) refl
  | inr e ↦ absurd (cc (rw e at h))
]
metadata_read n none (some s) text h = cc
metadata_read n (some g) geosite text h = cc

metadata_codec-RoundTrips : RoundTrips metadata_codec
metadata_codec-RoundTrips m text h =
    metadata_read m.last_check m.geoip_version m.geosite_version text h

abbrev empty_store : Store
empty_store = record { dir_exists = false; files = λ path. none }

abbrev web : String → Answer
web url = body "data"

abbrev first_check : Result GeodataError (Option GeodataMetadata) × Store
first_check =
    check_and_download (new "/data") metadata_codec no_faults web none 100 100 xray 3600 empty_store

check_and_download_lem_example :
    CheckOutcome "/data" metadata_codec no_faults web 100 100 xray 3600 empty_store first_check
check_and_download_lem_example =
    check_and_download_lem "/data" metadata_codec metadata_codec-RoundTrips no_faults web none 100
      100 xray 3600 empty_store

first_check-done : first_check ≡ (ok (some (checked_at 100)), first_check.1)
unfolding check_and_download download_geodata download_urls has_geodata needs_update load_metadata
first_check-done = refl

-- no request is answered at the second check
abbrev second_check : Result GeodataError (Option GeodataMetadata) × Store
second_check =
    check_and_download (new "/data") metadata_codec no_faults (λ url. unanswered "offline")
      (some "no client") 5000000100 6000000000 xray 3600 first_check.1

check_and_download_again_example : second_check ≡ (ok none, first_check.1)
check_and_download_again_example =
    check_and_download_again "/data" metadata_codec metadata_codec-RoundTrips no_faults no_faults
      web (λ url. unanswered "offline") none (some "no client") 100 100 5000000100 6000000000 xray
      3600 empty_store first_check.1 (checked_at 100) first_check-done (omega arith) (omega arith)
      (omega arith) refl

-- sing-box is found by `which`, and tells no version
abbrev machine : Machine
machine = record {
  exists = λ path. false;
  mode = λ path. none;
  which = λ name.
      if str_eq name "sing-box"
      then ok (record { success = true; status = "0"; stdout = "/opt/sing-box"; stderr = "" })
      else err "not found";
  run_version = λ path. err "permission denied";
}

auto_select_lem_example : Selected machine (v2ray ∷ xray ∷ sing_box ∷ []) (auto_select machine)
auto_select_lem_example = auto_select_lem machine
