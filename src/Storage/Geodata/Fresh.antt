-- ===== src/Storage/Geodata/Fresh.antt =====
-- crates/core/src/geodata.rs: when the files of a backend are fresh, and the test that the code makes.
use v2ray_rs.Models.Settings.{BackendType, v2ray, xray, sing_box}
use v2ray_rs.Storage.Persistence.{Codec}
use v2ray_rs.Storage.Geodata.{
  GeodataError, GeodataManager, GeodataMetadata, GeodataDownload, Store, Faults, new, has_geodata,
  load_metadata, needs_update, is_old, download_urls, seconds_since,
}
use v2ray_rs.Base.{
  ℕ, String, ◌≡◌, refl, ap, ◌∙◌, Bool, true, false, ◌&&◌, Option, none, some, is_some, All, Result,
  ok, err, as_i64, leb_ℤ, join,
}

-- Both files of the backend exist, and the record of the last check can be read and is younger than
-- the interval, which is taken as 64 bits with a sign.
abbrev pub IsFresh : String → Codec GeodataMetadata → Faults → ℕ → BackendType → ℕ → Store → Type 0
IsFresh dir codec f now backend interval s =
    All (λ (d : GeodataDownload). is_some (s.files (join (new dir).geodata_dir d.filename)) ≡ true)
      (download_urls backend)
    × (metadata : GeodataMetadata) × (load_metadata (new dir) codec f s ≡ ok (some metadata))
    × (leb_ℤ (as_i64 interval) (seconds_since now metadata.last_check) ≡ false)

both : (x y : Bool) → x && y ≡ true → (x ≡ true) × (y ≡ true)
both true true h = (refl, refl)
both true false h = cc
both false y h = cc

recent_record :
    (m : GeodataManager) (codec : Codec GeodataMetadata) (f : Faults) (now interval : ℕ)
    (r : Result GeodataError (Option GeodataMetadata))
    → is_old m codec f now interval r ≡ false
    → (metadata : GeodataMetadata) × (r ≡ ok (some metadata))
      × (leb_ℤ (as_i64 interval) (seconds_since now metadata.last_check) ≡ false)
recent_record m codec f now interval (err e) h = cc
recent_record m codec f now interval (ok none) h = cc
recent_record m codec f now interval (ok (some metadata)) h = (metadata, refl, h)

module _ (dir : String) (codec : Codec GeodataMetadata) (f : Faults) (now interval : ℕ)
    (s : Store) where
  found_files :
      (backend : BackendType)
      → has_geodata (new dir) backend s ≡ true
      → All
          (λ (d : GeodataDownload).
            is_some (s.files (join (new dir).geodata_dir d.filename)) ≡ true)
          (download_urls backend)
  unfolding has_geodata download_urls
  found_files v2ray h = let (a, b) = both _ _ h in (a, (b, tt))
  found_files xray h = let (a, b) = both _ _ h in (a, (b, tt))
  found_files sing_box h = let (a, b) = both _ _ h in (a, (b, tt))

  pub tested :
      (backend : BackendType)
      → has_geodata (new dir) backend s ≡ true
      → needs_update (new dir) codec f now interval s ≡ false
      → IsFresh dir codec f now backend interval s
  unfolding needs_update
  tested backend h k =
      let (metadata, l, recent) =
        recent_record (new dir) codec f now interval (load_metadata (new dir) codec f s) k in
      (found_files backend h, metadata, l, recent)

  pub has_geodata-IsFresh :
      (backend : BackendType)
      → IsFresh dir codec f now backend interval s
      → has_geodata (new dir) backend s ≡ true
  unfolding has_geodata download_urls
  has_geodata-IsFresh v2ray ((a, (b, _)), _, _, _) = rw (a, b) refl
  has_geodata-IsFresh xray ((a, (b, _)), _, _, _) = rw (a, b) refl
  has_geodata-IsFresh sing_box ((a, (b, _)), _, _, _) = rw (a, b) refl

  pub needs_update-IsFresh :
      (backend : BackendType)
      → IsFresh dir codec f now backend interval s
      → needs_update (new dir) codec f now interval s ≡ false
  unfolding needs_update
  needs_update-IsFresh backend (_, metadata, l, h) =
      ap (is_old (new dir) codec f now interval) l ∙ h
