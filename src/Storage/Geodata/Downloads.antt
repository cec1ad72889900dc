-- ===== src/Storage/Geodata/Downloads.antt =====
-- crates/core/src/geodata.rs: what a download leaves on the disk, whichever of its steps fails.
use v2ray_rs.Storage.Persistence.{Codec}
use mathlib.Core.Path.{subst}
use v2ray_rs.Models.Settings.{BackendType, v2ray, xray, sing_box}
use v2ray_rs.Storage.Geodata.{
  new, body, save_metadata, download_files, download_urls, noting, content_of, GeodataDownload,
  write_metadata, GeodataError, GeodataMetadata, GeodataManager, Store, Faults, Answer, ensure_dir,
  store_file, then_store, mkdir, store_content,
}
use v2ray_rs.Base.{
  ℕ, String, ◌≡◌, refl, sym, ap, ◌∙◌, ◌⊎◌, inl, inr, Bool, true, false, not, Option, none, some,
  List, [], ◌∷◌, if◌then◌else◌, All, str_eq, Result, ok, err, join, Files, put, put_self, put_other,
  join-str_eq,
}

-- creating the directory writes no file
ensure_dir-files : (f : Faults) (s : Store) → (ensure_dir f s).1.files ≡ s.files
ensure_dir-files f s = go s.dir_exists f.create_dir f.set_permissions
  where
    go :
        (b : Bool) (c p : Option String)
        → (if not b then mkdir c p s else (ok tt, s)).1.files ≡ s.files
    go true c p = refl
    go false (some e) p = refl
    go false none (some e) = refl
    go false none none = refl

pub ensured :
    (f : Faults) (s : Store) {r : Result GeodataError (Unit {0})} {s' : Store}
    → ensure_dir f s ≡ (r, s')
    → s'.files ≡ s.files
ensured f s h =
    sym (ap (λ (q : Result GeodataError (Unit {0}) × Store). q.1.files) h) ∙ ensure_dir-files f s

-- a file is written with what the request gave, or nothing is
store_content_cases :
    (m : GeodataManager) (codec : Codec GeodataMetadata) (f : Faults) (web : String → Answer)
    (target : String) (r : Result GeodataError String) (s : Store)
    → ((bytes : String) × (r ≡ ok bytes)
        × (store_content m codec f web target r s
            ≡ (ok tt, record s { files = put target (some bytes) s.files })))
      ⊎ ((e : GeodataError) × (store_content m codec f web target r s ≡ (err e, s)))
store_content_cases m codec f web target (err e) s = inr (e, refl)
store_content_cases m codec f web target (ok bytes) s = go (f.write target)
  where
    go :
        (o : Option String)
        → ((b : String) × (◌≡◌ {A = Result GeodataError String} (ok bytes) (ok b))
            × (store_file o target bytes s
                ≡ (ok tt, record s { files = put target (some b) s.files })))
          ⊎ ((e : GeodataError) × (store_file o target bytes s ≡ (err e, s)))
    go none = inl (bytes, refl, refl)
    go (some e) = inr (_, refl)

-- what `download_geodata` notes
abbrev pub checked_at : ℕ → GeodataMetadata
checked_at now = record { last_check = now; geoip_version = none; geosite_version = none }

-- a file that was asked for holds the answer
abbrev pub Stored : String → (String → Answer) → Files → GeodataDownload → Type 0
Stored dir web files d =
    (bytes : String) × (web d.url ≡ body bytes) × (files (join dir d.filename) ≡ some bytes)

content_of-body :
    (url : String) (a : Answer) (bytes : String) → content_of url a ≡ ok bytes → a ≡ body bytes
content_of-body url (body b) bytes h = cc
content_of-body url (Answer.unanswered x) bytes h = cc
content_of-body url (Answer.refused x) bytes h = cc
content_of-body url (Answer.broken x) bytes h = cc

module _ (dir : String) (codec : Codec GeodataMetadata) (f : Faults) (web : String → Answer) where
  abbrev pub manager : GeodataManager
  manager = new dir

  -- the downloads all succeed, or one fails; the metadata is left in either case
  abbrev pub FilesOutcome :
      List GeodataDownload → Store → Result GeodataError (Unit {0}) × Store → Type 0
  FilesOutcome ds s (r, s') =
      ((r ≡ ok tt) × All (Stored manager.geodata_dir web s'.files) ds
        ⊎ ((e : GeodataError) × (r ≡ err e)))
      × (s'.files manager.metadata_path ≡ s.files manager.metadata_path)

  two_downloads :
      (d₁ d₂ : GeodataDownload) (s : Store)
      → str_eq d₁.filename d₂.filename ≡ false
      → str_eq "metadata.json" d₁.filename ≡ false
      → str_eq "metadata.json" d₂.filename ≡ false
      → FilesOutcome (d₁ ∷ d₂ ∷ []) s (download_files manager codec f web (d₁ ∷ d₂ ∷ []) s)
  unfolding download_files
  two_downloads d₁ d₂ s apart m₁ m₂ =
      let at = join manager.geodata_dir in
      let get = λ (d : GeodataDownload). content_of d.url (web d.url) in
      elim (store_content_cases manager codec f web (at d₁.filename) (get d₁) s) [
        | inr (e, h) ↦ rw h (inr (e, refl), refl)
        | inl (a, ha, h) ↦
            let s₁ : Store = record s { files = put (at d₁.filename) (some a) s.files } in
            let kept =
              put_other (at d₁.filename) manager.metadata_path (some a) s.files
                (join-str_eq manager.geodata_dir "metadata.json" d₁.filename m₁) in
            elim (store_content_cases manager codec f web (at d₂.filename) (get d₂) s₁) [
              | inr (e, h') ↦ rw (h, h') (inr (e, refl), kept)
              | inl (b, hb, h') ↦
                  let first =
                    put_other (at d₂.filename) (at d₁.filename) (some b) s₁.files
                      (join-str_eq manager.geodata_dir d₁.filename d₂.filename apart)
                    ∙ put_self (at d₁.filename) (some a) s.files in
                  let second = put_self (at d₂.filename) (some b) s₁.files in
                  rw (h, h')
                    (
                      inl (
                        refl,
                        (
                          (a, content_of-body d₁.url (web d₁.url) a ha, first),
                          ((b, content_of-body d₂.url (web d₂.url) b hb, second), tt),
                        ),
                      ),
                      put_other (at d₂.filename) manager.metadata_path (some b) s₁.files
                            (join-str_eq manager.geodata_dir "metadata.json" d₂.filename m₂)
                          ∙ kept,
                    )
            ]
      ]

  pub download_files-outcome :
      (backend : BackendType) (s : Store)
      → FilesOutcome
          (download_urls backend)
          s
          (download_files manager codec f web (download_urls backend) s)
  unfolding download_urls
  download_files-outcome v2ray s = two_downloads _ _ s refl refl refl
  download_files-outcome xray s = two_downloads _ _ s refl refl refl
  download_files-outcome sing_box s = two_downloads _ _ s refl refl refl

  abbrev pub NoteOutcome : ℕ → Files → Result GeodataError GeodataMetadata × Store → Type 0
  NoteOutcome now files (r, s') =
      ((text : String) × (codec.encode (checked_at now) ≡ ok text)
        × (r ≡ ok (checked_at now))
        × (s'.files ≡ put manager.metadata_path (some text) files))
      ⊎ ((e : GeodataError) × (r ≡ err e) × (s'.files ≡ files))

  written_metadata :
      (now : ℕ) (s : Store) (r : Result String String)
      → codec.encode (checked_at now) ≡ r
      → NoteOutcome now s.files
          (then_store (write_metadata manager codec f r s) (λ s'. (ok (checked_at now), s')))
  written_metadata now s (err e) h = inr (_, refl, refl)
  written_metadata now s (ok text) h = go (f.write manager.metadata_path)
    where
      go :
          (o : Option String)
          → NoteOutcome now s.files (
              then_store
                (store_file o manager.metadata_path text s)
                (λ s'. (ok (checked_at now), s')))
      go none = inl (text, h, refl, refl)
      go (some e) = inr (_, refl, refl)

  pub noting-outcome :
      (now : ℕ) (s : Store) → NoteOutcome now s.files (noting manager codec f web now s)
  unfolding save_metadata
  noting-outcome now s = go (ensure_dir f s) refl
    where
      go :
          (p : Result GeodataError (Unit {0}) × Store)
          → ensure_dir f s ≡ p
          → NoteOutcome now s.files (
              then_store
                (then_store p (write_metadata manager codec f (codec.encode (checked_at now))))
                (λ s'. (ok (checked_at now), s')))
      go (err e, s') h = inr (e, refl, ensured f s h)
      go (ok tt, s') h =
          subst
            (λ files. NoteOutcome now files (
              then_store (write_metadata manager codec f (codec.encode (checked_at now)) s')
                (λ s'. (ok (checked_at now), s'))))
            (ensured f s h) (written_metadata now s' (codec.encode (checked_at now)) refl)
