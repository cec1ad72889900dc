-- ===== src/Storage/Geodata/Freshness.antt =====
-- crates/core/src/geodata.rs: `check_and_download`, and when it downloads again.
use mathlib.Core.Path.{subst}
use v2ray_rs.Models.Settings.{BackendType, v2ray, xray, sing_box}
use v2ray_rs.Storage.Persistence.{Codec}
use v2ray_rs.Storage.Persistence.Subscriptions.{RoundTrips}
use v2ray_rs.Storage.Geodata.{
  is_old, GeodataError, GeodataMetadata, GeodataDownload, Store, Faults, Answer, new, has_geodata,
  load_metadata, needs_update, ensure_dir, then_store, download_files, download_urls, built, noting,
  download_geodata, as_some, check_and_download,
}
use v2ray_rs.Storage.Geodata.Fresh.{IsFresh, tested, has_geodata-IsFresh, needs_update-IsFresh}
use v2ray_rs.Storage.Geodata.Downloads.{
  ensured, checked_at, Stored, FilesOutcome, NoteOutcome, download_files-outcome, noting-outcome,
}
use v2ray_rs.Base.{
  ℕ, ◌-◌, ◌/◌, ◌≤◌, ◌<◌, String, ◌≡◌, refl, sym, ap, ◌∙◌, ◌⊎◌, inl, inr, Bool, true, false, not,
  ◌&&◌, Option, none, some, arith, leb, if◌then◌else◌, All, str_eq, Result, ok, err, as_i64-pos,
  join, Files, put, put_self, put_other, join-str_eq,
}

module _ (dir : String) (codec : Codec GeodataMetadata) (web : String → Answer) where
  -- all files are as they were answered and the metadata is written, or the old metadata is kept
  abbrev DownloadOutcome :
      ℕ → BackendType → Store → Result GeodataError GeodataMetadata × Store → Type 0
  DownloadOutcome now backend s (r, s') =
      ((text : String) × (codec.encode (checked_at now) ≡ ok text)
        × (r ≡ ok (checked_at now))
        × (s'.files (new dir).metadata_path ≡ some text)
        × All (Stored (new dir).geodata_dir web s'.files) (download_urls backend))
      ⊎ ((e : GeodataError) × (r ≡ err e)
          × (s'.files (new dir).metadata_path ≡ s.files (new dir).metadata_path))

  Stored-put :
      (d : GeodataDownload) (text : String) (files : Files)
      → str_eq d.filename "metadata.json" ≡ false
      → Stored (new dir).geodata_dir web files d
      → Stored (new dir).geodata_dir web (put (new dir).metadata_path (some text) files) d
  Stored-put d text files h (bytes, a, k) = (
    bytes,
    a,
    put_other (new dir).metadata_path (join (new dir).geodata_dir d.filename) (some text) files
          (join-str_eq (new dir).geodata_dir d.filename "metadata.json" h)
        ∙ k,
  )

  All-put :
      (backend : BackendType) (text : String) (files : Files)
      → All (Stored (new dir).geodata_dir web files) (download_urls backend)
      → All
          (Stored (new dir).geodata_dir web (put (new dir).metadata_path (some text) files))
          (download_urls backend)
  unfolding download_urls
  All-put v2ray text files (a, (b, _)) =
      (Stored-put _ text files refl a, (Stored-put _ text files refl b, tt))
  All-put xray text files (a, (b, _)) =
      (Stored-put _ text files refl a, (Stored-put _ text files refl b, tt))
  All-put sing_box text files (a, (b, _)) =
      (Stored-put _ text files refl a, (Stored-put _ text files refl b, tt))

  module _ (f : Faults) where
    after_files :
        (now : ℕ) (backend : BackendType) (s s₁ : Store)
        (p : Result GeodataError (Unit {0}) × Store)
        → FilesOutcome dir codec f web (download_urls backend) s₁ p
        → s₁.files ≡ s.files
        → DownloadOutcome now backend s (then_store p (noting (new dir) codec f web now))
    after_files now backend s s₁ (err e, s₂) (_, k) h =
        inr (e, refl, k ∙ ap (λ (x : Files). x (new dir).metadata_path) h)
    after_files now backend s s₁ (ok tt, s₂) (inr (e, x), k) h = cc
    after_files now backend s s₁ (ok tt, s₂) (inl (_, stored), k) h =
        go (noting (new dir) codec f web now s₂) (noting-outcome dir codec f web now s₂)
      where
        go :
            (q : Result GeodataError GeodataMetadata × Store)
            → NoteOutcome dir codec f web now s₂.files q
            → DownloadOutcome now backend s q
        go (r, s₃) (inl (text, enc, done, written)) = inl (
          text,
          enc,
          done,
          ap (λ (x : Files). x (new dir).metadata_path) written
              ∙ put_self (new dir).metadata_path (some text) s₂.files,
          subst (λ x. All (Stored (new dir).geodata_dir web x) (download_urls backend))
              (sym written) (All-put backend text s₂.files stored),
        )
        go (r, s₃) (inr (e, failed, same)) = inr (
          e,
          failed,
          ap (λ (x : Files). x (new dir).metadata_path) same
              ∙ k
              ∙ ap (λ (x : Files). x (new dir).metadata_path) h,
        )

    download_geodata-outcome :
        (client_fault : Option String) (now : ℕ) (backend : BackendType) (s : Store)
        → DownloadOutcome now backend s
            (download_geodata (new dir) codec f web client_fault now backend s)
    unfolding download_geodata
    download_geodata-outcome client_fault now backend s = go (ensure_dir f s) refl client_fault
      where
        go :
            (p : Result GeodataError (Unit {0}) × Store)
            → ensure_dir f s ≡ p
            → (c : Option String)
            → DownloadOutcome now backend s (
                then_store p λ s₁. then_store (built (new dir) codec f web c s₁) λ s₂.
                  then_store
                    (download_files (new dir) codec f web (download_urls backend) s₂)
                    (noting (new dir) codec f web now))
        go (err e, s₁) h c =
            inr (e, refl, ap (λ (x : Files). x (new dir).metadata_path) (ensured f s h))
        go (ok tt, s₁) h (some reason) =
            inr (_, refl, ap (λ (x : Files). x (new dir).metadata_path) (ensured f s h))
        go (ok tt, s₁) h none =
            after_files now backend s s₁ _ (download_files-outcome dir codec f web backend s₁)
              (ensured f s h)

abbrev pub no_faults : Faults
no_faults = record { create_dir = none; set_permissions = none; read = none; write = λ _. none }

-- What `check_and_download` did: nothing, exactly if the files exist and the last check is recent; or
-- a download of all files; or a part of one, with the metadata as it was.
abbrev pub CheckOutcome :
    String
    → Codec GeodataMetadata
    → Faults
    → (String → Answer)
    → ℕ
    → ℕ
    → BackendType
    → ℕ
    → Store
    → Result GeodataError (Option GeodataMetadata) × Store
    → Type 0
CheckOutcome dir codec f web now later backend interval s (r, s') =
    (IsFresh dir codec f now backend interval s × (r ≡ ok none) × (s' ≡ s))
    ⊎ ((¬ IsFresh dir codec f now backend interval s)
        × (r ≡ ok (some (checked_at later)))
        × (load_metadata (new dir) codec no_faults s' ≡ ok (some (checked_at later)))
        × All (Stored (new dir).geodata_dir web s'.files) (download_urls backend))
    ⊎ ((¬ IsFresh dir codec f now backend interval s)
        × (e : GeodataError) × (r ≡ err e)
        × (s'.files (new dir).metadata_path ≡ s.files (new dir).metadata_path))

true-false : ¬ (true ≡ false)
true-false h = cc

-- the names of the downloads are those that are looked for
has_geodata-Stored :
    (dir : String) (web : String → Answer) (backend : BackendType) (s : Store)
    → All (Stored (new dir).geodata_dir web s.files) (download_urls backend)
    → has_geodata (new dir) backend s ≡ true
unfolding download_urls has_geodata
has_geodata-Stored dir web v2ray s ((_, _, a), ((_, _, b), _)) = rw (a, b) refl
has_geodata-Stored dir web xray s ((_, _, a), ((_, _, b), _)) = rw (a, b) refl
has_geodata-Stored dir web sing_box s ((_, _, a), ((_, _, b), _)) = rw (a, b) refl

module _ (dir : String) (codec : Codec GeodataMetadata) (back : RoundTrips codec) where
  loaded :
      (faults : Faults) (metadata : GeodataMetadata) (text : String) (s : Store)
      → faults.read ≡ none
      → codec.encode metadata ≡ ok text
      → s.files (new dir).metadata_path ≡ some text
      → load_metadata (new dir) codec faults s ≡ ok (some metadata)
  unfolding load_metadata
  loaded faults metadata text s h k l = rw (l, h, back metadata text k) refl

  checked :
      (f : Faults) (web : String → Answer) (now later : ℕ) (backend : BackendType) (interval : ℕ)
      (s : Store) (p : Result GeodataError GeodataMetadata × Store)
      → (¬ IsFresh dir codec f now backend interval s)
      → DownloadOutcome dir codec web later backend s p
      → CheckOutcome dir codec f web now later backend interval s (as_some (new dir) codec f web p)
  checked f web now later backend interval s (err e, s') old (inl (text, enc, done, l, k)) = cc
  checked f web now later backend interval s (err e, s') old (inr (_, _, k)) =
      inr (inr (old, e, refl, k))
  checked f web now later backend interval s (ok m, s') old (inr (e, x, k)) = cc
  checked f web now later backend interval s (ok m, s') old (inl (text, enc, done, l, k)) =
      let same : m ≡ checked_at later = cc in
      inr (
        inl (
          old,
          ap (λ (x : GeodataMetadata). ok (some x)) same,
          loaded no_faults (checked_at later) text s' refl enc l,
          k,
        ))

  -- With a format that reads back what it writes, `check_and_download` does nothing, if and only
  -- if the files exist and the last check can be read and is recent. Otherwise it stores the answers
  -- of all requests and the time of the check, or it fails and leaves the metadata as it was.
  pub check_and_download_lem :
      (f : Faults) (web : String → Answer) (client_fault : Option String) (now later : ℕ)
      (backend : BackendType) (interval : ℕ) (s : Store)
      → CheckOutcome dir codec f web now later backend interval s
          (check_and_download (new dir) codec f web client_fault now later backend interval s)
  unfolding check_and_download
  check_and_download_lem f web client_fault now later backend interval s =
      go (has_geodata (new dir) backend s) (needs_update (new dir) codec f now interval s) refl refl
    where
      downloaded :
          (¬ IsFresh dir codec f now backend interval s)
          → CheckOutcome dir codec f web now later backend interval s (
              as_some
                (new dir)
                codec
                f
                web
                (download_geodata (new dir) codec f web client_fault later backend s))
      downloaded old =
          checked f web now later backend interval s _ old
            (download_geodata-outcome dir codec web f client_fault later backend s)

      go :
          (has needs : Bool)
          → has_geodata (new dir) backend s ≡ has
          → needs_update (new dir) codec f now interval s ≡ needs
          → CheckOutcome dir codec f web now later backend interval s (
              if has && not needs
              then (ok none, s)
              else as_some
                  (new dir)
                  codec
                  f
                  web
                  (download_geodata (new dir) codec f web client_fault later backend s))
      go true false h k = inl (tested dir codec f now interval s backend h k, refl, refl)
      go true true h k = downloaded λ fresh.
          true-false (sym k ∙ needs_update-IsFresh dir codec f now interval s backend fresh)
      go false needs h k = downloaded λ fresh.
          true-false (sym (has_geodata-IsFresh dir codec f now interval s backend fresh) ∙ h)

  unread :
      (f : Faults) (s : Store)
      → f.read ≡ none
      → load_metadata (new dir) codec f s ≡ load_metadata (new dir) codec no_faults s
  unfolding load_metadata
  unread f s h = rw h refl

  is_old-recent :
      (again later interval : ℕ)
      → later ≤ again
      → (again - later) / 1000000000 < interval
      → interval < 0x8000000000000000
      → is_old (new dir) codec no_faults again interval (ok (some (checked_at later))) ≡ false
  is_old-recent again later interval h k l =
      let ordered : leb later again ≡ true = ground arith in
      let small : leb interval ((again - later) / 1000000000) ≡ false = ground arith in
      rw (as_i64-pos interval l, ordered) small

  -- After a check that downloaded, a check by the same backend does nothing, whatever the network and
  -- the other system calls would do, as long as fewer seconds than the interval have passed and the
  -- metadata can be read. The interval is below 2^63 and the format reads back what it writes.
  pub check_and_download_again :
      (f f' : Faults) (web web' : String → Answer) (c c' : Option String) (now later again : ℕ)
      (after : ℕ) (backend : BackendType) (interval : ℕ) (s s' : Store) (m : GeodataMetadata)
      → check_and_download (new dir) codec f web c now later backend interval s ≡ (ok (some m), s')
      → later ≤ again
      → (again - later) / 1000000000 < interval
      → interval < 0x8000000000000000
      → f'.read ≡ none
      → check_and_download (new dir) codec f' web' c' again after backend interval s'
        ≡ (ok none, s')
  unfolding check_and_download needs_update
  check_and_download_again f f' web web' c c' now later again after backend interval s s' m e order
        recent small readable =
      go (
        subst (CheckOutcome dir codec f web now later backend interval s) e
          (check_and_download_lem f web c now later backend interval s))
    where
      go :
          CheckOutcome dir codec f web now later backend interval s (ok (some m), s')
          → check_and_download (new dir) codec f' web' c' again after backend interval s'
            ≡ (ok none, s')
      go (inl (_, x, _)) = cc
      go (inr (inr (_, x, y, _))) = cc
      go (inr (inl (_, _, l, stored))) =
          rw
            (
              has_geodata-Stored dir web backend s' stored,
              unread f' s' readable,
              l,
              is_old-recent again later interval order recent small,
            )
            refl
