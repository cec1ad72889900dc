-- ===== src/Storage/CustomPresets/Reloading.antt =====
-- crates/core/src/persistence.rs: what is loaded after a preset was saved.
use mathlib.Core.Path.{subst}
use mathlib.Core.List.{Mem}
use mathlib.Core.List.Memᴰ
use mathlib.Core.List.Perm
use v2ray_rs.Models.Presets.{Preset}
use v2ray_rs.Storage.Persistence.{PersistenceError, Codec}
use v2ray_rs.Storage.Persistence.Subscriptions.{RoundTrips}
use v2ray_rs.Storage.CustomPresets.{
  made, preset_path, encoded, saved, slugify, preset_path, Store, Faults, encoded, saved,
  save_preset, has_json_extension, push_decoded, load_entries, load_custom_presets, by_name, made,
}
use v2ray_rs.Base.{
  String, ◌≡◌, refl, ◌⊎◌, inl, inr, Bool, true, false, not, Option, none, some, List, [], ◌∷◌, Memᴰ,
  if◌then◌else◌, Bool-cases, Option-cases, is_some, All, ◌⧺◌, is_empty_str, Unicode, Result, ok,
  err, rsplit_once-append, join, Files, put_self, leb_str_total, leb_str_trans, sort_by, IsSorted,
  sort_by-perm, sort_by-IsSorted,
}

abbrev pub file_name : Unicode → String → String
file_name u name = slugify u name ⧺ ".json"

nonempty-json : (s : String) → is_empty_str s ≡ false → has_json_extension (s ⧺ ".json") ≡ true
nonempty-json s h = rw (rsplit_once-append "." s "json" refl, h) refl

-- an entry that can be read
abbrev pub IsReadable : String → Files → Result String String → Type 0
IsReadable dir files (err e) = ⊥
IsReadable dir files (ok name) = is_some (files (join dir name)) ≡ true

abbrev pub no_faults : Faults
no_faults = record {
  create_dir = none;
  set_permissions = none;
  write = none;
  remove = none;
  read_dir = none;
  read = λ _. none;
}

module _ {N : Type 0} (codec : Codec (Preset N)) (dir : String) (files : Files) where
  -- the preset is in the list already, or its file is still to come
  abbrev Waits : String → Preset N → List (Result String String) → List (Preset N) → Type 0
  Waits name p entries presets = Memᴰ p presets ⊎ Memᴰ (ok name) entries

  pushed :
      (r : Result String (Preset N)) (p : Preset N) (ps : List (Preset N))
      → Memᴰ p ps
      → Memᴰ p (push_decoded r ps)
  pushed (err e) p ps m = m
  pushed (ok q) p ps m = Memᴰ.append_left (q ∷ []) m

  still-Waits :
      (name n : String) (p : Preset N) (es : List (Result String String))
      (presets : List (Preset N))
      → has_json_extension name ≡ true
      → has_json_extension n ≡ false
      → Waits name p (ok n ∷ es) presets
      → Waits name p es presets
  still-Waits name n p es presets h other (inl m) = inl m
  still-Waits name n p es presets h other (inr (Memᴰ.tail m)) = inr m
  still-Waits name n p es presets h other (inr (Memᴰ.head e)) =
      let same : name ≡ n = cc in absurd (cc)

  now-Waits :
      (name n text t : String) (p : Preset N) (es : List (Result String String))
      (presets : List (Preset N))
      → files (join dir name) ≡ some text
      → codec.decode text ≡ ok p
      → files (join dir n) ≡ some t
      → Waits name p (ok n ∷ es) presets
      → Waits name p es (push_decoded (codec.decode t) presets)
  now-Waits name n text t p es presets k l found (inl m) = inl (pushed (codec.decode t) p presets m)
  now-Waits name n text t p es presets k l found (inr (Memᴰ.tail m)) = inr m
  now-Waits name n text t p es presets k l found (inr (Memᴰ.head e)) =
      let same : name ≡ n = cc in
      let texts : text ≡ t = cc in
      inl (rw (← texts, l) (Memᴰ.append_right presets (Memᴰ.head refl)))

  load_entries-Mem :
      (name text : String) (p : Preset N)
      → has_json_extension name ≡ true
      → files (join dir name) ≡ some text
      → codec.decode text ≡ ok p
      → (entries : List (Result String String)) (presets : List (Preset N))
      → All (IsReadable dir files) entries
      → Waits name p entries presets
      → (ps : List (Preset N)) × (load_entries codec dir no_faults files entries presets ≡ ok ps)
        × Memᴰ p ps
  unfolding load_entries
  load_entries-Mem name text p h k l [] presets r (inl m) = (presets, refl, m)
  load_entries-Mem name text p h k l [] presets r (inr m) = absurd (Memᴰ.not-nil m)
  load_entries-Mem name text p h k l (err e ∷ es) presets r w = absurd r.0
  load_entries-Mem name text p h k l (ok n ∷ es) presets r w =
      elim (Bool-cases (has_json_extension n)) [
        | inr other ↦ rw other (
            load_entries-Mem name text p h k l es presets r.1
              (still-Waits name n p es presets h other w))
        | inl as_json ↦ elim (Option-cases (files (join dir n))) [
          | inl missing ↦ cc (rw missing at (r.0))
          | inr (t, found) ↦
              rw (as_json, found)
                (load_entries-Mem name text p h k l es (push_decoded (codec.decode t) presets) r.1
                  (now-Waits name n text t p es presets k l found w))
        ]
      ]

module _ {N : Type 0} (codec : Codec (Preset N)) (u : Unicode) (dir : String) (f : Faults)
    (preset : Preset N) where
  -- a save that does not fail has written the text of the preset
  abbrev pub SaveOutcome : Result PersistenceError (Unit {0}) × Store → Type 0
  SaveOutcome (r, s') =
      ((text : String) × (s'.dir_exists ≡ true)
        × (codec.encode preset ≡ ok text)
        × (s'.files (preset_path u dir preset.name) ≡ some text))
      ⊎ ((e : PersistenceError) × (r ≡ err e))

  encoded-outcome :
      (fault : Option String) (t : Result String String) (s : Store)
      → codec.encode preset ≡ t
      → s.dir_exists ≡ true
      → SaveOutcome (encoded fault (preset_path u dir preset.name) t s)
  encoded-outcome fault (err e) s h k = inr (_, refl)
  encoded-outcome (some e) (ok text) s h k = inr (_, refl)
  encoded-outcome none (ok text) s h k =
      inl (text, k, h, put_self (preset_path u dir preset.name) (some text) s.files)

  save_preset-outcome : (s : Store) → SaveOutcome (save_preset u dir f codec preset s)
  unfolding save_preset
  save_preset-outcome s = go s.dir_exists f.create_dir f.set_permissions refl
    where
      go :
          (b : Bool) (c p : Option String)
          → s.dir_exists ≡ b
          → SaveOutcome (saved u dir f codec preset (if not b then made c p s else (ok tt, s)))
      go true c p h = encoded-outcome f.write (codec.encode preset) s refl h
      go false (some e) p h = inr (_, refl)
      go false none (some e) h = inr (_, refl)
      go false none none h =
          encoded-outcome f.write (codec.encode preset) (record s { dir_exists = true }) refl refl

  save_preset-stored :
      (s s' : Store)
      → save_preset u dir f codec preset s ≡ (ok tt, s')
      → (text : String) × (s'.dir_exists ≡ true)
        × (codec.encode preset ≡ ok text)
        × (s'.files (preset_path u dir preset.name) ≡ some text)
  save_preset-stored s s' e = elim (subst SaveOutcome e (save_preset-outcome s)) [
    | inl stored ↦ stored
    | inr (x, failed) ↦ cc
  ]

-- After a preset was saved, and whatever the disk held before, loading finds it again, if its slug is
-- not empty, its file is among the entries of the directory, and every entry can be read. The presets
-- come in the order of their names. The format reads back what it writes.
pub load_custom_presets-save_preset :
    {N : Type 0} (codec : Codec (Preset N)) (u : Unicode) (dir : String) (f : Faults)
    (preset : Preset N) (s s' : Store) (entries : List (Result String String))
    → RoundTrips codec
    → save_preset u dir f codec preset s ≡ (ok tt, s')
    → is_empty_str (slugify u preset.name) ≡ false
    → Memᴰ (ok (file_name u preset.name)) entries
    → All (IsReadable dir s'.files) entries
    → (presets : List (Preset N)) × (load_custom_presets codec dir no_faults entries s'
        ≡ ok presets)
      × Mem preset presets
      × IsSorted by_name presets
unfolding load_custom_presets
load_custom_presets-save_preset codec u dir f preset s s' entries back e named listed readable =
    let (text, made, enc, held) = save_preset-stored codec u dir f preset s s' e in
    let (ps, loaded, m) =
      load_entries-Mem codec dir s'.files (file_name u preset.name) text preset
        (nonempty-json (slugify u preset.name) named) held (back preset text enc) entries []
        readable (inr listed) in
    (
      sort_by by_name ps,
      rw (made, loaded) refl,
      (Perm.mem_iff (sort_by-perm by_name ps)).1 ∣ m ∣₁,
      sort_by-IsSorted by_name (λ a b. leb_str_total a.name b.name)
          (λ a b c. leb_str_trans a.name b.name c.name) ps,
    )
