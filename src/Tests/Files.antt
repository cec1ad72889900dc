-- ===== src/Tests/Files.antt =====
-- Runs of the config writer, of the stored presets and of a round of refreshes.
use mathlib.Core.List.{Mem}
use v2ray_rs.Models.Subscription.{Subscription}
use v2ray_rs.Models.Presets.{Preset, PresetRule}
use v2ray_rs.Config.Writer
use v2ray_rs.Storage.Persistence.{PersistenceError, Codec, Disk, load_subscriptions}
use v2ray_rs.Storage.Persistence.Subscriptions
use v2ray_rs.Storage.Persistence.Subscriptions.{RoundTrips}
use v2ray_rs.Storage.CustomPresets.{slugify, save_preset, load_custom_presets, Store, by_name}
use v2ray_rs.Storage.CustomPresets.Names.{IsSlug, slugify-IsSlug}
use v2ray_rs.Storage.CustomPresets.Reloading.{no_faults, load_custom_presets-save_preset}
use v2ray_rs.Subscription.Service.{Call, Refreshed, refresh_all_overdue}
use v2ray_rs.Subscription.Service.Rounds.{RoundOutcome, due, refresh_all_overdue_lem}
use v2ray_rs.Tests.Samples.{ascii, formats}
use v2ray_rs.Tests.Storage.{subscription_codec, subscription_codec-ReadsBack, offline}
use v2ray_rs.Base.{
  String, ◌≡◌, refl, ap, ◌⊎◌, inl, inr, Bool, true, false, ◌&&◌, none, some, List, [], ◌∷◌, Memᴰ,
  eq_iff, if◌then◌else◌, Bool-cases, is_some, ◌⧺◌, str_eq, is_empty_str, Result, ok, err, join,
  Files, put, IsSorted,
}

abbrev no_files : Files
no_files path = none

abbrev writer_works : Writer.Faults
writer_works = record { create_dir = none; write = none }

slugify-IsSlug_example : IsSlug (slugify ascii "--my rules!")
slugify-IsSlug_example = slugify-IsSlug ascii "--my rules!"

abbrev my_preset : Preset String
my_preset = record { name = "my rules"; description = ""; rules = [] }

abbrev is_my_preset : String → String → Bool
is_my_preset name description = str_eq name "my rules" && str_eq description ""

-- a format for one preset
abbrev preset_text : String → String → List (PresetRule String) → Result String String
preset_text name description [] =
    if is_my_preset name description then ok "{}" else err "unsupported"
preset_text name description (r ∷ rs) = err "unsupported"

abbrev preset_codec : Codec (Preset String)
preset_codec = record {
  encode = λ p. preset_text p.name p.description p.rules;
  decode = λ s. if str_eq s "{}" then ok my_preset else err "syntax error";
}

abbrev result_text : Result String String → String
result_text (ok t) = t
result_text (err e) = e

both : (x y : Bool) → x && y ≡ true → (x ≡ true) × (y ≡ true)
both true true h = (refl, refl)
both true false h = cc
both false y h = cc

preset_read :
    (name description : String) (rules : List (PresetRule String)) (text : String)
    → preset_text name description rules ≡ ok text
    → preset_codec.decode text
      ≡ ok (record { name = name; description = description; rules = rules })
preset_read name description [] text h = elim (Bool-cases (is_my_preset name description)) [
  | inl e ↦
      let written : "{}" ≡ text = ap result_text (rw e at h) in
      let (x, y) = both _ _ e in
      let its_name : name ≡ "my rules" = (eq_iff name "my rules").0 x in
      let its_description : description ≡ "" = (eq_iff description "").0 y in
      rw (← written, its_name, its_description) refl
  | inr e ↦ absurd (cc (rw e at h))
]
preset_read name description (r ∷ rs) text h = cc

preset_codec-RoundTrips : RoundTrips preset_codec
preset_codec-RoundTrips p text h = preset_read p.name p.description p.rules text h

abbrev before : Store
before = record { dir_exists = false; files = no_files }

abbrev after : Result PersistenceError (Unit {0}) × Store
after = save_preset ascii "/presets" no_faults preset_codec my_preset before

after-saved : after ≡ (ok tt, after.1)
unfolding save_preset slugify
after-saved = refl

my_preset-named : is_empty_str (slugify ascii my_preset.name) ≡ false
unfolding slugify
my_preset-named = refl

abbrev entry : Result String String
entry = ok (slugify ascii my_preset.name ⧺ ".json")

entry-IsReadable :
    is_some (after.1.files (join "/presets" (slugify ascii my_preset.name ⧺ ".json"))) ≡ true
unfolding save_preset slugify put
entry-IsReadable = refl

load_custom_presets-save_preset_example :
    (presets : List (Preset String)) × (load_custom_presets preset_codec "/presets" no_faults
        (entry ∷ [])
        after.1
      ≡ ok presets)
    × Mem my_preset presets
    × IsSorted by_name presets
load_custom_presets-save_preset_example =
    load_custom_presets-save_preset preset_codec ascii "/presets" no_faults my_preset before after.1
      (entry ∷ []) preset_codec-RoundTrips after-saved my_preset-named (Memᴰ.head refl)
      (entry-IsReadable, tt)

abbrev listed_disk : Disk
listed_disk = record { settings = none; subscriptions = some "[1]"; routing_rules = none }

abbrev offline_call : Call
offline_call = record {
  outside = offline;
  first = Subscriptions.no_faults;
  second = Subscriptions.no_faults;
}

refresh_all_overdue_lem_example :
    (r : List Refreshed × Disk) × (refresh_all_overdue formats ascii subscription_codec
        (λ i. offline_call)
        3600
        100
        Subscriptions.no_faults
        listed_disk
      ≡ some r)
    × (((e : PersistenceError) × (load_subscriptions subscription_codec Subscriptions.no_faults
              listed_disk
            ≡ err e)
          × (r ≡ ([], listed_disk)))
        ⊎ ((subs : List Subscription) × (load_subscriptions subscription_codec
                Subscriptions.no_faults listed_disk
              ≡ ok subs)
            × RoundOutcome formats ascii subscription_codec subscription_codec-ReadsBack
                (λ i. offline_call)
                3600
                100
                (due 3600 100 subs)
                subs
                r))
refresh_all_overdue_lem_example =
    refresh_all_overdue_lem formats ascii subscription_codec subscription_codec-ReadsBack
      (λ i. offline_call) 3600 100 Subscriptions.no_faults listed_disk
