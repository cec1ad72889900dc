-- ===== src/Storage/Persistence.antt =====
-- crates/core/src/persistence.rs: the files of the application. A file is its text, if it exists;
-- the formats of serde_json and toml are parameters, and what goes wrong in a call is an argument.
-- A write goes to a temporary file that is renamed, so one that fails leaves the file as it was.
pub mod Subscriptions
pub mod Faultless
use v2ray_rs.Models.Subscription.{UuidValue, Subscription}
use v2ray_rs.Models.Settings.{AppSettings, default_settings}
use v2ray_rs.Models.Routing.{RoutingRuleSet}
use v2ray_rs.Models.Routing
use v2ray_rs.Base.{
  String, Bool, true, false, not, Option, none, some, List, [], ◌∷◌, ◌++◌, ltb, ◌==◌, if◌then◌else◌,
  length, keep_if, any, find, Result, ok, err, ◌>>=◌, ◌>>◌, map_err,
}

pub data PersistenceError : Type 0 where
  no_dirs : PersistenceError
  io : String → PersistenceError
  toml_serialize : String → PersistenceError
  toml_deserialize : String → PersistenceError
  json : String → PersistenceError
  corrupt_config : String → PersistenceError

-- the text form of a type, with the errors' texts
pub record Codec (A : Type 0) : Type 0 where
  pub encode : A → Result String String
  pub decode : String → Result String A

pub record Disk : Type 0 where
  pub settings : Option String
  pub subscriptions : Option String
  pub routing_rules : Option String

-- the errors of the system calls of one call: creating the directories, reading, and writing
pub record Faults : Type 0 where
  pub ensure_dirs : Option String
  pub read : Option String
  pub write : Option String

abbrev pub check_fault : Option String → Result PersistenceError (Unit {0})
check_fault none = ok tt
check_fault (some e) = err (io e)

module _ {A : Type 0} (codec : Codec A) (faults : Faults) where
  -- the text that is to be written, if nothing fails
  abbrev pub text_to_write : (String → PersistenceError) → A → Result PersistenceError String
  text_to_write encode_error a = do
    check_fault faults.ensure_dirs
    text ← map_err encode_error (codec.encode a)
    check_fault faults.write
    ok text

  abbrev pub written :
      Result PersistenceError String
      → Option String
      → Result PersistenceError (Unit {0}) × Option String
  written (ok text) file = (ok tt, some text)
  written (err e) file = (err e, file)

  abbrev pub save_file :
      (String → PersistenceError)
      → A
      → Option String
      → Result PersistenceError (Unit {0}) × Option String
  save_file encode_error a file = written (text_to_write encode_error a) file

  abbrev pub load_file : (String → PersistenceError) → A → Option String → Result PersistenceError A
  load_file decode_error absent none = ok absent
  load_file decode_error absent (some text) =
      check_fault faults.read >> map_err decode_error (codec.decode text)

module _ (codec : Codec AppSettings) (faults : Faults) where
  unfoldable pub save_settings : AppSettings → Disk → Result PersistenceError (Unit {0}) × Disk
  save_settings s d =
      let (r, file) = save_file codec faults toml_serialize s d.settings in
      (r, record d { settings = file })

  unfoldable pub load_settings : Disk → Result PersistenceError AppSettings
  load_settings d = load_file codec faults corrupt_config default_settings d.settings

  abbrev pub or_default_settings : Result PersistenceError AppSettings → AppSettings
  or_default_settings (ok s) = s
  or_default_settings (err e) = default_settings

  unfoldable pub load_settings_or_default : Disk → AppSettings
  unfolding load_settings
  load_settings_or_default d = or_default_settings (load_settings d)

module _ {N : Type 0} (codec : Codec (RoutingRuleSet N)) (faults : Faults) where
  unfoldable pub save_routing_rules :
      RoutingRuleSet N → Disk → Result PersistenceError (Unit {0}) × Disk
  save_routing_rules rules d =
      let (r, file) = save_file codec faults json rules d.routing_rules in
      (r, record d { routing_rules = file })

  unfoldable pub load_routing_rules : Disk → Result PersistenceError (RoutingRuleSet N)
  load_routing_rules d = load_file codec faults json Routing.new d.routing_rules

-- `iter_mut().find` and the assignment: the first subscription with the identifier is replaced
abbrev pub replace_first : Subscription → List Subscription → List Subscription
replace_first s [] = []
replace_first s (x ∷ xs) =
    let rest = replace_first s xs in if x.id == s.id then s ∷ xs else x ∷ rest

abbrev pub has_id : UuidValue → List Subscription → Bool
has_id id = any (λ s. s.id == id)

module _ (codec : Codec (List Subscription)) (faults : Faults) where
  unfoldable pub save_subscriptions :
      List Subscription → Disk → Result PersistenceError (Unit {0}) × Disk
  save_subscriptions subs d =
      let (r, file) = save_file codec faults json subs d.subscriptions in
      (r, record d { subscriptions = file })

  unfoldable pub load_subscriptions : Disk → Result PersistenceError (List Subscription)
  load_subscriptions d = load_file codec faults json [] d.subscriptions

  -- an operation on the list that was loaded
  abbrev pub on_loaded {ℓ} :
      {A : Type ℓ}
      → (List Subscription → Result PersistenceError A × Disk)
      → Result PersistenceError (List Subscription)
      → Disk
      → Result PersistenceError A × Disk
  on_loaded k (err e) d = (err e, d)
  on_loaded k (ok subs) d = k subs

  -- the result of a save with a value in place of the unit
  abbrev pub giving {ℓ} :
      {A : Type ℓ}
      → A
      → Result PersistenceError (Unit {0}) × Disk
      → Result PersistenceError A × Disk
  giving a (err e, d) = (err e, d)
  giving a (ok _, d) = (ok a, d)

  unfoldable pub add_subscription : Subscription → Disk → Result PersistenceError (Unit {0}) × Disk
  add_subscription s d =
      on_loaded (λ subs. save_subscriptions (subs ++ s ∷ []) d) (load_subscriptions d) d

  unfoldable pub get_subscription : UuidValue → Disk → Result PersistenceError (Option Subscription)
  get_subscription id d = do subs ← load_subscriptions d; ok (find (λ s. s.id == id) subs)

  unfoldable pub update_subscription : Subscription → Disk → Result PersistenceError Bool × Disk
  update_subscription s d =
      on_loaded
        (λ subs.
          if has_id s.id subs
          then giving true (save_subscriptions (replace_first s subs) d)
          else (ok false, d))
        (load_subscriptions d) d

  unfoldable pub remove_subscription : UuidValue → Disk → Result PersistenceError Bool × Disk
  remove_subscription id d =
      on_loaded
        (λ subs.
          let kept = keep_if (λ s. not (s.id == id)) subs in
          if ltb (length kept) (length subs)
          then giving true (save_subscriptions kept d)
          else (ok false, d))
        (load_subscriptions d) d
