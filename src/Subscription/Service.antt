-- ===== src/Subscription/Service.antt =====
-- crates/subscription/src/manager.rs: `SubscriptionService`, which fetches subscriptions and stores
-- them. A method takes the disk, what it meets outside, and what goes wrong with each of its calls
-- of the store; a result `none` is a panic in the fetch.
pub mod Adding
pub mod Refreshing
pub mod Rounds
use v2ray_rs.Models.Subscription.{UuidValue, Subscription, new_from_url}
use v2ray_rs.Storage.Persistence.{
  PersistenceError, Codec, Disk, Faults, add_subscription, get_subscription, load_subscriptions,
}
use v2ray_rs.Storage.Persistence
use v2ray_rs.Subscription.Formats.{Formats}
use v2ray_rs.Subscription.Fetch.{FetchError}
use v2ray_rs.Subscription.Update.{UpdateResult, Outside}
use v2ray_rs.Subscription.Update
use v2ray_rs.Base.{
  ℕ, zero, suc, ◌+◌, ◌-◌, ◌*◌, ◌/◌, ◌%◌, ◌^◌, ◌≤◌, ◌<◌, Char, code, String, ◌≡◌, refl, sym, ap, ◌∙◌,
  ◌≢◌, ◌↔◌, ◌⊎◌, inl, inr, Bool, true, false, not, ◌&&◌, ◌||◌, Option, none, some, List, [], ◌∷◌,
  ◌++◌, map, Memᴰ, arith, eq_iff, eq_refl, ltb, leb, ◌==◌, if◌then◌else◌, ==_iff, Bool-cases,
  Option-cases, is_some, unwrap_or, length, get_elem?, insert_at, erase_at, drop, keep_if, any, all,
  find, All, length-append, length-map, All-append, ◌⧺◌, str_eq, chars, is_empty_str,
  is_ascii_uppercase, is_ascii_lowercase, is_ascii_digit, char_is, Unicode, trim, strip_prefix,
  split_once, rsplit_once, split, to_string, leading, leading-to_string, Result, ok, err, ◌>>=◌,
  ◌>>◌, is_ok, ok_or, to_option, map_err, contains_str, parse_unsigned, parse_unsigned-bound, lacks,
  strip_prefix-append, split_once-append, rsplit_once-append, lacks-append, all_digits-lacks,
  parse_unsigned-to_string, split_once-lacks, all_digits, to_string-digits, trim-digits, ℤ, pos,
  negsuc, as_i32, as_i64, leb_ℤ, as_i32-pos, as_i64-pos, join, Files, put, put_self, put_other,
  join-str_eq, leb_str, leb_str_total, leb_str_trans, insert_sorted, sort_by, IsSorted,
  sort_by-perm, sort_by-IsSorted, map_chars, join_words, all_chars, all_chars-map_chars,
  all_chars-append, IsWord, All-split, All-keep_if, split-join_words, all_chars-join_words,
  strip_cr, drop_last_empty, lines, utf8_len, byte_length, char_starts, take_while_le, last_or,
  slice_to, byte_length-append, slice_to-last_start,
}

pub data SubscriptionError : Type 0 where
  not_found : UuidValue → SubscriptionError
  fetch : FetchError → SubscriptionError
  storage : PersistenceError → SubscriptionError

module _ {B : Type 0} (f : Formats B) (u : Unicode) (codec : Codec (List Subscription)) where
  -- the result of a store, with a value in place of what it returns
  abbrev pub after_store :
      {A C : Type 0} → C → Result PersistenceError A × Disk → Result SubscriptionError C × Disk
  after_store c (err e, d) = (err (storage e), d)
  after_store c (ok _, d) = (ok c, d)

  -- the second part of `add_and_fetch`: a failed fetch is only logged
  abbrev pub after_first_fetch :
      Faults
      → Result FetchError UpdateResult × Subscription
      → Disk
      → Result SubscriptionError Subscription × Disk
  after_first_fetch faults (ok _, sub) d =
      after_store sub (Persistence.update_subscription codec faults sub d)
  after_first_fetch faults (err e, sub) d = (ok sub, d)

  -- what follows a fetch that does not panic
  abbrev pub then_store :
      {A : Type 0}
      → (Result FetchError UpdateResult × Subscription → A)
      → Option (Result FetchError UpdateResult × Subscription)
      → Option A
  then_store k none = none
  then_store k (some r) = some (k r)

  abbrev pub fetch_added :
      Outside
      → Faults
      → Subscription
      → Result PersistenceError (Unit {0}) × Disk
      → Option (Result SubscriptionError Subscription × Disk)
  fetch_added o faults sub (err e, d) = some (err (storage e), d)
  fetch_added o faults sub (ok _, d) =
      then_store (λ r. after_first_fetch faults r d) (Update.update_subscription f u o sub)

  -- `fresh` is the identifier that is drawn; the store is called twice
  unfoldable pub add_and_fetch :
      UuidValue
      → String
      → String
      → Outside
      → Faults
      → Faults
      → Disk
      → Option (Result SubscriptionError Subscription × Disk)
  add_and_fetch fresh name url o first second d =
      let sub = new_from_url fresh name url in
      fetch_added o second sub (add_subscription codec first sub d)

  abbrev pub after_refetch :
      Faults
      → Disk
      → Result FetchError UpdateResult × Subscription
      → Result SubscriptionError (Subscription × UpdateResult) × Disk
  after_refetch faults d (err e, sub) = (err (fetch e), d)
  after_refetch faults d (ok r, sub) =
      after_store (sub, r) (Persistence.update_subscription codec faults sub d)

  abbrev pub refetch :
      UuidValue
      → Outside
      → Faults
      → Disk
      → Result PersistenceError (Option Subscription)
      → Option (Result SubscriptionError (Subscription × UpdateResult) × Disk)
  refetch id o faults d (err e) = some (err (storage e), d)
  refetch id o faults d (ok none) = some (err (not_found id), d)
  refetch id o faults d (ok (some sub)) =
      then_store (after_refetch faults d) (Update.update_subscription f u o sub)

  unfoldable pub refresh :
      UuidValue
      → Outside
      → Faults
      → Faults
      → Disk
      → Option (Result SubscriptionError (Subscription × UpdateResult) × Disk)
  refresh id o first second d = refetch id o second d (get_subscription codec first id d)

-- the interval of a subscription in seconds, and whether it has passed; instants are nanoseconds, of
-- whose difference `num_seconds` drops the fraction, and `max(0)` is the subtraction of ℕ
abbrev pub is_overdue : ℕ → ℕ → Subscription → Bool
is_overdue global_interval now s = elim s.last_updated [
  | none ↦ true
  | some last ↦
      leb (unwrap_or s.auto_update_interval_secs global_interval) ((now - last) / 1000000000)
]

-- what the n-th refresh of a round meets
pub record Call : Type 0 where
  pub outside : Outside
  pub first : Faults
  pub second : Faults

abbrev pub Refreshed : Type 0
Refreshed = UuidValue × Result SubscriptionError UpdateResult

abbrev pub result_of :
    Result SubscriptionError (Subscription × UpdateResult) → Result SubscriptionError UpdateResult
result_of (err e) = err e
result_of (ok (s, r)) = ok r

abbrev pub prepend : Refreshed → Option (List Refreshed × Disk) → Option (List Refreshed × Disk)
prepend x none = none
prepend x (some (xs, d)) = some (x ∷ xs, d)

-- a result is noted, and the loop goes on with the disk that is left
abbrev pub noted :
    UuidValue
    → Option (Result SubscriptionError (Subscription × UpdateResult) × Disk)
    → (Disk → Option (List Refreshed × Disk))
    → Option (List Refreshed × Disk)
noted id none rest = none
noted id (some (r, d)) rest = prepend (id, result_of r) (rest d)

module _ {B : Type 0} (f : Formats B) (u : Unicode) (codec : Codec (List Subscription))
    (calls : ℕ → Call) (global_interval now : ℕ) where
  -- the loop over the subscriptions that were loaded first; `n` refreshes are done
  unfoldable pub refresh_from : ℕ → List Subscription → Disk → Option (List Refreshed × Disk)
  refresh_from n [] d = some ([], d)
  refresh_from n (s ∷ subs) d =
      let skipped = refresh_from n subs d in
      let c = calls n in
      let refreshed =
        noted s.id (refresh f u codec s.id c.outside c.first c.second d)
          (refresh_from (suc n) subs) in
      if s.enabled && is_overdue global_interval now s then refreshed else skipped

  abbrev pub refresh_loaded :
      Result PersistenceError (List Subscription) → Disk → Option (List Refreshed × Disk)
  refresh_loaded (err e) d = some ([], d)
  refresh_loaded (ok subs) d = refresh_from 0 subs d

  unfoldable pub refresh_all_overdue : Faults → Disk → Option (List Refreshed × Disk)
  unfolding refresh_from
  refresh_all_overdue faults d = refresh_loaded (load_subscriptions codec faults d) d
