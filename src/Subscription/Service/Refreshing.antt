-- ===== src/Subscription/Service/Refreshing.antt =====
-- crates/subscription/src/manager.rs: what `refresh` leaves on the disk.
use v2ray_rs.Models.Subscription.{UuidValue, Subscription, SubscriptionSource, url, file}
use v2ray_rs.Storage.Persistence.{
  get_subscription, PersistenceError, Codec, Disk, Faults, replace_first, has_id,
}
use v2ray_rs.Storage.Persistence.Subscriptions.{
  loaded, ReadsBack, Holds, has_id-Same, ChangeOutcome, update_one, perform-ChangeOutcome,
}
use v2ray_rs.Subscription.Formats.{Formats}
use v2ray_rs.Subscription.Fetch.{FetchError, fetch_with_client}
use v2ray_rs.Subscription.Update.{
  UpdateResult, Outside, fetch_with_retry, default_max_retries, update_with, on_content,
  raw_content,
}
use v2ray_rs.Subscription.Update
use v2ray_rs.Subscription.Update.Retries.{fetch_with_retry_lem}
use v2ray_rs.Subscription.Service.Adding.{has_result}
use v2ray_rs.Subscription.Service.{
  refresh, SubscriptionError, after_store, after_refetch, then_store, refetch,
}
use v2ray_rs.Base.{
  ℕ, String, ◌≡◌, refl, sym, ap, ◌∙◌, ◌⊎◌, inl, inr, Bool, true, Option, none, some, List, [], ◌∷◌,
  ◌==◌, ==_iff, Bool-cases, find, Unicode, Result, ok, err,
}

fetched :
    (o : Outside) (source : SubscriptionSource)
    → (r : Result FetchError String) × (raw_content o source ≡ some r)
fetched o (file path) = (_, refl)
fetched o (url address) =
    let request = λ (attempt : ℕ). fetch_with_client (o.request address attempt) in
    has_result request default_max_retries (fetch_with_retry request default_max_retries)
      (fetch_with_retry_lem request default_max_retries)

pub found_id :
    (id : UuidValue) (subs : List Subscription) {s : Subscription}
    → find (λ s. s.id == id) subs ≡ some s
    → s.id ≡ id
found_id id [] h = cc
found_id id (x ∷ xs) h = elim (Bool-cases (x.id == id)) [
  | inl e ↦ let same : x.id ≡ id = (==_iff x.id id).0 e in cc (rw e at h)
  | inr e ↦ found_id id xs (rw e at h)
]

found_has :
    (id : UuidValue) (subs : List Subscription) {s : Subscription}
    → find (λ s. s.id == id) subs ≡ some s
    → has_id id subs ≡ true
found_has id [] h = cc
found_has id (x ∷ xs) h = elim (Bool-cases (x.id == id)) [
  | inl e ↦ rw e refl
  | inr e ↦ rw e (found_has id xs (rw e at h))
]

module _ {B : Type 0} (f : Formats B) (u : Unicode) (codec : Codec (List Subscription))
    (back : ReadsBack codec) where
  -- a refresh stores the subscription that it returns, or it fails and the disk is as it was
  abbrev pub RefreshOutcome :
      UuidValue
      → ℕ
      → Disk
      → List Subscription
      → Result SubscriptionError (Subscription × UpdateResult) × Disk
      → Type 0
  RefreshOutcome id now d subs (r, after) =
      ((s : Subscription) × (result : UpdateResult) × (r ≡ ok (s, result))
        × (s.id ≡ id)
        × (s.last_updated ≡ some now)
        × (has_id id subs ≡ true)
        × Holds codec after (replace_first s subs))
      ⊎ ((e : SubscriptionError) × (r ≡ err e) × (after ≡ d))

  stored_again :
      (id : UuidValue) (now : ℕ) (d : Disk) (subs : List Subscription) (s : Subscription)
      (result : UpdateResult) (x : Result PersistenceError Bool × Disk)
      → s.id ≡ id
      → s.last_updated ≡ some now
      → has_id id subs ≡ true
      → ChangeOutcome codec (update_one s) d subs x
      → RefreshOutcome id now d subs (after_store f u codec (s, result) x)
  stored_again id now d subs s result (ok b, d₁) same at_now has (inl (r, held, _, _)) =
      inl (s, result, refl, same, at_now, has, held)
  stored_again id now d subs s result (err e, d₁) same at_now has (inl (r, held, _, _)) = cc
  stored_again id now d subs s result (ok b, d₁) same at_now has (inr (e, r, kept)) = cc
  stored_again id now d subs s result (err e, d₁) same at_now has (inr (e', r, kept)) =
      inr (_, refl, kept)

  module _ (id : UuidValue) (o : Outside) (faults : Faults) (d : Disk) (subs : List Subscription)
      (held : Holds codec d subs) where
    refetched :
        (s : Subscription) (r : Result FetchError String)
        → s.id ≡ id
        → has_id id subs ≡ true
        → RefreshOutcome id o.now d subs
            (after_refetch f u codec faults d (update_with f u o.now s r))
    refetched s (err e) same has = inr (_, refl, refl)
    refetched s (ok content) same has =
        stored_again id o.now d subs _ _ _ same refl has
          (perform-ChangeOutcome codec back faults d subs (update_one _) held)

    refetch-outcome :
        (r : Result PersistenceError (Option Subscription))
        → (get : (s : Subscription) → r ≡ ok (some s) → (s.id ≡ id) × (has_id id subs ≡ true))
        → (out : Result SubscriptionError (Subscription × UpdateResult) × Disk) × (refetch f u codec
              id o faults d r
            ≡ some out)
          × RefreshOutcome id o.now d subs out
    unfolding Update.update_subscription
    refetch-outcome (err e) get = (_, refl, inr (_, refl, refl))
    refetch-outcome (ok none) get = (_, refl, inr (_, refl, refl))
    refetch-outcome (ok (some s)) get =
        let (content, e) = fetched o s.source in
        let (same, has) = get s refl in
        (
          after_refetch f u codec faults d (update_with f u o.now s content),
          ap
              (λ c.
                then_store f u codec (after_refetch f u codec faults d) (on_content f u o.now s c))
              e,
          refetched s content same has,
        )

  -- what `refresh` finds on a disk that holds the list
  found :
      (id : UuidValue) (faults : Faults) (d : Disk) (subs : List Subscription)
      → Holds codec d subs
      → (s : Subscription) → get_subscription codec faults id d ≡ ok (some s)
      → (s.id ≡ id) × (has_id id subs ≡ true)
  unfolding get_subscription
  found id faults d subs held s e = elim (loaded codec back faults d subs held) [
    | inl (stored, l, same) ↦
        let e' = rw l at e in
        let first : find (λ (s : Subscription). s.id == id) stored ≡ some s = cc in
        (
          found_id id stored first,
          sym (has_id-Same id stored subs same) ∙ found_has id stored first,
        )
    | inr (x, l) ↦ cc (rw l at e)
  ]

  -- On a disk that holds a list of subscriptions, with a format that reads back what it writes
  -- but for latencies, `refresh` does not panic: it returns a subscription with the identifier, which
  -- is in the list, updated now, and the disk holds the list with it replaced; or it fails and the disk
  -- is as it was.
  pub refresh_lem :
      (id : UuidValue) (o : Outside) (first second : Faults) (d : Disk) (subs : List Subscription)
      → Holds codec d subs
      → (out : Result SubscriptionError (Subscription × UpdateResult) × Disk) × (refresh f u codec
            id o first second d
          ≡ some out)
        × RefreshOutcome id o.now d subs out
  unfolding refresh
  refresh_lem id o first second d subs held =
      refetch-outcome id o second d subs held (get_subscription codec first id d)
        (found id first d subs held)
