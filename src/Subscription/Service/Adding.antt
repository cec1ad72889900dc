-- ===== src/Subscription/Service/Adding.antt =====
-- What `add_and_fetch` of manager.rs stores.
use v2ray_rs.Models.Subscription.{UuidValue, Subscription, new_from_url}
use v2ray_rs.Storage.Persistence.{
  PersistenceError, Codec, Disk, Faults, giving, replace_first, has_id, add_subscription,
  update_subscription,
}
use v2ray_rs.Storage.Persistence.Subscriptions.{
  ReadsBack, Holds, ChangeOutcome, add_one, update_one, perform-ChangeOutcome,
}
use v2ray_rs.Subscription.Formats.{Formats}
use v2ray_rs.Subscription.Fetch.{FetchError, fetch_with_client}
use v2ray_rs.Subscription.Update.{
  UpdateResult, Outside, fetch_with_retry, default_max_retries, update_with, on_content,
}
use v2ray_rs.Subscription.Update
use v2ray_rs.Subscription.Update.Retries.{RetryOutcome, succeeded, gave_up, fetch_with_retry_lem}
use v2ray_rs.Subscription.Service.{
  SubscriptionError, storage, after_store, after_first_fetch, fetch_added, then_store,
  add_and_fetch,
}
use v2ray_rs.Base.{
  ℕ, String, ◌≡◌, refl, ap, ◌⊎◌, inl, inr, Bool, true, false, Option, some, List, [], ◌∷◌, ◌++◌,
  arith, ◌==◌, Bool-cases, all, Unicode, Result, ok, err,
}

-- a retried fetch has a result
pub has_result :
    (fetch : ℕ → Result FetchError String) (n : ℕ) (r : Option (Result FetchError String) × List ℕ)
    → RetryOutcome n fetch 0 r
    → (x : Result FetchError String) × (r.0 ≡ some x)
has_result fetch n _ (succeeded k low high before content e) = (ok content, refl)
has_result fetch n _ (gave_up all e q) = (err e, refl)

replace_first-last :
    (s t : Subscription) (subs : List Subscription)
    → t.id ≡ s.id
    → has_id s.id subs ≡ false
    → replace_first t (subs ++ s ∷ []) ≡ subs ++ t ∷ []
replace_first-last s t [] e h = let same : (s.id == t.id) ≡ true = ground arith in rw same refl
replace_first-last s t (x ∷ xs) e h = elim (Bool-cases (x.id == s.id)) [
  | inl f ↦ absurd (cc (rw f at h))
  | inr f ↦
      let other : (x.id == t.id) ≡ false = rw e f in
      rw other (ap (λ r. x ∷ r) (replace_first-last s t xs e (rw f at h)))
]

module _ (codec : Codec (List Subscription)) where
  -- what the service leaves: the subscription that it returns is stored last; or the store failed,
  -- with the first write done or not
  abbrev pub AddOutcome :
      Subscription
      → Disk
      → List Subscription
      → Result SubscriptionError Subscription × Disk
      → Type 0
  AddOutcome unfetched d subs (r, after) =
      ((s : Subscription) × (r ≡ ok s) × (s.id ≡ unfetched.id) × Holds codec after (subs ++ s ∷ []))
      ⊎ ((e : PersistenceError) × (r ≡ err (storage e))
          × ((after ≡ d) ⊎ Holds codec after (subs ++ unfetched ∷ [])))

module _ {B : Type 0} (f : Formats B) (u : Unicode) (codec : Codec (List Subscription))
    (back : ReadsBack codec) where
  module _ (s : Subscription) (d : Disk) (subs : List Subscription)
      (fresh_id : has_id s.id subs ≡ false) (faults : Faults) where
    stored_again :
        (t : Subscription) (d₁ : Disk) (x : Result PersistenceError Bool × Disk)
        → t.id ≡ s.id
        → Holds codec d₁ (subs ++ s ∷ [])
        → ChangeOutcome codec (update_one t) d₁ (subs ++ s ∷ []) x
        → AddOutcome codec s d subs (after_store f u codec t x)
    stored_again t d₁ (ok b, d₂) same h (inl (r, held, _, _)) =
        inl (t, refl, same, rw (replace_first-last s t subs same fresh_id) at held)
    stored_again t d₁ (err x, d₂) same h (inl (r, held, _, _)) = cc
    stored_again t d₁ (ok b, d₂) same h (inr (e, r, kept)) = cc
    stored_again t d₁ (err x, d₂) same h (inr (e, r, kept)) = inr (x, refl, inr (rw kept h))

    fetched :
        (x : Result FetchError UpdateResult × Subscription) (d₁ : Disk)
        → x.1.id ≡ s.id
        → ((e : FetchError) → x.0 ≡ err e → x.1 ≡ s)
        → Holds codec d₁ (subs ++ s ∷ [])
        → AddOutcome codec s d subs (after_first_fetch f u codec faults x d₁)
    fetched (ok r, t) d₁ same whole h =
        stored_again t d₁ (update_subscription codec faults t d₁) same h
          (perform-ChangeOutcome codec back faults d₁ (subs ++ s ∷ []) (update_one t) h)
    fetched (err e, t) d₁ same whole h = inl (t, refl, same, rw (whole e refl) h)

  kept_id :
      (now : ℕ) (s : Subscription) (r : Result FetchError String)
      → ((update_with f u now s r).1.id ≡ s.id)
        × ((e : FetchError) → (update_with f u now s r).0 ≡ err e → (update_with f u now s r).1 ≡ s)
  kept_id now s (ok content) = (refl, λ e h. cc)
  kept_id now s (err x) = (refl, λ e h. refl)

  fetches :
      (o : Outside) (id : UuidValue) (name address : String)
      → (r : Result FetchError String) × (Update.update_subscription f u o
            (new_from_url id name address)
          ≡ some (update_with f u o.now (new_from_url id name address) r))
  unfolding Update.update_subscription
  fetches o id name address =
      let fetch : ℕ → Result FetchError String =
        λ attempt. fetch_with_client (o.request address attempt) in
      let (r, e) =
        has_result fetch default_max_retries (fetch_with_retry fetch default_max_retries)
          (fetch_with_retry_lem fetch default_max_retries) in
      (r, ap (on_content f u o.now (new_from_url id name address)) e)

  added :
      (id : UuidValue) (name address : String) (o : Outside) (first second : Faults) (d : Disk)
      (subs : List Subscription)
      → has_id id subs ≡ false
      → (x : Result PersistenceError (Unit {0}) × Disk)
      → ChangeOutcome codec
          (add_one (new_from_url id name address))
          d
          subs
          (giving codec first true x)
      → (out : Result SubscriptionError Subscription × Disk) × (fetch_added f u codec o second
            (new_from_url id name address)
            x
          ≡ some out)
        × AddOutcome codec (new_from_url id name address) d subs out
  added id name address o first second d subs new (err e, d₁) (inl (r, h, _, _)) = cc
  added id name address o first second d subs new (err e, d₁) (inr (e', r, same)) =
      (_, refl, inr (e, refl, inl same))
  added id name address o first second d subs new (ok _, d₁) (inr (e', r, same)) = cc
  added id name address o first second d subs new (ok _, d₁) (inl (r, h, _, _)) =
      let s = new_from_url id name address in
      let (c, e) = fetches o id name address in
      let (same, whole) = kept_id o.now s c in
      (
        _,
        ap (then_store f u codec (λ r. after_first_fetch f u codec second r d₁)) e,
        fetched s d subs new second (update_with f u o.now s c) d₁ same whole h,
      )

  -- On a disk that holds a list of subscriptions without the drawn identifier, and with a format that
  -- reads back what it writes but for latencies, `add_and_fetch` does not panic. Either it returns the subscription,
  -- fetched or not, and the disk holds the list with it appended; or the store fails, and the disk is
  -- as it was or has the subscription appended without nodes.
  pub add_and_fetch_lem :
      (id : UuidValue) (name address : String) (o : Outside) (first second : Faults) (d : Disk)
      (subs : List Subscription)
      → Holds codec d subs
      → has_id id subs ≡ false
      → (out : Result SubscriptionError Subscription × Disk) × (add_and_fetch f u codec id name
            address o first second d
          ≡ some out)
        × AddOutcome codec (new_from_url id name address) d subs out
  unfolding add_and_fetch
  add_and_fetch_lem id name address o first second d subs h new =
      added id name address o first second d subs new
        (add_subscription codec first (new_from_url id name address) d)
        (perform-ChangeOutcome codec back first d subs (add_one (new_from_url id name address)) h)
