-- ===== src/Subscription/Service/Rounds.antt =====
-- crates/subscription/src/manager.rs: what `refresh_all_overdue` leaves on the disk.
use mathlib.Core.Path.{subst}
use v2ray_rs.Models.Subscription.{UuidValue, Subscription}
use v2ray_rs.Storage.Persistence.{
  load_subscriptions, PersistenceError, Codec, Disk, Faults, replace_first,
}
use v2ray_rs.Storage.Persistence.Subscriptions.{ReadsBack, Holds, load_subscriptions-Reads}
use v2ray_rs.Subscription.Formats.{Formats}
use v2ray_rs.Subscription.Update.{UpdateResult}
use v2ray_rs.Subscription.Service.{
  refresh_all_overdue, refresh_loaded, prepend, noted, refresh_from, Call, Refreshed, is_overdue,
  SubscriptionError,
}
use v2ray_rs.Base.{
  ℕ, suc, ◌≡◌, refl, sym, ap, ◌∙◌, ◌⊎◌, inl, inr, ◌&&◌, Option, some, List, [], ◌∷◌, map,
  Bool-cases, keep_if, All, Unicode, Result, ok, err,
}
use v2ray_rs.Subscription.Service.Refreshing.{RefreshOutcome, refresh_lem}

-- the list with the first of each identifier replaced, one after the other
abbrev pub replace_all : List Subscription → List Subscription → List Subscription
replace_all [] subs = subs
replace_all (t ∷ ts) subs = replace_all ts (replace_first t subs)

-- the identifiers of the refreshes that succeeded
abbrev pub renewed_ids : List Refreshed → List UuidValue
renewed_ids [] = []
renewed_ids ((id, ok r) ∷ rs) = id ∷ renewed_ids rs
renewed_ids ((id, err e) ∷ rs) = renewed_ids rs

-- the subscriptions that a round is about
abbrev pub due : ℕ → ℕ → List Subscription → List Subscription
due global_interval now subs = keep_if (λ s. s.enabled && is_overdue global_interval now s) subs

module _ {B : Type 0} (f : Formats B) (u : Unicode) (codec : Codec (List Subscription))
    (back : ReadsBack codec) (calls : ℕ → Call) (global_interval now : ℕ) where
  -- a subscription was fetched in one of the calls
  abbrev pub IsFetched : Subscription → Type 0
  IsFetched t = (n : ℕ) × (t.last_updated ≡ some (calls n).outside.now)

  -- each of the given subscriptions has its result, in order, and what is stored is the list with
  -- exactly those replaced whose refresh succeeded, each by one that was fetched
  abbrev pub RoundOutcome : List Subscription → List Subscription → List Refreshed × Disk → Type 0
  RoundOutcome todo subs (results, after) =
      (map (λ (x : Refreshed). x.0) results ≡ map (λ (s : Subscription). s.id) todo)
      × (fetched : List Subscription) × (map (λ (s : Subscription). s.id) fetched
          ≡ renewed_ids results)
      × All IsFetched fetched
      × Holds codec after (replace_all fetched subs)

  -- what the rest of the loop does on every disk
  abbrev Continues : List Subscription → (Disk → Option (List Refreshed × Disk)) → Type 0
  Continues todo rest =
      (d : Disk) (subs : List Subscription)
      → Holds codec d subs
      → (r : List Refreshed × Disk) × (rest d ≡ some r) × RoundOutcome todo subs r

  round_step :
      (s : Subscription) (n : ℕ) (todo : List Subscription) (d : Disk) (subs : List Subscription)
      (out : Result SubscriptionError (Subscription × UpdateResult) × Disk)
      (rest : Disk → Option (List Refreshed × Disk))
      → Holds codec d subs
      → RefreshOutcome f u codec back s.id (calls n).outside.now d subs out
      → Continues todo rest
      → (r : List Refreshed × Disk) × (noted s.id (some out) rest ≡ some r)
        × RoundOutcome (s ∷ todo) subs r
  round_step s n todo d subs (err e, d₁) rest held (inl (t, x, r, same, at_now, has, h₁)) more = cc
  round_step s n todo d subs (err e, d₁) rest held (inr (e', r, kept)) more =
      let ((results, after), done, (ids, fetched, renewed, news, h)) =
        more d₁ subs (subst (λ d'. Holds codec d' subs) (sym kept) held) in
      (
        ((s.id, err e) ∷ results, after),
        ap (prepend (s.id, err e)) done,
        (ap (◌∷◌ s.id) ids, fetched, renewed, news, h),
      )
  round_step s n todo d subs (ok (t', x'), d₁) rest held (inr (e', r, kept)) more = cc
  round_step s n todo d subs (ok (t', x'), d₁) rest held (inl (t, x, r, same, at_now, has, h₁))
        more =
      let ((results, after), done, (ids, fetched, renewed, news, h)) =
        more d₁ (replace_first t subs) h₁ in
      (
        ((s.id, ok x') ∷ results, after),
        ap (prepend (s.id, ok x')) done,
        (ap (◌∷◌ s.id) ids, t ∷ fetched, λ i. same i ∷ renewed i, ((n, at_now), news), h),
      )

  refresh_from-RoundOutcome :
      (todo : List Subscription) (n : ℕ)
      → Continues
          (due global_interval now todo)
          (refresh_from f u codec calls global_interval now n todo)
  unfolding refresh_from
  refresh_from-RoundOutcome [] n d subs held = (([], d), refl, (refl, [], refl, tt, held))
  refresh_from-RoundOutcome (s ∷ todo) n d subs held =
      elim (Bool-cases (s.enabled && is_overdue global_interval now s)) [
        | inr skip ↦ rw skip (refresh_from-RoundOutcome todo n d subs held)
        | inl take ↦
            let c = calls n in
            let (out, e, o) =
              refresh_lem f u codec back s.id c.outside c.first c.second d subs held in
            let rest = refresh_from f u codec calls global_interval now (suc n) todo in
            let (r, done, outcome) =
              round_step s n (due global_interval now todo) d subs out rest held o
                (refresh_from-RoundOutcome todo (suc n)) in
            rw take (r, ap (λ x. noted s.id x rest) e ∙ done, outcome)
      ]

  -- With a format that reads back what it writes but for latencies, a round of refreshes never
  -- panics, whatever the disk holds and the network and the file system do. Either the list cannot be
  -- loaded, and nothing happens; or every enabled subscription of the list that is overdue gets one
  -- result, in the order of the list, and the disk then holds, but for latencies, the list with those
  -- replaced whose refresh succeeded, in that order, each by one of its identifier that carries the
  -- time of its fetch.
  pub refresh_all_overdue_lem :
      (faults : Faults) (d : Disk)
      → (r : List Refreshed × Disk) × (refresh_all_overdue f u codec calls global_interval now
            faults d
          ≡ some r)
        × (((e : PersistenceError) × (load_subscriptions codec faults d ≡ err e) × (r ≡ ([], d)))
            ⊎ ((subs : List Subscription) × (load_subscriptions codec faults d ≡ ok subs)
                × RoundOutcome (due global_interval now subs) subs r))
  unfolding refresh_all_overdue
  refresh_all_overdue_lem faults d = go (load_subscriptions codec faults d) refl
    where
      go :
          (l : Result PersistenceError (List Subscription))
          → load_subscriptions codec faults d ≡ l
          → (r : List Refreshed × Disk) × (refresh_loaded f u codec calls global_interval now l d
              ≡ some r)
            × (((e : PersistenceError) × (l ≡ err e) × (r ≡ ([], d)))
                ⊎ ((subs : List Subscription) × (l ≡ ok subs)
                    × RoundOutcome (due global_interval now subs) subs r))
      go (err e) h = (([], d), refl, inl (e, refl, refl))
      go (ok subs) h =
          let held = load_subscriptions-Reads codec back faults d subs h in
          let (r, done, outcome) = refresh_from-RoundOutcome subs 0 d subs (subs, held, refl) in
          (r, done, inr (subs, refl, outcome))
