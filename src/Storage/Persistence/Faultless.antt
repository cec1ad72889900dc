-- ===== src/Storage/Persistence/Faultless.antt =====
-- What the operations on the stored subscriptions leave when no call fails.
use mathlib.Core.Path.{subst}
use v2ray_rs.Models.Subscription.{UuidValue, Subscription, stored_form}
use v2ray_rs.Storage.Persistence.{
  replace_first, has_id, PersistenceError, Codec, Disk, save_subscriptions, load_subscriptions,
  giving, replace_first, has_id, add_subscription, update_subscription, remove_subscription,
}
use v2ray_rs.Storage.Persistence.Subscriptions.{
  Reads, Same, Holds-Same, on_list-Same, stored_again, add_one, update_one, remove_one, shorter,
  kept_all, replace_first-absent, ReadsBack, no_faults, Holds, shorter, kept_all,
  replace_first-absent,
}
use v2ray_rs.Base.{
  String, ◌≡◌, refl, sym, ◌∙◌, ◌⊎◌, inl, inr, Bool, true, false, not, List, [], ◌∷◌, ◌++◌, map,
  ◌==◌, if◌then◌else◌, keep_if, Result, ok, err,
}

-- the file holds the list, or the format has no text for it; but for latencies
abbrev pub IsKept : Codec (List Subscription) → Disk → List Subscription → Type 0
IsKept codec d subs =
    Holds codec d subs
    ⊎ ((written : List Subscription) × Same written subs
        × (e : String) × (codec.encode written ≡ err e))

IsKept-Same :
    (codec : Codec (List Subscription)) (d : Disk) (xs ys : List Subscription)
    → Same xs ys
    → IsKept codec d xs
    → IsKept codec d ys
IsKept-Same codec d xs ys h (inl held) = inl (Holds-Same codec d xs ys h held)
IsKept-Same codec d xs ys h (inr (written, same, e, k)) = inr (written, same ∙ h, e, k)

module _ (codec : Codec (List Subscription)) (back : ReadsBack codec) where
  pub save_subscriptions-IsKept :
      (subs : List Subscription) (d : Disk)
      → IsKept codec (save_subscriptions codec no_faults subs d).1 subs
  unfolding save_subscriptions
  save_subscriptions-IsKept subs d = go (codec.encode subs) refl
    where
      go :
          (r : Result String String)
          → codec.encode subs ≡ r
          → IsKept codec (save_subscriptions codec no_faults subs d).1 subs
      go (ok text) e = inl (map stored_form subs, rw (e, back subs text e) refl, stored_again subs)
      go (err e) h = inr (subs, refl, e, h)

  giving-disk :
      {A : Type 0} (a : A) (p : Result PersistenceError (Unit {0}) × Disk)
      → (giving codec no_faults a p).1 ≡ p.1
  giving-disk a (ok _, d) = refl
  giving-disk a (err e, d) = refl

  module _ (d : Disk) (subs : List Subscription) (held : Reads codec d subs) where
    loads : load_subscriptions codec no_faults d ≡ ok subs
    unfolding load_subscriptions
    loads = held

    -- a list is saved, or it is the one that is held already
    changed_if :
        (b : Bool) (new : List Subscription)
        → (b ≡ false → new ≡ subs)
        → IsKept codec
            (if b
              then giving codec no_faults true (save_subscriptions codec no_faults new d)
              else (ok false, d)).1
            new
    changed_if true new same =
        subst (λ d'. IsKept codec d' new)
          (sym (giving-disk true (save_subscriptions codec no_faults new d)))
          (save_subscriptions-IsKept new d)
    changed_if false new same = subst (IsKept codec d) (sym (same refl)) (inl (subs, held, refl))

    added :
        (s : Subscription) → IsKept codec (add_subscription codec no_faults s d).1 (subs ++ s ∷ [])
    unfolding add_subscription
    added s = rw loads (save_subscriptions-IsKept (subs ++ s ∷ []) d)

    replaced :
        (s : Subscription)
        → IsKept codec (update_subscription codec no_faults s d).1 (replace_first s subs)
    unfolding update_subscription
    replaced s =
        rw loads
          (changed_if (has_id s.id subs) (replace_first s subs) (replace_first-absent s subs))

    removed :
        (id : UuidValue)
        → IsKept codec
            (remove_subscription codec no_faults id d).1
            (keep_if (λ s. not (s.id == id)) subs)
    unfolding remove_subscription
    removed id =
        rw (loads, shorter id subs)
          (changed_if (has_id id subs) (keep_if (λ s. not (s.id == id)) subs) (kept_all id subs))

  module _ (d : Disk) (subs : List Subscription) (held : Holds codec d subs) where
    pub add_subscription-IsKept :
        (s : Subscription) → IsKept codec (add_subscription codec no_faults s d).1 (subs ++ s ∷ [])
    add_subscription-IsKept s =
        let (stored, reads, same) = held in
        IsKept-Same codec (add_subscription codec no_faults s d).1 (stored ++ s ∷ [])
          (subs ++ s ∷ []) (on_list-Same (add_one s) stored subs same) (added d stored reads s)

    pub update_subscription-IsKept :
        (s : Subscription)
        → IsKept codec (update_subscription codec no_faults s d).1 (replace_first s subs)
    update_subscription-IsKept s =
        let (stored, reads, same) = held in
        IsKept-Same codec (update_subscription codec no_faults s d).1 (replace_first s stored)
          (replace_first s subs) (on_list-Same (update_one s) stored subs same)
          (replaced d stored reads s)

    pub remove_subscription-IsKept :
        (id : UuidValue)
        → IsKept codec
            (remove_subscription codec no_faults id d).1
            (keep_if (λ s. not (s.id == id)) subs)
    remove_subscription-IsKept id =
        let (stored, reads, same) = held in
        IsKept-Same codec (remove_subscription codec no_faults id d).1
          (keep_if (λ s. not (s.id == id)) stored) (keep_if (λ s. not (s.id == id)) subs)
          (on_list-Same (remove_one id) stored subs same) (removed d stored reads id)
