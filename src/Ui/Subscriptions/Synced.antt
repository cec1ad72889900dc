-- ===== src/Ui/Subscriptions/Synced.antt =====
-- crates/ui/src/subscriptions.rs: the page's memory and the stored file.
use mathlib.Core.Path.{subst}
use v2ray_rs.Models.Subscription.{UuidValue, Subscription}
use v2ray_rs.Storage.Persistence.{Codec, update_subscription}
use v2ray_rs.Storage.Persistence.Subscriptions.{ReadsBack, no_faults, Holds}
use v2ray_rs.Models.Subscription.{new_from_url}
use v2ray_rs.Storage.Persistence.Faultless.{
  save_subscriptions-IsKept, add_subscription-IsKept, remove_subscription-IsKept, IsKept,
  update_subscription-IsKept,
}
use v2ray_rs.Subscription.Service.Refreshing.{found_id}
use v2ray_rs.Ui.Subscriptions.Edits.{
  swap-some, moved_inside, toggled_node-Keeps, drop_in-Keeps, position_from-bound, Keeps,
  move_in-Keeps, assign_first-replace_first, stays_down, raise_beyond,
}
use v2ray_rs.Ui.Subscriptions.{
  toggle_subscription, toggle_node, delete_subscription, rename_subscription, move_subscription,
  add_new, refresh_one, test_latency, sort_by_latency, enable_all_nodes, disable_all_nodes,
  drag_drop_subscription, drag_drop_node, check_auto_update, set_locked, reinserted, can_drop,
  toggle, toggle_at, rename, sort, set_all, drop_in, request, position_from, store_all, move_found,
  drag_drop, ping_found, update, Direction, up, down, SubscriptionsMsg, move_node,
  SubscriptionsPage, Edit, panic, unchanged, edited, swap, moved_index, or_panic, move_in, tell,
  store_edit, edit_found, edit_first, then_tell,
}
use v2ray_rs.Base.{
  ℕ, ◌≤◌, ◌<◌, ◌≡◌, refl, sym, ap, ◌∙◌, ◌⊎◌, inl, inr, Bool, true, false, not, Option, none, some,
  List, arith, ltb, ◌==◌, if◌then◌else◌, Bool-cases, length, get_elem?, any, find,
}

module _ (codec : Codec (List Subscription)) (back : ReadsBack codec) where
  -- the file holds what the page shows, but for latencies
  abbrev pub IsSynced : SubscriptionsPage → Type 0
  IsSynced p = Holds codec p.disk p.subscriptions

  -- what a handler leaves; the one panic is that of a node moved up from beyond the end
  abbrev pub UpdateOutcome :
      SubscriptionsMsg → SubscriptionsPage → Option SubscriptionsPage → Type 0
  UpdateOutcome m p none =
      (id : UuidValue) × (i : ℕ) × (s : Subscription) × (m ≡ move_node id i up)
      × (find (λ t. t.id == id) p.subscriptions ≡ some s)
      × (length s.nodes ≤ i)
  UpdateOutcome m p (some p') = IsKept codec p'.disk p'.subscriptions

  module _ (p : SubscriptionsPage) (synced : IsSynced p) where
    -- an edit is put into memory and into the file
    stored_edit :
        (m : SubscriptionsMsg) (id : UuidValue) (s : Subscription) (e : Edit)
        → s.id ≡ id
        → Keeps s e
        → UpdateOutcome m p (then_tell codec no_faults (store_edit codec no_faults id e p))
    unfolding tell
    stored_edit m id s panic h k = absurd k
    stored_edit m id s unchanged h k = inl synced
    stored_edit m id s (edited t) h k =
        subst (IsKept codec (update_subscription codec no_faults t p.disk).1)
          (sym (assign_first-replace_first id t p.subscriptions (k ∙ h)))
          (update_subscription-IsKept codec back p.disk p.subscriptions synced t)

    edited_found :
        (m : SubscriptionsMsg) (id : UuidValue) (edit : Subscription → Edit)
        (o : Option Subscription)
        → find (λ t. t.id == id) p.subscriptions ≡ o
        → ((s : Subscription) → Keeps s (edit s))
        → UpdateOutcome m p (then_tell codec no_faults (edit_found codec no_faults id edit o p))
    unfolding tell
    edited_found m id edit none h k = inl synced
    edited_found m id edit (some s) h k =
        stored_edit m id s (edit s) (found_id id p.subscriptions h) (k s)

    edited_first :
        (m : SubscriptionsMsg) (id : UuidValue) (edit : Subscription → Edit)
        → ((s : Subscription) → Keeps s (edit s))
        → UpdateOutcome m p (then_tell codec no_faults (edit_first codec no_faults id edit p))
    unfolding edit_first
    edited_first m id edit k =
        edited_found m id edit (find (λ t. t.id == id) p.subscriptions) refl k

    -- a node of the subscription that was found is moved
    node_moved :
        (id : UuidValue) (i : ℕ) (direction : Direction) (s : Subscription)
        → find (λ t. t.id == id) p.subscriptions ≡ some s
        → UpdateOutcome
            (move_node id i direction)
            p
            (then_tell codec no_faults (store_edit codec no_faults id (move_in i direction s) p))
    unfolding tell
    node_moved id i direction s h = elim (Bool-cases (ltb i (length s.nodes))) [
      | inl inside ↦
          stored_edit (move_node id i direction) id s (move_in i direction s)
            (found_id id p.subscriptions h) (move_in-Keeps i direction s (ground arith))
      | inr beyond ↦ moved_beyond direction (ground arith)
    ]
      where
        unmoved :
            (e : Edit)
            → e ≡ unchanged
            → UpdateOutcome
                (move_node id i down)
                p
                (then_tell codec no_faults (store_edit codec no_faults id e p))
        unmoved panic k = cc
        unmoved unchanged k = inl synced
        unmoved (edited t) k = cc

        raised :
            (e : Edit)
            → length s.nodes ≤ i
            → (e ≡ unchanged) ⊎ (e ≡ panic)
            → UpdateOutcome
                (move_node id i up)
                p
                (then_tell codec no_faults (store_edit codec no_faults id e p))
        raised panic k l = (id, i, s, refl, h, k)
        raised unchanged k l = inl synced
        raised (edited t) k (inl x) = cc
        raised (edited t) k (inr x) = cc

        moved_beyond :
            (d : Direction)
            → length s.nodes ≤ i
            → UpdateOutcome
                (move_node id i d)
                p
                (then_tell codec no_faults (store_edit codec no_faults id (move_in i d s) p))
        moved_beyond down k = unmoved (move_in i down s) (
            ap
              (λ b.
                if not b
                then or_panic s (swap i (moved_index down (length s.nodes) i) s.nodes)
                else unchanged)
              (stays_down (length s.nodes) i k))
        moved_beyond up k = raised (move_in i up s) k (raise_beyond i s k)

    node_moved_found :
        (id : UuidValue) (i : ℕ) (direction : Direction) (o : Option Subscription)
        → find (λ t. t.id == id) p.subscriptions ≡ o
        → UpdateOutcome
            (move_node id i direction)
            p
            (then_tell codec no_faults (edit_found codec no_faults id (move_in i direction) o p))
    unfolding tell
    node_moved_found id i direction none h = inl synced
    node_moved_found id i direction (some s) h = node_moved id i direction s h

    all_stored :
        (m : SubscriptionsMsg) (o : Option (List Subscription)) (subs : List Subscription)
        → o ≡ some subs
        → UpdateOutcome m p (then_tell codec no_faults (store_all codec no_faults o p))
    unfolding tell
    all_stored m none subs h = cc
    all_stored m (some xs) subs h = save_subscriptions-IsKept codec back xs p.disk

    list_moved :
        (m : SubscriptionsMsg) (id : UuidValue) (direction : Direction) (o : Option ℕ)
        → position_from 0 id p.subscriptions ≡ o
        → UpdateOutcome m p (then_tell codec no_faults (move_found codec no_faults direction o p))
    unfolding tell
    list_moved m id direction none h = inl synced
    list_moved m id direction (some i) h =
        let inside : i < length p.subscriptions =
          omega (arith, position_from-bound 0 id p.subscriptions i h) in
        let new = moved_index direction (length p.subscriptions) i in
        let (ys, e) =
          swap-some p.subscriptions i new inside
            (moved_inside direction (length p.subscriptions) i inside) in
        go (not (new == i)) ys e
      where
        go :
            (b : Bool) (ys : List Subscription)
            → swap i (moved_index direction (length p.subscriptions) i) p.subscriptions ≡ some ys
            → UpdateOutcome m p (
                then_tell codec no_faults (
                  if b
                  then store_all codec no_faults
                      (swap i (moved_index direction (length p.subscriptions) i) p.subscriptions)
                      p
                  else some p))
        go true ys e =
            all_stored m (swap i (moved_index direction (length p.subscriptions) i) p.subscriptions)
              ys e
        go false ys e = inl synced

    dragged :
        (m : SubscriptionsMsg) (from to : ℕ)
        → UpdateOutcome m p (then_tell codec no_faults (drag_drop codec no_faults from to p))
    unfolding tell
    dragged m from to = go (can_drop from to (length p.subscriptions))
      where
        dropped : List Subscription
        dropped = reinserted from to (get_elem? p.subscriptions from) p.subscriptions

        go :
            (b : Bool)
            → UpdateOutcome m p (
                then_tell codec no_faults
                  (if b then store_all codec no_faults (some dropped) p else some p))
        go true = all_stored m (some dropped) dropped refl
        go false = inl synced

    pinged :
        (m : SubscriptionsMsg) (id : UuidValue) (b : Bool) (o : Option Subscription)
        → UpdateOutcome m p (some (if b then p else ping_found codec no_faults id o p))
    unfolding request
    pinged m id true o = inl synced
    pinged m id false none = inl synced
    pinged m id false (some s) = inl synced

    -- Where the file holds what the page shows, but for latencies, which are not written, and no call
    -- of the store fails, it does so after every message, or the format has no text for the list that
    -- the page then shows, with some latencies. Only a node moved up from beyond the end of its list is
    -- a panic. The format reads back what it writes, but for latencies.
    pub update_lem :
        (fresh : UuidValue) (m : SubscriptionsMsg)
        → UpdateOutcome m p (update codec no_faults fresh m p)
    unfolding update tell request edit_first
    update_lem fresh (toggle_subscription id) =
        edited_first (toggle_subscription id) id toggle (λ s. refl)
    update_lem fresh (toggle_node id i) =
        edited_first (toggle_node id i) id (toggle_at i)
          (λ s. toggled_node-Keeps i s (get_elem? s.nodes i))
    update_lem fresh (rename_subscription id name) =
        edited_first (rename_subscription id name) id (rename name) (λ s. refl)
    update_lem fresh (move_subscription id direction) =
        list_moved (move_subscription id direction) id direction
          (position_from 0 id p.subscriptions) refl
    update_lem fresh (move_node id i direction) =
        node_moved_found id i direction (find (λ t. t.id == id) p.subscriptions) refl
    update_lem fresh (delete_subscription id) =
        remove_subscription-IsKept codec back p.disk p.subscriptions synced id
    update_lem fresh (add_new name address) =
        add_subscription-IsKept codec back p.disk p.subscriptions synced
          (new_from_url fresh name address)
    update_lem fresh (refresh_one id) = inl synced
    update_lem fresh (test_latency id) =
        pinged (test_latency id) id (any (λ t. t == id) p.testing_latency)
          (find (λ s. s.id == id) p.subscriptions)
    update_lem fresh (sort_by_latency id) = edited_first (sort_by_latency id) id sort (λ s. refl)
    update_lem fresh (enable_all_nodes id) =
        edited_first (enable_all_nodes id) id (set_all true) (λ s. refl)
    update_lem fresh (disable_all_nodes id) =
        edited_first (disable_all_nodes id) id (set_all false) (λ s. refl)
    update_lem fresh (drag_drop_subscription from to) =
        dragged (drag_drop_subscription from to) from to
    update_lem fresh (drag_drop_node id from to) =
        edited_first (drag_drop_node id from to) id (drop_in from to) (drop_in-Keeps from to)
    update_lem fresh (set_locked locked) = inl synced
    update_lem fresh check_auto_update = inl synced
