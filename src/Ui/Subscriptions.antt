-- ===== src/Ui/Subscriptions.antt =====
-- crates/ui/src/subscriptions.rs: the page that edits the subscriptions. It keeps them in memory and
-- stores each change; an error of the store is only logged. What the handlers send is a list of
-- effects. A result `none` is a panic.
pub mod Edits
pub mod Synced
pub mod Commands
pub mod Sorting
use v2ray_rs.Models.Subscription.{
  UuidValue, Subscription, SubscriptionNode, new_from_url, has_enabled_nodes,
}
use v2ray_rs.Storage.Persistence.{
  PersistenceError, Codec, Disk, Faults, replace_first, save_subscriptions, load_subscriptions,
  add_subscription, update_subscription, remove_subscription,
}
use v2ray_rs.Subscription.Update.{UpdateResult}
use v2ray_rs.Subscription.Service.{Refreshed}
use v2ray_rs.Base.{
  ℕ, zero, suc, ◌+◌, ◌-◌, String, Bool, true, false, not, ◌&&◌, Option, none, some, List, [], ◌∷◌,
  ◌++◌, map, ltb, leb, ◌==◌, if◌then◌else◌, unwrap_or, length, get_elem?, insert_at, erase_at,
  keep_if, any, find, Result, ok, err, sort_by,
}

pub data Direction : Type 0 where
  up down : Direction

pub data SubscriptionsMsg : Type 0 where
  toggle_subscription : UuidValue → SubscriptionsMsg
  toggle_node : UuidValue → ℕ → SubscriptionsMsg
  delete_subscription : UuidValue → SubscriptionsMsg
  rename_subscription : UuidValue → String → SubscriptionsMsg
  move_subscription : UuidValue → Direction → SubscriptionsMsg
  move_node : UuidValue → ℕ → Direction → SubscriptionsMsg
  add_new : (name url : String) → SubscriptionsMsg
  refresh_one : UuidValue → SubscriptionsMsg
  test_latency : UuidValue → SubscriptionsMsg
  sort_by_latency : UuidValue → SubscriptionsMsg
  enable_all_nodes disable_all_nodes : UuidValue → SubscriptionsMsg
  drag_drop_subscription : (from to : ℕ) → SubscriptionsMsg
  drag_drop_node : UuidValue → (from to : ℕ) → SubscriptionsMsg
  check_auto_update : SubscriptionsMsg
  set_locked : Bool → SubscriptionsMsg

-- the texts of the errors of a failed refresh are kept as they are printed
pub data SubscriptionsCmdOutput : Type 0 where
  refresh_done : UuidValue → Subscription → UpdateResult → SubscriptionsCmdOutput
  latency_result : UuidValue → List (Option ℕ) → SubscriptionsCmdOutput
  refresh_failed : UuidValue → String → SubscriptionsCmdOutput
  auto_update_done : List (UuidValue × Result String UpdateResult) → SubscriptionsCmdOutput

-- the output to the window, a message to itself, and the commands that run beside it
pub data Effect : Type 0 where
  active_nodes_changed : Bool → Effect
  input : SubscriptionsMsg → Effect
  run_refresh : UuidValue → Effect
  run_ping : UuidValue → List SubscriptionNode → Effect
  run_auto_update : (interval : ℕ) → Effect

-- the page, with the disk that its paths point to
pub record SubscriptionsPage : Type 0 where
  pub subscriptions : List Subscription
  pub auto_update_interval_secs : ℕ
  pub testing_latency : List UuidValue
  pub locked : Bool
  pub disk : Disk
  pub sent : List Effect

-- an edit of a subscription: a panic, nothing to do, or the edited one
pub data Edit : Type 0 where
  panic unchanged : Edit
  edited : Subscription → Edit

abbrev pub flip : SubscriptionNode → SubscriptionNode
flip n = record n { enabled = not n.enabled }

abbrev pub set_enabled : Bool → SubscriptionNode → SubscriptionNode
set_enabled b n = record n { enabled = b }

abbrev pub change_at :
    ℕ → (SubscriptionNode → SubscriptionNode) → List SubscriptionNode → List SubscriptionNode
change_at i f [] = []
change_at zero f (n ∷ ns) = f n ∷ ns
change_at (suc i) f (n ∷ ns) = n ∷ change_at i f ns

-- what stands at an index is replaced
abbrev pub set_at {ℓ} : {A : Type ℓ} → List A → ℕ → A → List A
set_at [] i v = []
set_at (x ∷ xs) zero v = v ∷ xs
set_at (x ∷ xs) (suc i) v = x ∷ set_at xs i v

abbrev pub swapped {ℓ} : {A : Type ℓ} → ℕ → ℕ → Option A → Option A → List A → Option (List A)
swapped i j (some a) (some b) xs = some (set_at (set_at xs i b) j a)
swapped i j _ _ xs = none

-- `slice::swap`, which panics out of bounds
abbrev pub swap {ℓ} : {A : Type ℓ} → ℕ → ℕ → List A → Option (List A)
swap i j xs = swapped i j (get_elem? xs i) (get_elem? xs j) xs

-- the index that a move leads to
abbrev pub moved_index : Direction → ℕ → ℕ → ℕ
moved_index up len i = if ltb 0 i then i - 1 else i
moved_index down len i = if ltb (i + 1) len then i + 1 else i

-- a vector whose element at `from` is taken out and put in at `to`
abbrev pub reinserted {ℓ} : {A : Type ℓ} → ℕ → ℕ → Option A → List A → List A
reinserted from to none xs = xs
reinserted from to (some a) xs = insert_at (erase_at xs from) to a

abbrev pub can_drop : ℕ → ℕ → ℕ → Bool
can_drop from to len = not (from == to) && ltb from len && ltb to len

abbrev pub latency : SubscriptionNode → ℕ
latency n = unwrap_or n.last_latency_ms 0xffffffffffffffff

abbrev pub by_latency : SubscriptionNode → SubscriptionNode → Bool
by_latency a b = leb (latency a) (latency b)

abbrev pub with_nodes : Subscription → List SubscriptionNode → Edit
with_nodes s nodes = edited (record s { nodes = nodes })

abbrev pub or_panic : Subscription → Option (List SubscriptionNode) → Edit
or_panic s none = panic
or_panic s (some nodes) = with_nodes s nodes

abbrev pub set_latencies : List SubscriptionNode → List (Option ℕ) → List SubscriptionNode
set_latencies [] ls = []
set_latencies (n ∷ ns) [] = n ∷ ns
set_latencies (n ∷ ns) (l ∷ ls) = record n { last_latency_ms = l } ∷ set_latencies ns ls

-- `iter_mut().find` and an assignment to what is found
abbrev pub assign_first : UuidValue → Subscription → List Subscription → List Subscription
assign_first id s [] = []
assign_first id s (x ∷ xs) =
    let rest = assign_first id s xs in if x.id == id then s ∷ xs else x ∷ rest

abbrev pub toggled_node : ℕ → Subscription → Option SubscriptionNode → Edit
toggled_node i s none = unchanged
toggled_node i s (some n) = with_nodes s (change_at i flip s.nodes)

abbrev pub toggle : Subscription → Edit
toggle s = edited (record s { enabled = not s.enabled })

abbrev pub toggle_at : ℕ → Subscription → Edit
toggle_at i s = toggled_node i s (get_elem? s.nodes i)

abbrev pub rename : String → Subscription → Edit
rename name s = edited (record s { name = name })

abbrev pub move_in : ℕ → Direction → Subscription → Edit
move_in i direction s =
    let new = moved_index direction (length s.nodes) i in
    if not (new == i) then or_panic s (swap i new s.nodes) else unchanged

abbrev pub sort : Subscription → Edit
sort s = with_nodes s (sort_by by_latency s.nodes)

abbrev pub set_all : Bool → Subscription → Edit
set_all b s = with_nodes s (map (set_enabled b) s.nodes)

abbrev pub drop_in : ℕ → ℕ → Subscription → Edit
drop_in from to s =
    if can_drop from to (length s.nodes)
    then with_nodes s (reinserted from to (get_elem? s.nodes from) s.nodes)
    else unchanged

-- the last lines of a handler
unfoldable pub tell : SubscriptionsPage → SubscriptionsPage
tell p = record p {
  sent = p.sent ++ active_nodes_changed (any has_enabled_nodes p.subscriptions) ∷ [];
}

unfoldable pub request : Effect → SubscriptionsPage → SubscriptionsPage
request e p = record p { sent = p.sent ++ e ∷ [] }

abbrev pub position_from : ℕ → UuidValue → List Subscription → Option ℕ
position_from n id [] = none
position_from n id (s ∷ subs) =
    let rest = position_from (n + 1) id subs in if s.id == id then some n else rest

module _ (codec : Codec (List Subscription)) (faults : Faults) where
  -- the edited subscription is put into memory, then stored
  abbrev pub store_edit : UuidValue → Edit → SubscriptionsPage → Option SubscriptionsPage
  store_edit id panic p = none
  store_edit id unchanged p = some p
  store_edit id (edited s) p = some (record p {
    subscriptions = assign_first id s p.subscriptions;
    disk = (update_subscription codec faults s p.disk).1;
  })

  abbrev pub edit_found :
      UuidValue
      → (Subscription → Edit)
      → Option Subscription
      → SubscriptionsPage
      → Option SubscriptionsPage
  edit_found id edit none p = some p
  edit_found id edit (some s) p = store_edit id (edit s) p

  unfoldable pub edit_first :
      UuidValue → (Subscription → Edit) → SubscriptionsPage → Option SubscriptionsPage
  edit_first id edit p = edit_found id edit (find (λ s. s.id == id) p.subscriptions) p

  -- the whole list is put into memory, then stored
  abbrev pub store_all : Option (List Subscription) → SubscriptionsPage → Option SubscriptionsPage
  store_all none p = none
  store_all (some subs) p =
      some
        (record p { subscriptions = subs; disk = (save_subscriptions codec faults subs p.disk).1 })

  abbrev pub move_found : Direction → Option ℕ → SubscriptionsPage → Option SubscriptionsPage
  move_found direction none p = some p
  move_found direction (some i) p =
      let new = moved_index direction (length p.subscriptions) i in
      if not (new == i) then store_all (swap i new p.subscriptions) p else some p

  abbrev pub drag_drop : ℕ → ℕ → SubscriptionsPage → Option SubscriptionsPage
  drag_drop from to p =
      if can_drop from to (length p.subscriptions)
      then store_all (some (reinserted from to (get_elem? p.subscriptions from) p.subscriptions)) p
      else some p

  abbrev pub ping_found : UuidValue → Option Subscription → SubscriptionsPage → SubscriptionsPage
  ping_found id none p = p
  ping_found id (some s) p =
      request (run_ping id s.nodes) (record p { testing_latency = id ∷ p.testing_latency })

  abbrev pub then_tell : Option SubscriptionsPage → Option SubscriptionsPage
  then_tell none = none
  then_tell (some p) = some (tell p)

  -- `fresh` is the identifier that a new subscription draws
  unfoldable pub update :
      UuidValue → SubscriptionsMsg → SubscriptionsPage → Option SubscriptionsPage
  unfolding edit_first tell request
  update fresh (toggle_subscription id) p = then_tell (edit_first id toggle p)
  update fresh (toggle_node id i) p = then_tell (edit_first id (toggle_at i) p)
  update fresh (rename_subscription id name) p = then_tell (edit_first id (rename name) p)
  update fresh (move_subscription id direction) p =
      then_tell (move_found direction (position_from 0 id p.subscriptions) p)
  update fresh (move_node id i direction) p = then_tell (edit_first id (move_in i direction) p)
  update fresh (delete_subscription id) p = some (
      tell (record p {
        disk = (remove_subscription codec faults id p.disk).1;
        subscriptions = keep_if (λ s. not (s.id == id)) p.subscriptions;
      }))
  update fresh (add_new name address) p =
      let s = new_from_url fresh name address in
      some (
        tell (
          request (input (refresh_one fresh)) (record p {
            disk = (add_subscription codec faults s p.disk).1;
            subscriptions = p.subscriptions ++ s ∷ [];
          })))
  update fresh (refresh_one id) p = some (request (run_refresh id) p)
  update fresh (test_latency id) p = some (
      if any (λ t. t == id) p.testing_latency
      then p
      else ping_found id (find (λ s. s.id == id) p.subscriptions) p)
  update fresh (sort_by_latency id) p = then_tell (edit_first id sort p)
  update fresh (enable_all_nodes id) p = then_tell (edit_first id (set_all true) p)
  update fresh (disable_all_nodes id) p = then_tell (edit_first id (set_all false) p)
  update fresh (drag_drop_subscription from to) p = then_tell (drag_drop from to p)
  update fresh (drag_drop_node id from to) p = then_tell (edit_first id (drop_in from to) p)
  update fresh (set_locked locked) p = some (tell (record p { locked = locked }))
  update fresh check_auto_update p = some (request (run_auto_update p.auto_update_interval_secs) p)

  abbrev pub with_latencies : UuidValue → List (Option ℕ) → List Subscription → List Subscription
  with_latencies id ls [] = []
  with_latencies id ls (s ∷ subs) =
      let rest = with_latencies id ls subs in
      if s.id == id then record s { nodes = set_latencies s.nodes ls } ∷ subs else s ∷ rest

  abbrev pub or_empty : Result PersistenceError (List Subscription) → List Subscription
  or_empty (ok subs) = subs
  or_empty (err e) = []

  abbrev pub reloaded :
      List (UuidValue × Result String UpdateResult) → SubscriptionsPage → SubscriptionsPage
  reloaded [] p = p
  reloaded (_ ∷ _) p = record p {
    subscriptions = or_empty (load_subscriptions codec faults p.disk);
  }

  unfoldable pub update_cmd : SubscriptionsCmdOutput → SubscriptionsPage → SubscriptionsPage
  unfolding tell
  update_cmd (refresh_done id s result) p =
      tell (record p { subscriptions = assign_first id s p.subscriptions })
  update_cmd (latency_result id ls) p = tell (record p {
    testing_latency = keep_if (λ t. not (t == id)) p.testing_latency;
    subscriptions = with_latencies id ls p.subscriptions;
  })
  update_cmd (refresh_failed id e) p = tell p
  update_cmd (auto_update_done results) p = tell (reloaded results p)
