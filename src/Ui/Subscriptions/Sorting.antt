-- ===== src/Ui/Subscriptions/Sorting.antt =====
-- crates/ui/src/subscriptions.rs: the nodes after `SortByLatency`.
use mathlib.Core.List.{Perm}
use v2ray_rs.Models.Subscription.{UuidValue, Subscription, SubscriptionNode}
use v2ray_rs.Storage.Persistence.{Codec, Faults}
use v2ray_rs.Subscription.Service.Refreshing.{found_id}
use v2ray_rs.Ui.Subscriptions.{
  SubscriptionsPage, sort_by_latency, by_latency, latency, assign_first, sort, edit_found,
  edit_first, then_tell, tell, update,
}
use v2ray_rs.Base.{
  ℕ, ◌≤◌, ◌≡◌, refl, ap, inl, inr, true, false, Option, none, some, List, [], ◌∷◌, arith, leb, ◌==◌,
  ==_iff, Bool-cases, unwrap_or, find, All, sort_by, IsSorted, sort_by-perm, sort_by-IsSorted,
}

find-assign_first :
    (id : UuidValue) (s t : Subscription) (subs : List Subscription)
    → find (λ x. x.id == id) subs ≡ some s
    → t.id ≡ id
    → find (λ x. x.id == id) (assign_first id t subs) ≡ some t
find-assign_first id s t [] h k = cc
find-assign_first id s t (x ∷ xs) h k = elim (Bool-cases (x.id == id)) [
  | inl e ↦ let here : (t.id == id) ≡ true = (==_iff t.id id).1 k in rw (e, here) refl
  | inr e ↦ rw (e, e) (find-assign_first id s t xs (rw e at h) k)
]

by_latency_total : (a b : SubscriptionNode) → by_latency a b ≡ false → by_latency b a ≡ true
by_latency_total a b h = leb_total (latency a) (latency b) h
  where
    leb_total : (m n : ℕ) → leb m n ≡ false → leb n m ≡ true
    leb_total m n k = ground arith

by_latency_trans :
    (a b c : SubscriptionNode)
    → by_latency a b ≡ true
    → by_latency b c ≡ true
    → by_latency a c ≡ true
by_latency_trans a b c = leb_trans (latency a) (latency b) (latency c)
  where
    leb_trans : (l m n : ℕ) → leb l m ≡ true → leb m n ≡ true → leb l n ≡ true
    leb_trans l m n h k = ground arith

-- a latency that may come before another: by its value, where a node without a measured one counts as
-- the largest of 64 bits
abbrev pub Precedes : Option ℕ → Option ℕ → Type 0
Precedes (some a) (some b) = a ≤ b
Precedes (some a) none = a ≤ 0xffffffffffffffff
Precedes none (some b) = 0xffffffffffffffff ≤ b
Precedes none none = Unit

abbrev pub Rising : List SubscriptionNode → Type 0
Rising [] = Unit
Rising (n ∷ ns) =
    All (λ (m : SubscriptionNode). Precedes n.last_latency_ms m.last_latency_ms) ns × Rising ns

by_latency-Precedes :
    (n m : SubscriptionNode) → by_latency n m ≡ true → Precedes n.last_latency_ms m.last_latency_ms
by_latency-Precedes n m h = go n.last_latency_ms m.last_latency_ms h
  where
    go :
        (a b : Option ℕ)
        → leb (unwrap_or a 0xffffffffffffffff) (unwrap_or b 0xffffffffffffffff) ≡ true
        → Precedes a b
    go (some a) (some b) h = ground arith
    go (some a) none h = ground arith
    go none (some b) h = ground arith
    go none none h = tt

first_Precedes :
    (n : SubscriptionNode) (ns : List SubscriptionNode)
    → All (λ m. by_latency n m ≡ true) ns
    → All (λ (m : SubscriptionNode). Precedes n.last_latency_ms m.last_latency_ms) ns
first_Precedes n [] h = tt
first_Precedes n (m ∷ ms) (h, hs) = (by_latency-Precedes n m h, first_Precedes n ms hs)

IsSorted-Rising : (ns : List SubscriptionNode) → IsSorted by_latency ns → Rising ns
IsSorted-Rising [] h = tt
IsSorted-Rising (n ∷ ns) (h, hs) = (first_Precedes n ns h, IsSorted-Rising ns hs)

-- After `SortByLatency` the first subscription with the identifier has its nodes rearranged by rising
-- latency, those without a measured one counting as the largest of 64 bits, whatever the store does.
pub sort_by_latency_lem :
    (codec : Codec (List Subscription)) (faults : Faults) (fresh id : UuidValue)
    (p : SubscriptionsPage) (s : Subscription)
    → find (λ x. x.id == id) p.subscriptions ≡ some s
    → (p' : SubscriptionsPage) × (s' : Subscription) × (update codec faults fresh
          (sort_by_latency id)
          p
        ≡ some p')
      × (find (λ x. x.id == id) p'.subscriptions ≡ some s')
      × Rising s'.nodes
      × Perm s'.nodes s.nodes
unfolding update edit_first tell
sort_by_latency_lem codec faults fresh id p s h = (
  _,
  record s { nodes = sort_by by_latency s.nodes },
  ap (λ o. then_tell codec faults (edit_found codec faults id sort o p)) h,
  find-assign_first id s (record s { nodes = sort_by by_latency s.nodes }) p.subscriptions h
      (found_id id p.subscriptions h),
  IsSorted-Rising (sort_by by_latency s.nodes)
      (sort_by-IsSorted by_latency by_latency_total by_latency_trans s.nodes),
  sort_by-perm by_latency s.nodes,
)
