-- ===== src/Subscription/Update/Refetched.antt =====
-- Fetching the nodes of a subscription again, when they have not changed.
use v2ray_rs.Models.Proxy.{ProxyNode, address, port, discriminant}
use v2ray_rs.Models.Subscription.{SubscriptionNode}
use v2ray_rs.Subscription.Update.{same_server, reconciled, reconcile_with_counts}
use v2ray_rs.Subscription.Update.Counting.{count, count-both}
use v2ray_rs.Subscription.Update.Reconciled.{has_old, nodes_of, Distinct, exact_lem}
use v2ray_rs.Base.{
  ◌-◌, ◌≡◌, refl, ap, ◌∙◌, Bool, true, false, not, ◌||◌, none, List, [], ◌∷◌, map, arith, eq_refl,
  ==_iff, length, any, All, length-map,
}

same_server_self : (n : ProxyNode) → same_server n n ≡ true
same_server_self n =
    rw
      (
        eq_refl (address n),
        (==_iff (port n) (port n)).1 refl,
        (==_iff (discriminant n) (discriminant n)).1 refl,
      )
      refl

or_left : (b c : Bool) → b || c ≡ false → b ≡ false
or_left true c h = cc
or_left false c h = refl

or_right : (b c : Bool) → b || c ≡ false → c ≡ false
or_right true c h = cc
or_right false c h = h

or_true : (b : Bool) → b || true ≡ true
or_true true = refl
or_true false = refl

none_of :
    (p : ProxyNode → Bool) (os : List SubscriptionNode)
    → any p (nodes_of os) ≡ false
    → All (λ o. p o.node ≡ false) os
none_of p [] h = tt
none_of p (o ∷ os) h = (
  or_left (p o.node) (any p (nodes_of os)) h,
  none_of p os (or_right (p o.node) (any p (nodes_of os)) h),
)

-- the nodes as the reconciliation leaves them when none changes
abbrev pub untested : SubscriptionNode → SubscriptionNode
untested s = record s { last_latency_ms = none }

found_later :
    (x : SubscriptionNode) (os rest : List SubscriptionNode)
    → All (λ o. same_server x.node o.node ≡ false) rest
    → All (λ o. reconciled os o.node ≡ untested o) rest
    → All (λ o. reconciled (x ∷ os) o.node ≡ untested o) rest
found_later x os [] h k = tt
found_later x os (o ∷ rest) h k = (rw h.0 k.0, found_later x os rest h.1 k.1)

each_found :
    (olds : List SubscriptionNode)
    → Distinct (nodes_of olds)
    → All (λ o. reconciled olds o.node ≡ untested o) olds
each_found [] h = tt
each_found (x ∷ xs) (new, h) = (
  rw (same_server_self x.node) refl,
  found_later x xs xs (none_of (same_server x.node) xs new) (each_found xs h),
)

map-All :
    (f : ProxyNode → SubscriptionNode) (os : List SubscriptionNode)
    → All (λ o. f o.node ≡ untested o) os
    → map f (nodes_of os) ≡ map untested os
map-All f [] h = refl
map-All f (o ∷ os) h = rw (h.0) (ap (λ t. untested o ∷ t) (map-All f os h.1))

kept_later :
    (x : SubscriptionNode) (os rest : List SubscriptionNode)
    → All (λ o. has_old os o.node ≡ true) rest
    → All (λ o. has_old (x ∷ os) o.node ≡ true) rest
kept_later x os [] h = tt
kept_later x os (o ∷ rest) h =
    (rw h.0 (or_true (same_server x.node o.node)), kept_later x os rest h.1)

each_kept : (olds : List SubscriptionNode) → All (λ o. has_old olds o.node ≡ true) olds
each_kept [] = tt
each_kept (x ∷ xs) = (rw (same_server_self x.node) refl, kept_later x xs xs (each_kept xs))

count-each :
    (p : ProxyNode → Bool) (os : List SubscriptionNode)
    → All (λ o. p o.node ≡ true) os
    → count p (nodes_of os) ≡ length os
count-each p [] h = refl
count-each p (o ∷ os) h = rw h.0 (omega (arith, count-each p os h.1))

-- Where the servers are pairwise different, fetching the same nodes again keeps each with its flag,
-- forgets the latencies, and counts none as added or removed.
pub reconcile_same :
    (olds : List SubscriptionNode)
    → Distinct (nodes_of olds)
    → reconcile_with_counts olds (nodes_of olds)
      ≡ (map untested olds, record { added = 0; removed = 0; unchanged = length olds })
reconcile_same olds h =
    let all_kept = count-each (has_old olds) olds (each_kept olds) in
    let none_added : count (λ n. not (has_old olds n)) (nodes_of olds) ≡ 0 = omega (
      arith,
      count-both (has_old olds) (nodes_of olds),
      all_kept,
      length-map (λ (s : SubscriptionNode). s.node) olds,
    ) in
    let none_removed : length olds - length olds ≡ 0 = omega arith in
    exact_lem olds (nodes_of olds)
    ∙ simp (all_kept, none_added, none_removed, map-All (reconciled olds) olds (each_found olds h))
