-- ===== src/Subscription/Update/Reconciled.antt =====
-- What `reconcile_with_counts` of update.rs returns.
use native.Mathlib.Nat.{zero-add}
use mathlib.Core.Path.{fun_ext}
use mathlib.Core.List.{append-nil, append_assoc}
use v2ray_rs.Models.Proxy.{discriminant, port, address, ProxyNode}
use v2ray_rs.Models.Subscription.{SubscriptionNode}
use v2ray_rs.Subscription.Update.{
  UpdateResult, same_server, was_enabled, matched, reconciled, Tally, reconcile_loop, reconcile_one,
  reconcile_with_counts,
}
use v2ray_rs.Subscription.Update.Counting.{
  count-none, double_count, total, count-not, count-total, count, bit,
}
use v2ray_rs.Base.{
  ℕ, ◌+◌, ◌-◌, ◌<◌, String, ◌≡◌, refl, sym, ap, ◌∙◌, ◌⊎◌, inl, inr, Bool, true, false, not, ◌&&◌,
  ◌||◌, Option, none, some, List, [], ◌∷◌, ◌++◌, map, arith, eq_iff, ltb, ◌==◌, if◌then◌else◌,
  ==_iff, Bool-cases, is_some, length, any, find, str_eq,
}

-- an old node has a counterpart among the new ones, and a new node among the old ones
abbrev pub has_new : List ProxyNode → SubscriptionNode → Bool
has_new ns old = any (λ n. same_server old.node n) ns

abbrev pub has_old : List SubscriptionNode → ProxyNode → Bool
has_old olds n = any (λ old. same_server old.node n) olds

some_if :
    {A : Type 0} (x : A) (o : Option A) {c : Bool} (b : Bool)
    → is_some o ≡ c
    → is_some (if b then some x else o) ≡ b || c
some_if x o true e = refl
some_if x o false e = e

is_some-find : {A : Type 0} (p : A → Bool) (xs : List A) → is_some (find p xs) ≡ any p xs
is_some-find p [] = refl
is_some-find p (x ∷ xs) = some_if x (find p xs) (p x) (is_some-find p xs)

add_one : (b c : Bool) (a k : ℕ) → b ≡ c → (if b then a else a + 1) + k ≡ a + (bit (not c) + k)
add_one b true a k e = rw e (omega arith)
add_one b false a k e = rw e (omega arith)

keep_one : (b c : Bool) (a k : ℕ) → b ≡ c → (if b then a + 1 else a) + k ≡ a + (bit c + k)
keep_one b true a k e = rw e (omega arith)
keep_one b false a k e = rw e (omega arith)

tally_eq :
    {r r' : List SubscriptionNode} {a a' k k' : ℕ}
    → r ≡ r'
    → a ≡ a'
    → k ≡ k'
    → Path Tally
        (record { result = r; added = a; unchanged = k })
        (record { result = r'; added = a'; unchanged = k' })
tally_eq p q s = λ i. record { result = p i; added = q i; unchanged = s i }

tally :
    (olds : List SubscriptionNode) (ns : List ProxyNode) (t : Tally)
    → reconcile_loop olds ns t ≡ record {
      result = t.result ++ map (reconciled olds) ns;
      added = t.added + count (λ n. not (has_old olds n)) ns;
      unchanged = t.unchanged + count (has_old olds) ns;
    }
tally olds [] t = tally_eq (sym (append-nil t.result)) (omega arith) (omega arith)
tally olds (n ∷ ns) t =
    let e : is_some (matched olds n) ≡ has_old olds n =
      is_some-find (λ old. same_server old.node n) olds in
    tally olds ns (reconcile_one olds n t)
    ∙ tally_eq (append_assoc t.result (reconciled olds n ∷ []) (map (reconciled olds) ns))
        (add_one _ _ t.added (count (λ m. not (has_old olds m)) ns) e)
        (keep_one _ _ t.unchanged (count (has_old olds) ns) e)

pub exact_lem :
    (olds : List SubscriptionNode) (ns : List ProxyNode)
    → reconcile_with_counts olds ns ≡ (
      map (reconciled olds) ns,
      record {
        added = count (λ n. not (has_old olds n)) ns;
        removed = length olds - count (has_old olds) ns;
        unchanged = count (has_old olds) ns;
      },
    )
unfolding reconcile_with_counts
exact_lem olds ns =
    rw (tally olds ns (record { result = []; added = 0; unchanged = 0 })) (simp (zero-add))

-- the same address, port and protocol
abbrev pub IsSameServer : ProxyNode → ProxyNode → Type 0
IsSameServer old n =
    (address old ≡ address n) × (port old ≡ port n) × (discriminant old ≡ discriminant n)

-- the flag of the first old node of the same server, or true without one
abbrev pub IsFlag : List SubscriptionNode → ProxyNode → Bool → Type 0
IsFlag [] n flag = flag ≡ true
IsFlag (o ∷ os) n flag =
    (IsSameServer o.node n × (flag ≡ o.enabled)) ⊎ ((¬ IsSameServer o.node n) × IsFlag os n flag)

-- the results are the new nodes in their order, without latencies, each with its flag
abbrev pub AreReconciled : List SubscriptionNode → List ProxyNode → List SubscriptionNode → Type 0
AreReconciled olds [] [] = Unit
AreReconciled olds (n ∷ ns) (r ∷ rs) =
    (r.node ≡ n) × (r.last_latency_ms ≡ none) × IsFlag olds n r.enabled × AreReconciled olds ns rs
AreReconciled olds _ _ = ⊥

-- nodes of pairwise different servers
abbrev pub Distinct : List ProxyNode → Type 0
Distinct [] = Unit
Distinct (n ∷ ns) = (any (λ m. same_server n m) ns ≡ false) × Distinct ns

abbrev pub nodes_of : List SubscriptionNode → List ProxyNode
nodes_of olds = map (λ s. s.node) olds

str_eq-sym : (a b : String) → str_eq a b ≡ str_eq b a
str_eq-sym a b = elim (Bool-cases (str_eq a b)) [
  | inl e ↦ rw ((eq_iff a b).0 e) refl
  | inr e ↦ elim (Bool-cases (str_eq b a)) [
    | inl f ↦ rw ((eq_iff b a).0 f) refl
    | inr f ↦ rw (e, f) refl
  ]
]

==-sym : (a b : ℕ) → (a == b) ≡ (b == a)
==-sym a b = ground arith

same_server-sym : (a b : ProxyNode) → same_server a b ≡ same_server b a
same_server-sym a b =
    rw
      (
        str_eq-sym (address a) (address b),
        ==-sym (port a) (port b),
        ==-sym (discriminant a) (discriminant b),
      )
      refl

-- the three parts of the test
parts : (x y z : Bool) → x && y && z ≡ true → (x ≡ true) × (y ≡ true) × (z ≡ true)
parts true true true h = (refl, refl, refl)
parts true true false h = cc
parts true false z h = cc
parts false y z h = cc

same_server-IsSameServer : (o n : ProxyNode) → same_server o n ≡ true → IsSameServer o n
same_server-IsSameServer o n h =
    let (a, p, d) = parts _ _ _ h in
    (
      (eq_iff (address o) (address n)).0 a,
      (==_iff (port o) (port n)).0 p,
      (==_iff (discriminant o) (discriminant n)).0 d,
    )

IsSameServer-same_server : (o n : ProxyNode) → IsSameServer o n → same_server o n ≡ true
IsSameServer-same_server o n (a, p, d) =
    rw
      (
        (eq_iff (address o) (address n)).1 a,
        (==_iff (port o) (port n)).1 p,
        (==_iff (discriminant o) (discriminant n)).1 d,
      )
      refl

was_enabled-IsFlag :
    (olds : List SubscriptionNode) (n : ProxyNode) → IsFlag olds n (was_enabled (matched olds n))
was_enabled-IsFlag [] n = refl
was_enabled-IsFlag (o ∷ os) n = elim (Bool-cases (same_server o.node n)) [
  | inl e ↦ rw e (inl (same_server-IsSameServer o.node n e, refl))
  | inr e ↦
      let other : ¬ IsSameServer o.node n =
        λ same. absurd (cc (rw e at (IsSameServer-same_server o.node n same))) in
      rw e (inr (other, was_enabled-IsFlag os n))
]

map-reconciled-AreReconciled :
    (olds : List SubscriptionNode) (ns : List ProxyNode)
    → AreReconciled olds ns (map (reconciled olds) ns)
map-reconciled-AreReconciled olds [] = tt
map-reconciled-AreReconciled olds (n ∷ ns) =
    (refl, refl, was_enabled-IsFlag olds n, map-reconciled-AreReconciled olds ns)

length-new : (b c : Bool) (k a : ℕ) → bit (not b) + k + (bit b + a) ≡ k + a + 1
length-new true c k a = omega arith
length-new false c k a = omega arith

counts_new :
    (p : ProxyNode → Bool) (ns : List ProxyNode)
    → count (λ n. not (p n)) ns + count p ns ≡ length ns
counts_new p [] = refl
counts_new p (n ∷ ns) =
    omega (arith, length-new (p n) true (count (λ m. not (p m)) ns) (count p ns), counts_new p ns)

abbrev pub ReconcileOutcome :
    List SubscriptionNode → List ProxyNode → List SubscriptionNode × UpdateResult → Type 0
ReconcileOutcome olds ns (nodes, counts) =
    AreReconciled olds ns nodes
    × (counts.unchanged ≡ count (has_old olds) ns)
    × (counts.added + counts.unchanged ≡ length ns)
    × ((counts.removed + counts.unchanged ≡ length olds)
        ⊎ ((length olds < counts.unchanged) × (counts.removed ≡ 0)))

-- The reconciled nodes are the new ones in their order, without latencies, each with the flag of the
-- first old node with its address, port and protocol, or enabled if there is none. `unchanged` counts
-- the new nodes with such an old node, `added` the others; the two make up the new nodes, and
-- `removed` with `unchanged` the old ones, as long as there are not more unchanged than old ones.
pub reconcile_with_counts_lem :
    (olds : List SubscriptionNode) (ns : List ProxyNode)
    → ReconcileOutcome olds ns (reconcile_with_counts olds ns)
reconcile_with_counts_lem olds ns = rw (exact_lem olds ns) (
  map-reconciled-AreReconciled olds ns,
  refl,
  counts_new (has_old olds) ns,
  removed_part (length olds) (count (has_old olds) ns),
)
  where
    removed_part : (l k : ℕ) → ((l - k) + k ≡ l) ⊎ ((l < k) × (l - k ≡ 0))
    removed_part l k = elim (Bool-cases (ltb l k)) [
      | inl e ↦ inr (ground arith, ground arith)
      | inr e ↦ inl (ground arith)
    ]

-- a node of the same server as another matches the same nodes
same_server_trans : (x n y : ProxyNode) → same_server x n ≡ true → same_server y n ≡ same_server x y
same_server_trans x n y h =
    let (a, p, d) = parts _ _ _ h in
    let a' : address n ≡ address x = sym ((eq_iff (address x) (address n)).0 a) in
    let p' : port n ≡ port x = sym ((==_iff (port x) (port n)).0 p) in
    let d' : discriminant n ≡ discriminant x =
      sym ((==_iff (discriminant x) (discriminant n)).0 d) in
    rw (a', p', d') (same_server-sym y x)

-- Among different servers at most one matches.
count-Distinct :
    (n : ProxyNode) (xs : List ProxyNode)
    → Distinct xs
    → count (λ x. same_server x n) xs ≡ bit (any (λ x. same_server x n) xs)
count-Distinct n [] h = refl
count-Distinct n (x ∷ xs) (new, h) = elim (Bool-cases (same_server x n)) [
  | inl e ↦
      let same : (λ y. same_server y n) ≡ same_server x =
        fun_ext (λ y. same_server_trans x n y e) in
      let none_else : count (λ y. same_server y n) xs ≡ 0 =
        ap (λ f. count f xs) same ∙ count-none (same_server x) xs new in
      rw e (omega (arith, none_else))
  | inr e ↦ rw e (omega (arith, count-Distinct n xs h))
]

count-nodes_of :
    (p : ProxyNode → Bool) (olds : List SubscriptionNode)
    → count (λ o. p o.node) olds ≡ count p (nodes_of olds)
count-nodes_of p [] = refl
count-nodes_of p (o ∷ os) = omega (arith, count-nodes_of p os)

any-nodes_of :
    (p : ProxyNode → Bool) (olds : List SubscriptionNode)
    → any (λ o. p o.node) olds ≡ any p (nodes_of olds)
any-nodes_of p [] = refl
any-nodes_of p (o ∷ os) = ap (λ b. p o.node || b) (any-nodes_of p os)

rows :
    (olds : List SubscriptionNode) (n : ProxyNode)
    → Distinct (nodes_of olds)
    → bit (has_old olds n) ≡ count (λ o. same_server o.node n) olds
rows olds n h =
    ap bit (any-nodes_of (λ m. same_server m n) olds)
    ∙ sym (count-Distinct n (nodes_of olds) h)
    ∙ sym (count-nodes_of (λ m. same_server m n) olds)

columns :
    (ns : List ProxyNode) (o : SubscriptionNode)
    → Distinct ns
    → count (same_server o.node) ns ≡ bit (has_new ns o)
columns ns o h =
    let same : (λ n. same_server n o.node) ≡ same_server o.node =
      fun_ext (λ n. same_server-sym n o.node) in
    rw same at (count-Distinct o.node ns h)

matches :
    (olds : List SubscriptionNode) (ns : List ProxyNode)
    → Distinct (nodes_of olds)
    → Distinct ns
    → count (has_old olds) ns ≡ count (has_new ns) olds
matches olds ns h k =
    count-total (has_old olds) ns
    ∙ ap (λ f. total f ns) (fun_ext (λ n. rows olds n h))
    ∙ double_count (λ n o. same_server o.node n) ns olds
    ∙ ap (λ f. total f olds) (fun_ext (λ o. columns ns o k))
    ∙ sym (count-total (has_new ns) olds)

-- Where the old servers are pairwise different, and the new ones too, `removed` counts the old
-- nodes without a new node of their address, port and protocol.
pub removed-Distinct :
    (olds : List SubscriptionNode) (ns : List ProxyNode)
    → Distinct (nodes_of olds)
    → Distinct ns
    → (reconcile_with_counts olds ns).1.removed ≡ count (λ old. not (has_new ns old)) olds
removed-Distinct olds ns h k =
    rw (exact_lem olds ns, matches olds ns h k) (sym (count-not (has_new ns) olds))
