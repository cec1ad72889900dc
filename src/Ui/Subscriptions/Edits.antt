-- ===== src/Ui/Subscriptions/Edits.antt =====
-- crates/ui/src/subscriptions.rs: the edits of one subscription and of the order of a list.
use v2ray_rs.Models.Subscription.{UuidValue, Subscription, SubscriptionNode}
use v2ray_rs.Storage.Persistence.{replace_first}
use v2ray_rs.Ui.Subscriptions.{
  panic, unchanged, Direction, up, down, Edit, panic, unchanged, edited, swap, swapped, moved_index,
  can_drop, or_panic, assign_first, toggled_node, move_in, drop_in, position_from,
}
use v2ray_rs.Base.{
  ℕ, zero, suc, ◌+◌, ◌≤◌, ◌<◌, ◌≡◌, refl, ap, ◌∙◌, ◌⊎◌, inl, inr, true, Option, none, some, List,
  [], ◌∷◌, arith, ◌==◌, Bool-cases, length, get_elem?,
}

-- an edit that does not panic keeps the identifier
abbrev pub Keeps : Subscription → Edit → Type 0
Keeps s panic = ⊥
Keeps s unchanged = Unit
Keeps s (edited t) = t.id ≡ s.id

pub toggled_node-Keeps :
    (i : ℕ) (s : Subscription) (o : Option SubscriptionNode) → Keeps s (toggled_node i s o)
toggled_node-Keeps i s none = tt
toggled_node-Keeps i s (some n) = refl

pub drop_in-Keeps : (from to : ℕ) (s : Subscription) → Keeps s (drop_in from to s)
drop_in-Keeps from to s = elim (Bool-cases (can_drop from to (length s.nodes))) [
  | inl e ↦ rw e refl
  | inr e ↦ rw e tt
]

-- an index below the length has an element
get_elem?-some {ℓ} :
    {A : Type ℓ} (xs : List A) (i : ℕ) → i < length xs → (a : A) × (get_elem? xs i ≡ some a)
get_elem?-some [] i h = absurd (omega arith)
get_elem?-some (x ∷ xs) zero h = (x, refl)
get_elem?-some (x ∷ xs) (suc i) h = get_elem?-some xs i (omega arith)

pub swap-some {ℓ} :
    {A : Type ℓ} (xs : List A) (i j : ℕ)
    → i < length xs
    → j < length xs
    → (ys : List A) × (swap i j xs ≡ some ys)
swap-some xs i j h k =
    let (a, e) = get_elem?-some xs i h in
    let (b, f) = get_elem?-some xs j k in
    (_, ap (λ o. swapped i j o (get_elem? xs j) xs) e ∙ ap (λ o. swapped i j (some a) o xs) f)

-- a move that changes the index leads from within the list to within it
pub moved_inside : (direction : Direction) (len i : ℕ) → i < len → moved_index direction len i < len
moved_inside up len i h = ground arith
moved_inside down len i h = ground arith

or_panic-Keeps :
    (s : Subscription) (o : Option (List SubscriptionNode)) (ns : List SubscriptionNode)
    → o ≡ some ns
    → Keeps s (or_panic s o)
or_panic-Keeps s none ns e = cc
or_panic-Keeps s (some ms) ns e = refl

pub move_in-Keeps :
    (i : ℕ) (direction : Direction) (s : Subscription)
    → i < length s.nodes
    → Keeps s (move_in i direction s)
move_in-Keeps i direction s h = elim (Bool-cases (moved_index direction (length s.nodes) i == i)) [
  | inl e ↦ rw e tt
  | inr e ↦
      let (ns, k) =
        swap-some s.nodes i (moved_index direction (length s.nodes) i) h
          (moved_inside direction (length s.nodes) i h) in
      rw e (or_panic-Keeps s (swap i (moved_index direction (length s.nodes) i) s.nodes) ns k)
]

-- below the end of the list, a move down stays as it is from its end on
pub stays_down : (len i : ℕ) → len ≤ i → (moved_index down len i == i) ≡ true
stays_down len i h = ground arith

pub assign_first-replace_first :
    (id : UuidValue) (s : Subscription) (subs : List Subscription)
    → s.id ≡ id
    → assign_first id s subs ≡ replace_first s subs
assign_first-replace_first id s [] h = refl
assign_first-replace_first id s (x ∷ xs) h = rw (h, assign_first-replace_first id s xs h) refl

pub position_from-bound :
    (n : ℕ) (id : UuidValue) (subs : List Subscription) (i : ℕ)
    → position_from n id subs ≡ some i
    → i < n + length subs
position_from-bound n id [] i h = cc
position_from-bound n id (s ∷ subs) i h = elim (Bool-cases (s.id == id)) [
  | inl e ↦ let same : n ≡ i = cc (rw e at h) in omega arith
  | inr e ↦ omega (arith, position_from-bound (n + 1) id subs i (rw e at h))
]

get_elem?-none {ℓ} : {A : Type ℓ} (xs : List A) (i : ℕ) → length xs ≤ i → get_elem? xs i ≡ none
get_elem?-none [] i h = refl
get_elem?-none (x ∷ xs) zero h = absurd (omega arith)
get_elem?-none (x ∷ xs) (suc i) h = get_elem?-none xs i (omega arith)

swap-none {ℓ} : {A : Type ℓ} (xs : List A) (i j : ℕ) → length xs ≤ i → swap i j xs ≡ none
swap-none xs i j h = ap (λ o. swapped i j o (get_elem? xs j) xs) (get_elem?-none xs i h)

-- a node beyond the end is moved up by a panic, or not at all
pub raise_beyond :
    (i : ℕ) (s : Subscription)
    → length s.nodes ≤ i
    → (move_in i up s ≡ unchanged) ⊎ (move_in i up s ≡ panic)
raise_beyond i s h = elim (Bool-cases (moved_index up (length s.nodes) i == i)) [
  | inl e ↦ inl (rw e refl)
  | inr e ↦ inr (rw e (ap (or_panic s) (swap-none s.nodes i (moved_index up (length s.nodes) i) h)))
]
