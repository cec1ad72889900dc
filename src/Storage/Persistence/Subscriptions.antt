-- ===== src/Storage/Persistence/Subscriptions.antt =====
-- The stored subscriptions as a list: what each operation of persistence.rs makes of it.
use v2ray_rs.Models.Subscription.{
  UuidValue, Subscription, SubscriptionNode, stored_node, stored_form,
}
use v2ray_rs.Storage.Persistence.{
  PersistenceError, Codec, Disk, Faults, json, check_fault, written, save_file, load_file,
  save_subscriptions, load_subscriptions, giving, replace_first, has_id, add_subscription,
  update_subscription, remove_subscription,
}
use v2ray_rs.Base.{
  ◌≤◌, ◌<◌, String, ◌≡◌, refl, sym, ap, ◌∙◌, ◌⊎◌, inl, inr, Bool, true, false, not, ◌||◌, Option,
  none, some, List, [], ◌∷◌, ◌++◌, map, arith, ltb, ◌==◌, Bool-cases, length, keep_if, Result, ok,
  err, ◌>>=◌, ◌>>◌, map_err,
}

-- what is written is read back
abbrev pub RoundTrips : {A : Type 0} → Codec A → Type 0
RoundTrips {A} codec = (a : A) (text : String) → codec.encode a ≡ ok text → codec.decode text ≡ ok a

abbrev pub no_faults : Faults
no_faults = record { ensure_dirs = none; read = none; write = none }

-- a file holds a value: one that is not there holds the empty one
abbrev pub FileHolds : {A : Type 0} → Codec A → A → Option String → A → Type 0
FileHolds codec absent file a = load_file codec no_faults json absent file ≡ ok a

-- a save succeeds and the file holds what was saved, or it fails and the file is as it was
abbrev pub SaveOutcome :
    {A : Type 0}
    → Codec A
    → A
    → A
    → Option String
    → Result PersistenceError (Unit {0}) × Option String
    → Type 0
SaveOutcome codec absent a file (r, after) =
    ((r ≡ ok tt) × FileHolds codec absent after a)
    ⊎ ((e : PersistenceError) × (r ≡ err e) × (after ≡ file))

module _ {A : Type 0} (codec : Codec A) (faults : Faults) (absent a b : A)
    (back : (text : String) → codec.encode a ≡ ok text → codec.decode text ≡ ok b) where
  pub save_file-outcome :
      (file : Option String) → SaveOutcome codec absent b file (save_file codec faults json a file)
  save_file-outcome file = go faults.ensure_dirs faults.write (codec.encode a) refl
    where
      go :
          (dirs write : Option String) (t : Result String String)
          → codec.encode a ≡ t
          → SaveOutcome codec absent b file (
              written codec faults
                (check_fault dirs >> (map_err json t >>= λ text. check_fault write >> ok text))
                file)
      go (some e) write t h = inr (_, refl, refl)
      go none write (err x) h = inr (_, refl, refl)
      go none (some e) (ok text) h = inr (_, refl, refl)
      go none none (ok text) h = inl (refl, rw (back text h) refl)

-- A list of subscriptions is read back as it was written, but for the latencies of the nodes, which
-- are not written.
abbrev pub ReadsBack : Codec (List Subscription) → Type 0
ReadsBack codec =
    (subs : List Subscription) (text : String)
    → codec.encode subs ≡ ok text
    → codec.decode text ≡ ok (map stored_form subs)

-- the lists are the same but for latencies
abbrev pub Same : List Subscription → List Subscription → Type 0
Same xs ys = map stored_form xs ≡ map stored_form ys

-- the changes of the stored subscriptions
pub data Change : Type 0 where
  add_one : Subscription → Change
  update_one : Subscription → Change
  remove_one : UuidValue → Change

-- a change on the list, and whether it finds what it is about
abbrev pub on_list : Change → List Subscription → List Subscription
on_list (add_one s) subs = subs ++ s ∷ []
on_list (update_one s) subs = replace_first s subs
on_list (remove_one id) subs = keep_if (λ s. not (s.id == id)) subs

abbrev pub finds : Change → List Subscription → Bool
finds (add_one s) subs = true
finds (update_one s) subs = has_id s.id subs
finds (remove_one id) subs = has_id id subs

module _ (codec : Codec (List Subscription)) where
  abbrev pub perform : Change → Faults → Disk → Result PersistenceError Bool × Disk
  perform (add_one s) faults d = giving codec faults true (add_subscription codec faults s d)
  perform (update_one s) faults d = update_subscription codec faults s d
  perform (remove_one id) faults d = remove_subscription codec faults id d

  -- the list that a disk is read as
  abbrev pub Reads : Disk → List Subscription → Type 0
  Reads d subs = FileHolds codec [] d.subscriptions subs

  -- the subscriptions that a disk holds, but for latencies
  abbrev pub Holds : Disk → List Subscription → Type 0
  Holds d subs = (stored : List Subscription) × Reads d stored × Same stored subs

  -- the change takes place and is reported, the other files being untouched, or it fails and
  -- nothing changes
  abbrev pub ChangeOutcome :
      Change → Disk → List Subscription → Result PersistenceError Bool × Disk → Type 0
  ChangeOutcome c d subs (r, after) =
      ((r ≡ ok (finds c subs))
        × Holds after (on_list c subs)
        × (after.settings ≡ d.settings)
        × (after.routing_rules ≡ d.routing_rules))
      ⊎ ((e : PersistenceError) × (r ≡ err e) × (after ≡ d))

pub replace_first-absent :
    (s : Subscription) (subs : List Subscription)
    → has_id s.id subs ≡ false
    → replace_first s subs ≡ subs
replace_first-absent s [] h = refl
replace_first-absent s (x ∷ xs) h = elim (Bool-cases (x.id == s.id)) [
  | inl e ↦ absurd (cc (rw e at h))
  | inr e ↦ rw e (ap (λ t. x ∷ t) (replace_first-absent s xs (rw e at h)))
]

pub kept_all :
    (id : UuidValue) (subs : List Subscription)
    → has_id id subs ≡ false
    → keep_if (λ s. not (s.id == id)) subs ≡ subs
kept_all id [] h = refl
kept_all id (x ∷ xs) h = elim (Bool-cases (x.id == id)) [
  | inl e ↦ absurd (cc (rw e at h))
  | inr e ↦ rw e (ap (λ t. x ∷ t) (kept_all id xs (rw e at h)))
]

length-kept :
    (id : UuidValue) (subs : List Subscription)
    → length (keep_if (λ s. not (s.id == id)) subs) ≤ length subs
length-kept id [] = omega arith
length-kept id (x ∷ xs) = elim (Bool-cases (x.id == id)) [
  | inl e ↦ rw e (omega (arith, length-kept id xs))
  | inr e ↦ rw e (omega (arith, length-kept id xs))
]

kept_fewer :
    (id : UuidValue) (subs : List Subscription)
    → has_id id subs ≡ true
    → length (keep_if (λ s. not (s.id == id)) subs) < length subs
kept_fewer id [] h = cc
kept_fewer id (x ∷ xs) h = elim (Bool-cases (x.id == id)) [
  | inl e ↦ rw e (omega (arith, length-kept id xs))
  | inr e ↦ rw e (omega (arith, kept_fewer id xs (rw e at h)))
]

-- the test that the code makes finds exactly the removals that remove something
pub shorter :
    (id : UuidValue) (subs : List Subscription)
    → ltb (length (keep_if (λ s. not (s.id == id)) subs)) (length subs) ≡ has_id id subs
shorter id subs = elim (Bool-cases (has_id id subs)) [
  | inl e ↦ let less = kept_fewer id subs e in rw e (ground arith)
  | inr e ↦ rw (e, kept_all id subs e) (ground arith)
]

stored_nodes_again :
    (ns : List SubscriptionNode) → map stored_node (map stored_node ns) ≡ map stored_node ns
stored_nodes_again [] = refl
stored_nodes_again (n ∷ ns) = ap (λ ms. stored_node n ∷ ms) (stored_nodes_again ns)

pub stored_again : (subs : List Subscription) → Same (map stored_form subs) subs
stored_again [] = refl
stored_again (s ∷ subs) =
    λ i. record s { nodes = stored_nodes_again s.nodes i } ∷ stored_again subs i

-- a change commutes with what is not written
abbrev stored_change : Change → Change
stored_change (add_one s) = add_one (stored_form s)
stored_change (update_one s) = update_one (stored_form s)
stored_change (remove_one id) = remove_one id

on_list-stored :
    (c : Change) (xs : List Subscription)
    → map stored_form (on_list c xs) ≡ on_list (stored_change c) (map stored_form xs)
on_list-stored (add_one s) [] = refl
on_list-stored (add_one s) (x ∷ xs) = ap (λ ys. stored_form x ∷ ys) (on_list-stored (add_one s) xs)
on_list-stored (update_one s) [] = refl
on_list-stored (update_one s) (x ∷ xs) = elim (Bool-cases (x.id == s.id)) [
  | inl e ↦ rw e refl
  | inr e ↦ rw e (ap (λ ys. stored_form x ∷ ys) (on_list-stored (update_one s) xs))
]
on_list-stored (remove_one id) [] = refl
on_list-stored (remove_one id) (x ∷ xs) = elim (Bool-cases (x.id == id)) [
  | inl e ↦ rw e (on_list-stored (remove_one id) xs)
  | inr e ↦ rw e (ap (λ ys. stored_form x ∷ ys) (on_list-stored (remove_one id) xs))
]

pub on_list-Same :
    (c : Change) (xs ys : List Subscription) → Same xs ys → Same (on_list c xs) (on_list c ys)
on_list-Same c xs ys h =
    on_list-stored c xs ∙ ap (on_list (stored_change c)) h ∙ sym (on_list-stored c ys)

has_id-stored :
    (id : UuidValue) (xs : List Subscription) → has_id id (map stored_form xs) ≡ has_id id xs
has_id-stored id [] = refl
has_id-stored id (x ∷ xs) = ap (λ b. (x.id == id) || b) (has_id-stored id xs)

pub has_id-Same :
    (id : UuidValue) (xs ys : List Subscription) → Same xs ys → has_id id xs ≡ has_id id ys
has_id-Same id xs ys h = sym (has_id-stored id xs) ∙ ap (has_id id) h ∙ has_id-stored id ys

finds-Same : (c : Change) (xs ys : List Subscription) → Same xs ys → finds c xs ≡ finds c ys
finds-Same (add_one s) xs ys h = refl
finds-Same (update_one s) xs ys h = has_id-Same s.id xs ys h
finds-Same (remove_one id) xs ys h = has_id-Same id xs ys h

pub Holds-Same :
    (codec : Codec (List Subscription)) (d : Disk) (xs ys : List Subscription)
    → Same xs ys
    → Holds codec d xs
    → Holds codec d ys
Holds-Same codec d xs ys h (stored, reads, same) = (stored, reads, same ∙ h)

ChangeOutcome-Same :
    (codec : Codec (List Subscription)) (c : Change) (d : Disk) (xs ys : List Subscription)
    (p : Result PersistenceError Bool × Disk)
    → Same xs ys
    → ChangeOutcome codec c d xs p
    → ChangeOutcome codec c d ys p
ChangeOutcome-Same codec c d xs ys (r, after) h (inl (e, held, a, b)) = inl (
  e ∙ ap ok (finds-Same c xs ys h),
  Holds-Same codec after (on_list c xs) (on_list c ys) (on_list-Same c xs ys h) held,
  a,
  b,
)
ChangeOutcome-Same codec c d xs ys (r, after) h (inr failure) = inr failure

module _ (codec : Codec (List Subscription)) (back : ReadsBack codec) (faults : Faults) (d : Disk)
    (subs : List Subscription) where
  -- what a load under faults gives
  loads :
      Reads codec d subs
      → (load_subscriptions codec faults d ≡ ok subs)
        ⊎ ((e : PersistenceError) × (load_subscriptions codec faults d ≡ err e))
  unfolding load_subscriptions
  loads h = go d.subscriptions faults.read h
    where
      go :
          (file read : Option String)
          → FileHolds codec [] file subs
          → (load_file codec (record faults { read = read }) json [] file ≡ ok subs)
            ⊎ ((e : PersistenceError) × (load_file codec
                    (record faults { read = read })
                    json
                    []
                    file
                  ≡ err e))
      go none read h = inl h
      go (some text) none h = inl h
      go (some text) (some e) h = inr (_, refl)

  stored :
      (c : Change) (x : Result PersistenceError (Unit {0}) × Option String)
      → SaveOutcome codec [] (map stored_form (on_list c subs)) d.subscriptions x
      → ChangeOutcome codec c d subs
          (giving codec faults (finds c subs) (x.0, record d { subscriptions = x.1 }))
  stored c (ok _, file) (inl (r, h)) =
      inl (refl, (map stored_form (on_list c subs), h, stored_again (on_list c subs)), refl, refl)
  stored c (err x, file) (inl (r, h)) = cc
  stored c (ok _, file) (inr (e, r, same)) = cc
  stored c (err x, file) (inr (e, r, same)) =
      inr (x, refl, ap (λ t. record d { subscriptions = t }) same)

  saved :
      (c : Change)
      → ChangeOutcome codec c d subs
          (giving codec faults (finds c subs) (save_subscriptions codec faults (on_list c subs) d))
  unfolding save_subscriptions
  saved c = stored c (save_file codec faults json (on_list c subs) d.subscriptions) (
      save_file-outcome codec faults [] (on_list c subs) (map stored_form (on_list c subs))
        (back (on_list c subs)) d.subscriptions)

  failed : (c : Change) (e : PersistenceError) → ChangeOutcome codec c d subs (err e, d)
  failed c e = inr (e, refl, refl)

  -- a change that finds nothing leaves the list as it is
  unchanged :
      (c : Change)
      → Reads codec d subs
      → finds c subs ≡ false
      → on_list c subs ≡ subs
      → ChangeOutcome codec c d subs (ok false, d)
  unchanged c h f same = inl (ap ok (sym f), (subs, h, ap (map stored_form) (sym same)), refl, refl)

  performed :
      (c : Change) → Reads codec d subs → ChangeOutcome codec c d subs (perform codec c faults d)
  unfolding add_subscription update_subscription remove_subscription
  performed (add_one s) h = elim (loads h) [
    | inl e ↦ rw e (saved (add_one s))
    | inr (x, e) ↦ rw e (failed (add_one s) x)
  ]
  performed (update_one s) h = elim (loads h) [
    | inl e ↦ elim (Bool-cases (has_id s.id subs)) [
      | inl f ↦ let done = saved (update_one s) in rw (e, f) (rw f at done)
      | inr f ↦
          let none_found = unchanged (update_one s) h f (replace_first-absent s subs f) in
          rw (e, f) (rw f at none_found)
    ]
    | inr (x, e) ↦ rw e (failed (update_one s) x)
  ]
  performed (remove_one id) h = elim (loads h) [
    | inl e ↦ elim (Bool-cases (has_id id subs)) [
      | inl f ↦ let done = saved (remove_one id) in rw (e, shorter id subs, f) (rw f at done)
      | inr f ↦
          let none_found = unchanged (remove_one id) h f (kept_all id subs f) in
          rw (e, shorter id subs, f) (rw f at none_found)
    ]
    | inr (x, e) ↦ rw e (failed (remove_one id) x)
  ]

module _ (codec : Codec (List Subscription)) (back : ReadsBack codec) (faults : Faults) (d : Disk)
    (subs : List Subscription) where
  -- what a load under faults gives
  pub loaded :
      Holds codec d subs
      → ((stored : List Subscription) × (load_subscriptions codec faults d ≡ ok stored)
          × Same stored subs)
        ⊎ ((e : PersistenceError) × (load_subscriptions codec faults d ≡ err e))
  loaded (stored, reads, same) = elim (loads codec back faults d stored reads) [
    | inl e ↦ inl (stored, e, same)
    | inr failure ↦ inr failure
  ]

  -- a list that was loaded is the one that the disk is read as
  pub load_subscriptions-Reads : load_subscriptions codec faults d ≡ ok subs → Reads codec d subs
  unfolding load_subscriptions
  load_subscriptions-Reads h = go d.subscriptions faults.read h
    where
      go :
          (file read : Option String)
          → load_file codec (record faults { read = read }) json [] file ≡ ok subs
          → FileHolds codec [] file subs
      go none read e = e
      go (some text) none e = e
      go (some text) (some x) e = cc

  -- On a disk that holds a list of subscriptions, with a format that reads back what it
  -- writes, but for latencies,
  -- adding, updating or removing one either succeeds: it says whether it found the subscription,
  -- the disk holds the list with it appended, replaced or taken out, and the other files are
  -- untouched; or it fails with an error and the disk is as it was.
  pub perform-ChangeOutcome :
      (c : Change) → Holds codec d subs → ChangeOutcome codec c d subs (perform codec c faults d)
  unfolding add_subscription update_subscription remove_subscription
  perform-ChangeOutcome c (stored, reads, same) =
      ChangeOutcome-Same codec c d stored subs (perform codec c faults d) same
        (performed codec back faults d stored c reads)
