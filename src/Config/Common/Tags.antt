-- ===== src/Config/Common/Tags.antt =====
-- The tags of the outbounds, `outbound_tag` of config/common.rs: when two are equal, and when the
-- tag that the rules name is among them.
use text.Mathlib.TextLemmas.{cons-append, append_assoc, append-nil, append_cancel_left, cons≢nil}
use v2ray_rs.Models.Proxy.{ProxyNode, remark}
use v2ray_rs.Config.Common.{tag_for, outbound_tag}
use v2ray_rs.Base.{
  ℕ, suc, ◌<◌, code, String, ◌≡◌, refl, sym, ap, ◌∙◌, ◌≢◌, ◌↔◌, inl, inr, true, Option, none, some,
  List, [], ◌∷◌, ◌++◌, Memᴰ, arith, if◌then◌else◌, Bool-cases, All, ◌⧺◌, is_empty_str, to_string,
  leading, leading-to_string,
}

-- what follows the number in a tag
abbrev suffix : Option String → String
suffix none = ""
suffix (some name) = if is_empty_str name then "" else "-" ⧺ name

tag_for-parts : (i : ℕ) (o : Option String) → tag_for i o ≡ "proxy-" ⧺ (to_string i ⧺ suffix o)
tag_for-parts i none = ap (λ t. "proxy-" ⧺ t) (sym (append-nil (to_string i)))
tag_for-parts i (some name) = elim (Bool-cases (is_empty_str name)) [
  | inl e ↦ rw e (ap (λ t. "proxy-" ⧺ t) (sym (append-nil (to_string i))))
  | inr e ↦ rw e (
      append_assoc ("proxy-" ⧺ to_string i) "-" name
      ∙ append_assoc "proxy-" (to_string i) ("-" ⧺ name))
]

leading-suffix : (acc : ℕ) (o : Option String) → leading acc (suffix o) ≡ acc
unfolding leading
leading-suffix acc none = refl
leading-suffix acc (some name) = elim (Bool-cases (is_empty_str name)) [
  | inl e ↦ rw e refl
  | inr e ↦ rw e (rw cons-append refl)
]

-- the number in a tag
tag_number : (i : ℕ) (o : Option String) → leading 0 (to_string i ⧺ suffix o) ≡ i
tag_number i o = leading-to_string i (suffix o) ∙ leading-suffix i o

pub tag_for_inj :
    (i j : ℕ) (o p : Option String)
    → tag_for i o ≡ tag_for j p
    → (i ≡ j) × (to_string i ⧺ suffix o ≡ to_string j ⧺ suffix p)
tag_for_inj i j o p h =
    let same : to_string i ⧺ suffix o ≡ to_string j ⧺ suffix p =
      append_cancel_left "proxy-" _ _ (sym (tag_for-parts i o) ∙ h ∙ tag_for-parts j p) in
    (sym (tag_number i o) ∙ ap (leading 0) same ∙ tag_number j p, same)

-- Outbounds at different positions have different tags, whatever their nodes.
pub outbound_tag_inj : (n m : ProxyNode) (i j : ℕ) → outbound_tag n i ≡ outbound_tag m j → i ≡ j
unfolding outbound_tag
outbound_tag_inj n m i j h = (tag_for_inj i j (remark n) (remark m) h).0

first_code : String → ℕ
first_code String.[] = 0
first_code (String.◌∷◌ c s) = code c

first_code-tag_for : (i : ℕ) (o : Option String) → first_code (tag_for i o) ≡ b'p'
unfolding first_code
first_code-tag_for i o = rw (tag_for-parts i o) (rw cons-append refl)

-- No tag of a node begins with another letter than 'p': it is neither "direct" nor "block".
pub outbound_tag-reserved :
    (n : ProxyNode) (i : ℕ) → (outbound_tag n i ≢ "direct") × (outbound_tag n i ≢ "block")
unfolding outbound_tag first_code
outbound_tag-reserved n i = (
  λ e. omega (arith, first_code-tag_for i (remark n), ap first_code e),
  λ e. omega (arith, first_code-tag_for i (remark n), ap first_code e),
)

-- A node without a remark, or with an empty one.
abbrev pub Unnamed : Option String → Type 0
Unnamed none = Unit
Unnamed (some name) = is_empty_str name ≡ true

tag_for_zero : (o : Option String) → Unnamed o → tag_for 0 o ≡ "proxy-0"
unfolding to_string
tag_for_zero none h = refl
tag_for_zero (some name) h = rw h refl

Unnamed-of_zero : (o : Option String) → to_string 0 ⧺ suffix o ≡ to_string 0 ⧺ "" → Unnamed o
Unnamed-of_zero none e = tt
Unnamed-of_zero (some name) e = elim (Bool-cases (is_empty_str name)) [
  | inl h ↦ h
  | inr h ↦
      let dash : "-" ⧺ name ≡ "" = append_cancel_left (to_string 0) _ _ (rw h at e) in
      absurd (cons≢nil (rw cons-append at dash))
]

-- The tag that the routing rules name, "proxy-0", is the tag of a node at position `i` exactly when
-- `i` is 0 and the node has no remark or an empty one.
pub outbound_tag-eq-first_iff :
    (n : ProxyNode) (i : ℕ) → (outbound_tag n i ≡ "proxy-0") ↔ ((i ≡ 0) × Unnamed (remark n))
unfolding outbound_tag
outbound_tag-eq-first_iff n i = (
  λ e.
      let (zero_index, same) = tag_for_inj i 0 (remark n) none (e ∙ sym (tag_for_zero none tt)) in
      (zero_index, Unnamed-of_zero (remark n) (rw zero_index at same)),
  λ h. rw h.0 (tag_for_zero (remark n) h.1),
)

-- the tags of a list of nodes, from position `i`
unfoldable pub node_tags : ℕ → List ProxyNode → List String
node_tags i [] = []
node_tags i (n ∷ ns) = outbound_tag n i ∷ node_tags (suc i) ns

-- all tags of a configuration
abbrev pub all_tags : List ProxyNode → List String
all_tags nodes = node_tags 0 nodes ++ "direct" ∷ "block" ∷ []

abbrev pub Distinct {ℓ} : {A : Type ℓ} → List A → Type ℓ
Distinct [] = Unit
Distinct (x ∷ xs) = All (λ y. x ≢ y) xs × Distinct xs

later_tags :
    (n : ProxyNode) (i j : ℕ) (ns : List ProxyNode)
    → i < j
    → All (λ t. outbound_tag n i ≢ t) (node_tags j ns ++ "direct" ∷ "block" ∷ [])
unfolding node_tags
later_tags n i j [] h = ((outbound_tag-reserved n i).0, ((outbound_tag-reserved n i).1, tt))
later_tags n i j (m ∷ ns) h =
    (λ e. omega (arith, outbound_tag_inj n m i j e), later_tags n i (suc j) ns (omega arith))

node_tags-Distinct :
    (i : ℕ) (ns : List ProxyNode) → Distinct (node_tags i ns ++ "direct" ∷ "block" ∷ [])
unfolding node_tags first_code
node_tags-Distinct i [] = ((λ e. omega (arith, ap first_code e), tt), (tt, tt))
node_tags-Distinct i (n ∷ ns) =
    (later_tags n i (suc i) ns (omega arith), node_tags-Distinct (suc i) ns)

-- The tags of the outbounds of any list of nodes, the two fixed ones included, are distinct.
pub all_tags-Distinct : (nodes : List ProxyNode) → Distinct (all_tags nodes)
all_tags-Distinct nodes = node_tags-Distinct 0 nodes

first_not_later :
    (i : ℕ) (ns : List ProxyNode)
    → 0 < i
    → ¬ Memᴰ "proxy-0" (node_tags i ns ++ "direct" ∷ "block" ∷ [])
unfolding node_tags first_code
first_not_later i [] h (Memᴰ.head e) = omega (arith, ap first_code e)
first_not_later i [] h (Memᴰ.tail (Memᴰ.head e)) = omega (arith, ap first_code e)
first_not_later i [] h (Memᴰ.tail (Memᴰ.tail x)) = elim x [ ]
first_not_later i (n ∷ ns) h (Memᴰ.head e) =
    omega (arith, ((outbound_tag-eq-first_iff n i).0 (sym e)).0)
first_not_later i (n ∷ ns) h (Memᴰ.tail m) = first_not_later (suc i) ns (omega arith) m

-- The tag that a rule with the action `Proxy` names is a tag of the configuration exactly when the
-- first node has no remark or an empty one.
pub proxy_tag_listed_iff :
    (n : ProxyNode) (ns : List ProxyNode) → Memᴰ "proxy-0" (all_tags (n ∷ ns)) ↔ Unnamed (remark n)
unfolding node_tags
proxy_tag_listed_iff n ns =
    (λ m. go m, λ h. Memᴰ.head (sym ((outbound_tag-eq-first_iff n 0).1 (refl, h))))
  where
    go : Memᴰ "proxy-0" (all_tags (n ∷ ns)) → Unnamed (remark n)
    go (Memᴰ.head e) = ((outbound_tag-eq-first_iff n 0).0 (sym e)).1
    go (Memᴰ.tail m) = absurd (first_not_later 1 ns (omega arith) m)
