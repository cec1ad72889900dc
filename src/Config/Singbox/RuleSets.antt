-- ===== src/Config/Singbox/RuleSets.antt =====
-- The remote rule sets of config/singbox.rs: every set that a rule refers to is declared, and no
-- other is.
use mathlib.Core.List.Memᴰ as MemD
use mathlib.Core.List.{map-append}
use mathlib.Core.Path.{sym, subst₂}
use v2ray_rs.Models.Validation.{RuleMatch, geo_ip, geo_site, domain, ip_cidr, IpNetApi}
use v2ray_rs.Models.Routing.{RoutingRule, enabled_rules}
use v2ray_rs.Config.Json.{Value, str, get, as_array, elements-items}
use v2ray_rs.Config.Singbox.{
  compare, is_lt, set_insert, add_geoip, add_geosite, geoip_tags, geosite_tags, rule_set, rule_sets,
  rule_outbound, match_rule, route_with, route_of, build_route_rule, build_route,
}
use v2ray_rs.Base.{
  ◌∙◌, String, ◌≡◌, refl, ap, inl, inr, List, [], ◌∷◌, ◌++◌, map, Memᴰ, eq_iff, Bool-cases,
  unwrap_or, All, ◌⧺◌, str_eq, Unicode,
}

mem-set_insert_self : (s : String) (ts : List String) → Memᴰ s (set_insert s ts)
unfolding set_insert
mem-set_insert_self s [] = Memᴰ.head refl
mem-set_insert_self s (t ∷ ts) = elim (Bool-cases (str_eq s t)) [
  | inl e ↦ rw e (Memᴰ.head ((eq_iff s t).0 e))
  | inr e ↦ elim (Bool-cases (is_lt (compare s t))) [
    | inl l ↦ rw (e, l) (Memᴰ.head refl)
    | inr l ↦ rw (e, l) (Memᴰ.tail (mem-set_insert_self s ts))
  ]
]

mem-set_insert_of_mem : (s x : String) (ts : List String) → Memᴰ x ts → Memᴰ x (set_insert s ts)
unfolding set_insert
mem-set_insert_of_mem s x [] m = Memᴰ.tail m
mem-set_insert_of_mem s x (t ∷ ts) m = elim (Bool-cases (str_eq s t)) [
  | inl e ↦ rw e m
  | inr e ↦ elim (Bool-cases (is_lt (compare s t))) [
    | inl l ↦ rw (e, l) (Memᴰ.tail m)
    | inr l ↦ elim (MemD.cases_cons m) [
      | inl here ↦ rw (e, l) (Memᴰ.head here)
      | inr later ↦ rw (e, l) (Memᴰ.tail (mem-set_insert_of_mem s x ts later))
    ]
  ]
]

module _ {N : Type 0} (u : Unicode) where
  add_geoip_keeps :
      (m : RuleMatch N) (x : String) (ts : List String) → Memᴰ x ts → Memᴰ x (add_geoip u m ts)
  add_geoip_keeps (geo_ip c) x ts h = mem-set_insert_of_mem _ x ts h
  add_geoip_keeps (geo_site c) x ts h = h
  add_geoip_keeps (domain c) x ts h = h
  add_geoip_keeps (ip_cidr c) x ts h = h

  add_geosite_keeps :
      (m : RuleMatch N) (x : String) (ts : List String) → Memᴰ x ts → Memᴰ x (add_geosite u m ts)
  add_geosite_keeps (geo_site c) x ts h = mem-set_insert_of_mem _ x ts h
  add_geosite_keeps (geo_ip c) x ts h = h
  add_geosite_keeps (domain c) x ts h = h
  add_geosite_keeps (ip_cidr c) x ts h = h

  geoip_tags_keep :
      (rs : List (RoutingRule N)) (x : String) (ts : List String)
      → Memᴰ x ts
      → Memᴰ x (geoip_tags u rs ts)
  unfolding geoip_tags
  geoip_tags_keep [] x ts h = h
  geoip_tags_keep (r ∷ rs) x ts h =
      geoip_tags_keep rs x _ (add_geoip_keeps r.match_condition x ts h)

  geosite_tags_keep :
      (rs : List (RoutingRule N)) (x : String) (ts : List String)
      → Memᴰ x ts
      → Memᴰ x (geosite_tags u rs ts)
  unfolding geosite_tags
  geosite_tags_keep [] x ts h = h
  geosite_tags_keep (r ∷ rs) x ts h =
      geosite_tags_keep rs x _ (add_geosite_keeps r.match_condition x ts h)

  -- the tags that a match condition wants
  abbrev Collected : RuleMatch N → List String → List String → Type 0
  Collected (geo_ip c) ips sites = Memᴰ (u.to_lowercase c) ips
  Collected (geo_site c) ips sites = Memᴰ (u.to_lowercase c) sites
  Collected _ ips sites = Unit

  Collected-added :
      (m : RuleMatch N) (rs : List (RoutingRule N)) (ips sites : List String)
      → Collected m
          (geoip_tags u rs (add_geoip u m ips))
          (geosite_tags u rs (add_geosite u m sites))
  Collected-added (geo_ip c) rs ips sites = geoip_tags_keep rs _ _ (mem-set_insert_self _ ips)
  Collected-added (geo_site c) rs ips sites = geosite_tags_keep rs _ _ (mem-set_insert_self _ sites)
  Collected-added (domain c) rs ips sites = tt
  Collected-added (ip_cidr c) rs ips sites = tt

  tags-Collected :
      (rs : List (RoutingRule N)) (ips sites : List String)
      → All (λ r. Collected r.match_condition (geoip_tags u rs ips) (geosite_tags u rs sites)) rs
  unfolding geoip_tags geosite_tags
  tags-Collected [] ips sites = tt
  tags-Collected (r ∷ rs) ips sites =
      (Collected-added r.match_condition rs ips sites, tags-Collected rs _ _)

-- the tags of the rule sets that a route declares, its rules, and the sets that a rule refers to
unfoldable pub declared_sets : Value → List Value
declared_sets route = map (get "tag") (unwrap_or (as_array (get "rule_set" route)) [])

unfoldable pub route_rules : Value → List Value
route_rules route = unwrap_or (as_array (get "rules" route)) []

unfoldable pub referred_sets : Value → List Value
referred_sets rule = unwrap_or (as_array (get "rule_set" rule)) []

-- every set that one of the rules refers to is among the declared ones
abbrev pub Inside : List Value → List Value → Type 0
Inside declared = All (λ v. All (λ t. Memᴰ t declared) (referred_sets v))

set_tags :
    (base kind : String) (ts : List String)
    → map (get "tag") (map (rule_set base kind) ts) ≡ map (λ t. str (kind ⧺ t)) ts
set_tags base kind [] = refl
set_tags base kind (t ∷ ts) = ap (λ r. str (kind ⧺ t) ∷ r) (set_tags base kind ts)

module _ {N : Type 0} (u : Unicode) (net : IpNetApi N) where
  set_list : List (RoutingRule N) → List Value
  set_list rs =
      map (λ t. str ("geoip-" ⧺ t)) (geoip_tags u rs [])
      ++ map (λ t. str ("geosite-" ⧺ t)) (geosite_tags u rs [])

  rule_sets-tags : (rs : List (RoutingRule N)) → map (get "tag") (rule_sets u net rs) ≡ set_list rs
  unfolding rule_sets set_list
  rule_sets-tags rs = simp (map-append, set_tags)

  route_with-declared :
      (sets vs : List Value) → declared_sets (route_with u net sets vs) ≡ map (get "tag") sets
  unfolding declared_sets
  route_with-declared [] vs = refl
  route_with-declared (s ∷ ss) vs = rw elements-items refl

  route_with-rules : (sets vs : List Value) → route_rules (route_with u net sets vs) ≡ vs
  unfolding route_rules
  route_with-rules [] vs = elements-items vs
  route_with-rules (s ∷ ss) vs = elements-items vs

  refers_inside :
      (m : RuleMatch N) (out : String) (rs : List (RoutingRule N))
      → Collected u m (geoip_tags u rs []) (geosite_tags u rs [])
      → All (λ t. Memᴰ t (set_list rs)) (referred_sets (match_rule u net m out))
  unfolding referred_sets set_list
  refers_inside (geo_ip c) out rs h =
      (MemD.append_left _ (MemD.map (λ t. str ("geoip-" ⧺ t)) h), tt)
  refers_inside (geo_site c) out rs h = (
    MemD.append_right (map (λ t. str ("geoip-" ⧺ t)) (geoip_tags u rs []))
        (MemD.map (λ t. str ("geosite-" ⧺ t)) h),
    tt,
  )
  refers_inside (domain c) out rs h = tt
  refers_inside (ip_cidr c) out rs h = tt

  All-refer :
      (all_rs rs : List (RoutingRule N))
      → All
          (λ r. Collected u r.match_condition (geoip_tags u all_rs []) (geosite_tags u all_rs []))
          rs
      → Inside (set_list all_rs) (map (build_route_rule u net) rs)
  unfolding build_route_rule
  All-refer all_rs [] h = tt
  All-refer all_rs (r ∷ rs) h =
      (refers_inside r.match_condition (rule_outbound r.action) all_rs h.0, All-refer all_rs rs h.1)

  route_of-declared :
      (rs : List (RoutingRule N))
      → Inside (declared_sets (route_of u net rs)) (route_rules (route_of u net rs))
  route_of-declared [] = unfold route_rules in tt
  route_of-declared (r ∷ rs) =
      subst₂ Inside
        (sym (
          route_with-declared (rule_sets u net (r ∷ rs)) (map (build_route_rule u net) (r ∷ rs))
          ∙ rule_sets-tags (r ∷ rs)))
        (sym (route_with-rules (rule_sets u net (r ∷ rs)) (map (build_route_rule u net) (r ∷ rs))))
        (All-refer (r ∷ rs) (r ∷ rs) (tags-Collected u (r ∷ rs) [] []))

  -- Every remote rule set that a rule of the sing-box route refers to is declared in the route.
  pub build_route-declared :
      (rules : List (RoutingRule N))
      → Inside (declared_sets (build_route u net rules)) (route_rules (build_route u net rules))
  unfolding build_route
  build_route-declared rules = route_of-declared (enabled_rules rules)
