-- ===== src/Config/Xray.antt =====
-- crates/core/src/config/xray.rs: the v2ray configuration, patched for XTLS flows. The accesses by
-- `IndexMut` are written with the panics that serde_json documents: the result is `none` where one
-- of them panics.
pub mod Patch
use v2ray_rs.Models.Proxy.{TransportSettings, tcp, VlessConfig, ProxyNode, vless}
use v2ray_rs.Models.Settings.{AppSettings}
use v2ray_rs.Models.Validation.{IpNetApi}
use v2ray_rs.Models.Routing.{RoutingRule}
use v2ray_rs.Config.Json.{
  Value, null, str, arr, obj, item, no_entries, entry, items, elements, lookup_field, set_field,
  assign,
}
use v2ray_rs.Config.Common.{ConfigError}
use v2ray_rs.Config.V2ray
use v2ray_rs.Base.{
  String, Bool, true, false, ◌&&◌, Option, none, some, List, [], ◌∷◌, if◌then◌else◌, is_some,
  unwrap_or, Unicode, strip_prefix, Result, ok, err,
}

infixl 5 ◌>>=?◌
abbrev ◌>>=?◌ {ℓ κ} : {A : Type ℓ} {B : Type κ} → Option A → (A → Option B) → Option B
none >>=? f = none
some a >>=? f = f a

-- `f(&mut value["key"])`
abbrev pub at_key : String → (Value → Option Value) → Value → Option Value
at_key k f (obj r) = f (unwrap_or (lookup_field k r) null) >>=? λ v. some (obj (set_field k v r))
at_key k f null = f null >>=? λ v. some (obj (entry k v no_entries))
at_key k f _ = none

-- `f(&mut value[0])`
abbrev pub at_first : (Value → Option Value) → Value → Option Value
at_first f (arr (item v vs)) = f v >>=? λ w. some (arr (item w vs))
at_first f _ = none

abbrev pub is_xtls_flow : String → Bool
is_xtls_flow flow = is_some (strip_prefix "xtls-rprx-" flow)

-- `as_array_mut` and `first_mut`, then the write of the flow
abbrev set_first_flow : String → Value → Option Value
set_first_flow flow (arr (item user users)) =
    assign "flow" (str flow) user >>=? λ user'. some (arr (item user' users))
set_first_flow flow v = some v

abbrev is_tcp : TransportSettings → Bool
is_tcp tcp = true
is_tcp _ = false

abbrev set_security : Bool → Value → Option Value
set_security true outbound = at_key "streamSettings" (assign "security" (str "xtls")) outbound
set_security false outbound = some outbound

abbrev extend_flow : String → VlessConfig → Value → Option Value
extend_flow flow c outbound =
    at_key "settings" (at_key "vnext" (at_first (at_key "users" (set_first_flow flow)))) outbound
    >>=? set_security (is_tcp c.transport && is_some c.tls)

abbrev extend_if : Option String → VlessConfig → Value → Option Value
extend_if none c outbound = some outbound
extend_if (some flow) c outbound =
    let extended = extend_flow flow c outbound in
    if is_xtls_flow flow then extended else some outbound

pub apply_xray_vless_extensions : Value → VlessConfig → Option Value
apply_xray_vless_extensions outbound c = extend_if c.flow c outbound

pub patch_one : ProxyNode → Value → Option Value
patch_one (vless c) outbound = apply_xray_vless_extensions outbound c
patch_one _ outbound = some outbound

-- the loop over the nodes; an outbound that is not there is passed over
pub patch_from : List ProxyNode → List Value → Option (List Value)
patch_from [] outbounds = some outbounds
patch_from (n ∷ ns) [] = some []
patch_from (n ∷ ns) (o ∷ os) =
    let rest = patch_from ns os in patch_one n o >>=? λ o'. rest >>=? λ os'. some (o' ∷ os')

abbrev patch_array : List ProxyNode → Value → Option Value
patch_array nodes (arr vs) = patch_from nodes (elements vs) >>=? λ vs'. some (arr (items vs'))
patch_array nodes v = some v

pub patch_xray_outbounds : Value → List ProxyNode → Option Value
patch_xray_outbounds config nodes = at_key "outbounds" (patch_array nodes) config

abbrev patch_result : List ProxyNode → Result ConfigError Value → Option (Result ConfigError Value)
patch_result nodes (err e) = some (err e)
patch_result nodes (ok config) = patch_xray_outbounds config nodes >>=? λ config'. some (ok config')

module _ {N : Type 0} (u : Unicode) (net : IpNetApi N) where
  unfoldable pub generate :
      List ProxyNode → List (RoutingRule N) → AppSettings → Option (Result ConfigError Value)
  generate nodes rules settings = patch_result nodes (V2ray.generate u net nodes rules settings)
