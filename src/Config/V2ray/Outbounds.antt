-- ===== src/Config/V2ray/Outbounds.antt =====
-- The outbounds of config/v2ray.rs carry the tags of config/common.rs, in the order of the nodes.
use mathlib.Core.List.{map-append}
use v2ray_rs.Models.Proxy.{ProxyNode, vless, vmess, shadowsocks, trojan}
use v2ray_rs.Config.Json.{str, get}
use v2ray_rs.Config.Common.{outbound_tag}
use v2ray_rs.Config.Common.Tags.{node_tags, all_tags}
use v2ray_rs.Config.V2ray.{build_outbound, node_outbounds, build_outbounds}
use v2ray_rs.Base.{ℕ, suc, String, ◌≡◌, refl, List, [], ◌∷◌, map}

pub build_outbound-tag : (n : ProxyNode) (tag : String) → get "tag" (build_outbound n tag) ≡ str tag
unfolding build_outbound
build_outbound-tag (vless c) tag = refl
build_outbound-tag (vmess c) tag = refl
build_outbound-tag (shadowsocks c) tag = refl
build_outbound-tag (trojan c) tag = refl

node_outbounds-tags :
    (i : ℕ) (ns : List ProxyNode) → map (get "tag") (node_outbounds i ns) ≡ map str (node_tags i ns)
unfolding node_outbounds node_tags
node_outbounds-tags i [] = refl
node_outbounds-tags i (n ∷ ns) =
    rw (build_outbound-tag n (outbound_tag n i), node_outbounds-tags (suc i) ns) refl

pub build_outbounds-tags :
    (nodes : List ProxyNode) → map (get "tag") (build_outbounds nodes) ≡ map str (all_tags nodes)
unfolding build_outbounds
build_outbounds-tags nodes = simp (map-append, node_outbounds-tags)
