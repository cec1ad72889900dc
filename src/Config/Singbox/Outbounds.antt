-- ===== src/Config/Singbox/Outbounds.antt =====
-- The outbounds of config/singbox.rs carry the tags of config/common.rs, in the order of the nodes.
use mathlib.Core.List.{map-append}
use v2ray_rs.Models.Proxy.{
  TransportSettings, tcp, ws, grpc, h2, TlsSettings, ProxyNode, vless, vmess, shadowsocks, trojan,
}
use v2ray_rs.Config.Json.{Value, str, get, obj, entry, Object}
use v2ray_rs.Config.Common.{outbound_tag}
use v2ray_rs.Config.Common.Tags.{node_tags, all_tags}
use v2ray_rs.Config.Singbox.{
  apply_transport, apply_tls, put_flow, build_outbound, node_outbounds, build_outbounds,
}
use v2ray_rs.Base.{ℕ, suc, String, ◌≡◌, refl, Option, none, some, List, [], ◌∷◌, map}

-- an object that begins with a type and a tag still does after the writes below
abbrev Tagged : String → Value → Type 0
Tagged tag v =
    (kind : Value) × (rest : Object) × (v ≡ obj (entry "type" kind (entry "tag" (str tag) rest)))

put_flow-Tagged :
    (tag : String) (o : Option String) (v : Value) → Tagged tag v → Tagged tag (put_flow o v)
put_flow-Tagged tag none v h = h
put_flow-Tagged tag (some flow) v (k, r, e) = rw e (k, _, refl)

apply_transport-Tagged :
    (tag : String) (v : Value) (t : TransportSettings)
    → Tagged tag v
    → Tagged tag (apply_transport v t)
unfolding apply_transport
apply_transport-Tagged tag v tcp h = h
apply_transport-Tagged tag v (ws w) (k, r, e) = rw e (k, _, refl)
apply_transport-Tagged tag v (grpc g) (k, r, e) = rw e (k, _, refl)
apply_transport-Tagged tag v (h2 x) (k, r, e) = rw e (k, _, refl)

apply_tls-Tagged :
    (tag : String) (v : Value) (t : Option TlsSettings) → Tagged tag v → Tagged tag (apply_tls v t)
unfolding apply_tls
apply_tls-Tagged tag v none h = h
apply_tls-Tagged tag v (some t) (k, r, e) = rw e (k, _, refl)

get-Tagged : (tag : String) (v : Value) → Tagged tag v → get "tag" v ≡ str tag
get-Tagged tag v (k, r, e) = rw e refl

build_outbound-Tagged : (n : ProxyNode) (tag : String) → Tagged tag (build_outbound n tag)
unfolding build_outbound
build_outbound-Tagged (vless c) tag =
    apply_tls-Tagged tag _ c.tls
      (apply_transport-Tagged tag _ c.transport (put_flow-Tagged tag c.flow _ (_, _, refl)))
build_outbound-Tagged (vmess c) tag =
    apply_tls-Tagged tag _ c.tls (apply_transport-Tagged tag _ c.transport (_, _, refl))
build_outbound-Tagged (shadowsocks c) tag = (_, _, refl)
build_outbound-Tagged (trojan c) tag =
    apply_tls-Tagged tag _ c.tls (apply_transport-Tagged tag _ c.transport (_, _, refl))

pub build_outbound-tag : (n : ProxyNode) (tag : String) → get "tag" (build_outbound n tag) ≡ str tag
build_outbound-tag n tag = get-Tagged tag _ (build_outbound-Tagged n tag)

node_outbounds-tags :
    (i : ℕ) (ns : List ProxyNode) → map (get "tag") (node_outbounds i ns) ≡ map str (node_tags i ns)
unfolding node_outbounds node_tags
node_outbounds-tags i [] = refl
node_outbounds-tags i (n ∷ ns) =
    rw (build_outbound-tag n (outbound_tag n i), node_outbounds-tags (suc i) ns) refl

pub build_outbounds-tags :
    (nodes : List ProxyNode) → map (get "tag") (build_outbounds nodes) ≡ map str (all_tags nodes)
unfolding build_outbounds
build_outbounds-tags nodes = simp (map-append, node_outbounds-tags)
