-- ===== src/Subscription/Parser/Import.antt =====
-- What `parse_subscription_uris` of parser.rs makes of a list of links.
use mathlib.Core.List.{append-nil, append_assoc}
use v2ray_rs.Models.Proxy.{ProxyNode}
use v2ray_rs.Models.Subscription.{SubscriptionNode}
use v2ray_rs.Subscription.Formats.{Formats}
use v2ray_rs.Subscription.Parser.{
  ParseError, ImportResult, imported, import_one, import_loop, parse_uri, parse_subscription_uris,
}
use v2ray_rs.Base.{
  ◌+◌, String, ◌≡◌, refl, sym, ◌∙◌, List, [], ◌∷◌, ◌++◌, map, arith, length, length-map, Unicode,
  Result, ok, err,
}

-- the nodes and the refused links, as the two parts of a list of results
abbrev pub accepted : List (String × Result ParseError ProxyNode) → List SubscriptionNode
accepted [] = []
accepted ((uri, ok node) ∷ rs) = imported node ∷ accepted rs
accepted ((uri, err e) ∷ rs) = accepted rs

abbrev pub rejected : List (String × Result ParseError ProxyNode) → List (String × ParseError)
rejected [] = []
rejected ((uri, ok node) ∷ rs) = rejected rs
rejected ((uri, err e) ∷ rs) = (uri, e) ∷ rejected rs

-- each link with its result
abbrev pub results :
    {B : Type 0} → Formats B → Unicode → List String → List (String × Result ParseError ProxyNode)
results f u uris = map (λ uri. (uri, parse_uri f u uri)) uris

result_eq :
    {a a' : List SubscriptionNode} {b b' : List (String × ParseError)}
    → a ≡ a'
    → b ≡ b'
    → Path ImportResult (record { nodes = a; errors = b }) (record { nodes = a'; errors = b' })
result_eq p q = λ i. record { nodes = p i; errors = q i }

add_result :
    (uri : String) (x : Result ParseError ProxyNode)
    (rs : List (String × Result ParseError ProxyNode)) (r : ImportResult)
    → Path ImportResult
        (record {
          nodes = (import_one uri x r).nodes ++ accepted rs;
          errors = (import_one uri x r).errors ++ rejected rs;
        })
        (record {
          nodes = r.nodes ++ accepted ((uri, x) ∷ rs);
          errors = r.errors ++ rejected ((uri, x) ∷ rs);
        })
add_result uri (ok node) rs r =
    result_eq (append_assoc r.nodes (imported node ∷ []) (accepted rs)) refl
add_result uri (err e) rs r = result_eq refl (append_assoc r.errors ((uri, e) ∷ []) (rejected rs))

import_loop_lem :
    {B : Type 0} (f : Formats B) (u : Unicode) (uris : List String) (r : ImportResult)
    → import_loop f u uris r ≡ record {
      nodes = r.nodes ++ accepted (results f u uris);
      errors = r.errors ++ rejected (results f u uris);
    }
unfolding import_loop
import_loop_lem f u [] r = result_eq (sym (append-nil r.nodes)) (sym (append-nil r.errors))
import_loop_lem f u (uri ∷ uris) r =
    import_loop_lem f u uris (import_one uri (parse_uri f u uri) r)
    ∙ add_result uri (parse_uri f u uri) (results f u uris) r

counted :
    (rs : List (String × Result ParseError ProxyNode))
    → length (accepted rs) + length (rejected rs) ≡ length rs
counted [] = refl
counted ((uri, ok node) ∷ rs) = omega (arith, counted rs)
counted ((uri, err e) ∷ rs) = omega (arith, counted rs)

-- The import keeps the node of every link that parses, enabled and in the order of the links, and
-- every other link with its error, in their order; no link is lost or counted twice.
pub parse_subscription_uris_lem :
    {B : Type 0} (f : Formats B) (u : Unicode) (uris : List String)
    → (parse_subscription_uris f u uris
        ≡ record { nodes = accepted (results f u uris); errors = rejected (results f u uris) })
      × (length (parse_subscription_uris f u uris).nodes
            + length (parse_subscription_uris f u uris).errors
          ≡ length uris)
unfolding parse_subscription_uris
parse_subscription_uris_lem f u uris =
    let e = import_loop_lem f u uris (record { nodes = []; errors = [] }) in
    (e, rw e (counted (results f u uris) ∙ length-map (λ uri. (uri, parse_uri f u uri)) uris))
