-- ===== src/Subscription/Parser/Outcomes.antt =====
-- The protocol that each link of parser.rs is read as, and the errors.
use v2ray_rs.Models.Proxy.{port, ProxyNode, vless, vmess, shadowsocks, trojan}
use v2ray_rs.Config.Json.{get, as_str}
use v2ray_rs.Subscription.Formats.{Formats, Url}
use v2ray_rs.Subscription.Parser.{
  port_number, ParseError, unsupported_scheme, invalid_format, invalid, or_decode, cut_fragment,
  scheme_of, checked, parse_vless, parse_vmess, parse_ss, parse_trojan, parse_uri,
}
use v2ray_rs.Base.{
  ℕ, ◌^◌, ◌<◌, String, ◌≡◌, refl, ap, inl, inr, Bool, true, false, Option, none, some, List, [],
  ◌∷◌, arith, eq_iff, if◌then◌else◌, Bool-cases, any, str_eq, is_empty_str, Unicode, trim,
  strip_prefix, split_once, rsplit_once, Result, ok, err, ◌>>=◌, ok_or, parse_unsigned,
  parse_unsigned-bound,
}

-- the scheme of a node's protocol
abbrev pub protocol : ProxyNode → String
protocol (vless c) = "vless"
protocol (vmess c) = "vmess"
protocol (shadowsocks c) = "ss"
protocol (trojan c) = "trojan"

-- what holds of a node that is returned; an error says that the format is invalid
abbrev pub Returns : (ProxyNode → Type 0) → Result ParseError ProxyNode → Type 0
Returns P (ok node) = P node
Returns P (err (invalid_format m)) = Unit
Returns P (err (unsupported_scheme s)) = ⊥

abbrev pub IsFormatError : {A : Type 0} → Result ParseError A → Type 0
IsFormatError (err (unsupported_scheme s)) = ⊥
IsFormatError _ = Unit

pub bind-Returns :
    {A : Type 0} (P : ProxyNode → Type 0) (r : Result ParseError A)
    (g : A → Result ParseError ProxyNode)
    → IsFormatError r
    → ((a : A) → r ≡ ok a → Returns P (g a))
    → Returns P (r >>= g)
bind-Returns P (ok a) g h k = k a refl
bind-Returns P (err (invalid_format m)) g h k = tt
bind-Returns P (err (unsupported_scheme s)) g h k = h

pub ok_or-IsFormatError :
    {A : Type 0} (o : Option A) (m : String) → IsFormatError (ok_or o (invalid_format m))
ok_or-IsFormatError none m = tt
ok_or-IsFormatError (some a) m = tt

pub invalid-IsFormatError :
    {A : Type 0} (m : String) (r : Result String A) → IsFormatError (invalid m r)
invalid-IsFormatError m (ok a) = tt
invalid-IsFormatError m (err e) = tt

-- the value of a result, with one for an error
abbrev value_or : {E A : Type 0} → A → Result E A → A
value_or d (ok a) = a
value_or d (err e) = d

invalid-ok : {A : Type 0} (m : String) (r : Result String A) (a : A) → invalid m r ≡ ok a → r ≡ ok a
invalid-ok m (ok b) a e = ap ok (ap (value_or b) e)
invalid-ok m (err x) a e = cc

ok_or-ok : {A : Type 0} (o : Option A) (x : ParseError) (a : A) → ok_or o x ≡ ok a → o ≡ some a
ok_or-ok none x a e = cc
ok_or-ok (some b) x a e = ap some (ap (value_or b) e)

-- `checked` on the parts of the URL
checked_parts : String → Bool → Option String → Option ℕ → Result ParseError (String × ℕ)
checked_parts m b h p =
    if b
    then err (invalid_format m)
    else ok_or h (invalid_format "missing host") >>= λ a.
        ok_or p (invalid_format "missing port") >>= λ q. ok (a, q)

checked_parts-lem :
    (m : String) (b : Bool) (h : Option String) (p : Option ℕ)
    → IsFormatError (checked_parts m b h p)
      × ((q : String × ℕ) → checked_parts m b h p ≡ ok q → p ≡ some q.1)
unfolding checked_parts
checked_parts-lem m true h p = (tt, λ q e. cc)
checked_parts-lem m false none p = (tt, λ q e. cc)
checked_parts-lem m false (some a) none = (tt, λ q e. cc)
checked_parts-lem m false (some a) (some p) = (tt, λ q e. ap (port_or p) e)
  where
    port_or : ℕ → Result ParseError (String × ℕ) → Option ℕ
    port_or d (ok r) = some r.1
    port_or d (err x) = some d

-- a port of a parsed URL is a u16
abbrev pub HasPorts : {B : Type 0} → Formats B → Type 0
HasPorts f =
    (s : String) (url : Url) (p : ℕ) → f.parse_url s ≡ ok url → url.port ≡ some p → p < 2 ^ 16

-- a node of a protocol, with a port that fits
abbrev pub IsReadAs : String → ProxyNode → Type 0
IsReadAs scheme node = (protocol node ≡ scheme) × (port node < 2 ^ 16)

-- the schemes of the links that are read
abbrev pub schemes : List String
schemes = "vless" ∷ "vmess" ∷ "ss" ∷ "trojan" ∷ []

-- what `parse_uri` may return for a scheme
abbrev pub Reads : String → Result ParseError ProxyNode → Type 0
Reads scheme (ok node) = IsReadAs scheme node
Reads scheme (err (invalid_format m)) = any (str_eq scheme) schemes ≡ true
Reads scheme (err (unsupported_scheme s)) = (s ≡ scheme) × (any (str_eq scheme) schemes ≡ false)

module _ {B : Type 0} (f : Formats B) (fits : HasPorts f) where
  url_port :
      (m uri : String) (url : Url) (q : String × ℕ)
      → invalid "" (f.parse_url uri) ≡ ok url
      → checked f m url ≡ ok q
      → q.1 < 2 ^ 16
  unfolding checked_parts
  url_port m uri url q e e' =
      fits uri url q.1 (invalid-ok "" (f.parse_url uri) url e)
        ((checked_parts-lem m (is_empty_str url.username) url.host_str url.port).1 q e')

  checked-IsFormatError : (m : String) (url : Url) → IsFormatError (checked f m url)
  unfolding checked_parts
  checked-IsFormatError m url =
      (checked_parts-lem m (is_empty_str url.username) url.host_str url.port).0

  vless-IsReadAs : (uri : String) → Returns (IsReadAs "vless") (parse_vless f uri)
  unfolding parse_vless
  vless-IsReadAs uri =
      bind-Returns _ (invalid "" (f.parse_url uri)) _ (invalid-IsFormatError "" (f.parse_url uri))
        λ url e.
          bind-Returns _ (checked f "missing UUID" url) _ (checked-IsFormatError "missing UUID" url)
            λ q e'. (refl, url_port "missing UUID" uri url q e e')

  trojan-IsReadAs : (uri : String) → Returns (IsReadAs "trojan") (parse_trojan f uri)
  unfolding parse_trojan
  trojan-IsReadAs uri =
      bind-Returns _ (invalid "" (f.parse_url uri)) _ (invalid-IsFormatError "" (f.parse_url uri))
        λ url e.
          bind-Returns _ (checked f "missing password" url) _
            (checked-IsFormatError "missing password" url)
            λ q e'. (refl, url_port "missing password" uri url q e e')

  vmess-IsReadAs : (uri : String) → Returns (IsReadAs "vmess") (parse_vmess f uri)
  unfolding parse_vmess
  vmess-IsReadAs uri =
      bind-Returns _ (ok_or (strip_prefix "vmess://" uri) _) _ (ok_or-IsFormatError _ _)
        λ encoded e.
          bind-Returns _ (invalid _ (f.standard (trim encoded))) _ (invalid-IsFormatError _ _)
            λ decoded e.
              bind-Returns _ (invalid _ (f.from_slice decoded)) _ (invalid-IsFormatError _ _)
                λ json e.
                  bind-Returns _ (ok_or (as_str (get "add" json)) _) _ (ok_or-IsFormatError _ _)
                    λ address e.
                      bind-Returns _ (ok_or (port_number (get "port" json)) _) _
                        (ok_or-IsFormatError _ _)
                        λ port e.
                          bind-Returns _ (ok_or (as_str (get "id" json)) _) _
                            (ok_or-IsFormatError _ _) λ uuid e. (refl, omega arith)

  ss-IsReadAs : (uri : String) → Returns (IsReadAs "ss") (parse_ss f uri)
  unfolding parse_ss
  ss-IsReadAs uri =
      bind-Returns _ (ok_or (strip_prefix "ss://" uri) _) _ (ok_or-IsFormatError _ _) λ rest e.
        bind-Returns _ (ok_or (split_once b'@' rest) _) _ (ok_or-IsFormatError _ _) λ parts e.
          bind-Returns _
            (invalid _ (or_decode (f.url_safe_no_pad (trim parts.0)) (f.standard (trim parts.0)))) _
            (invalid-IsFormatError _ _)
            λ decoded e.
              bind-Returns _ (invalid _ (f.from_utf8 decoded)) _ (invalid-IsFormatError _ _)
                λ userinfo e.
                  bind-Returns _ (ok_or (split_once b':' userinfo) _) _ (ok_or-IsFormatError _ _)
                    λ user e.
                      let (host_port, fragment) = cut_fragment (split_once b'#' parts.1) parts.1 in
                      bind-Returns _ (ok_or (rsplit_once b':' host_port) _) _
                        (ok_or-IsFormatError _ _)
                        λ ends e.
                          bind-Returns _ (ok_or (parse_unsigned (2 ^ 16) ends.1) _) _
                            (ok_or-IsFormatError _ _)
                            λ port e. (
                              refl,
                              parse_unsigned-bound (2 ^ 16) ends.1 port
                                  (ok_or-ok (parse_unsigned (2 ^ 16) ends.1) _ port e),
                            )

  Returns-Reads :
      (known scheme : String) (r : Result ParseError ProxyNode)
      → scheme ≡ known
      → any (str_eq scheme) schemes ≡ true
      → Returns (IsReadAs known) r
      → Reads scheme r
  Returns-Reads known scheme (ok node) e k h = rw e h
  Returns-Reads known scheme (err (invalid_format m)) e k h = k
  Returns-Reads known scheme (err (unsupported_scheme s)) e k h = absurd h

  -- Where the ports of parsed URLs fit in 16 bits, `parse_uri` decides for every text by
  -- the lower-case scheme: a node that it returns is of the protocol of the scheme and its port fits
  -- in 16 bits, an invalid format is reported for the four schemes only, and an unsupported scheme
  -- for every other, with its name.
  pub parse_uri-Reads :
      (u : Unicode) (uri : String) → Reads (u.to_lowercase (scheme_of uri)) (parse_uri f u uri)
  unfolding parse_uri
  parse_uri-Reads u uri =
      let scheme = u.to_lowercase (scheme_of uri) in
      elim (Bool-cases (str_eq scheme "vless")) [
        | inl a ↦ rw a (
            Returns-Reads "vless" scheme _ ((eq_iff scheme "vless").0 a) (rw a refl)
              (vless-IsReadAs uri))
        | inr a ↦ elim (Bool-cases (str_eq scheme "vmess")) [
          | inl b ↦
              rw (a, b)
                (Returns-Reads "vmess" scheme _ ((eq_iff scheme "vmess").0 b) (rw (a, b) refl)
                  (vmess-IsReadAs uri))
          | inr b ↦ elim (Bool-cases (str_eq scheme "ss")) [
            | inl c ↦
                rw (a, b, c)
                  (Returns-Reads "ss" scheme _ ((eq_iff scheme "ss").0 c) (rw (a, b, c) refl)
                    (ss-IsReadAs uri))
            | inr c ↦ elim (Bool-cases (str_eq scheme "trojan")) [
              | inl d ↦
                  rw (a, b, c, d)
                    (Returns-Reads "trojan" scheme _ ((eq_iff scheme "trojan").0 d)
                      (rw (a, b, c, d) refl) (trojan-IsReadAs uri))
              | inr d ↦ rw (a, b, c, d) (refl, rw (a, b, c, d) refl)
            ]
          ]
        ]
      ]
