-- ===== src/Subscription/Parser/ShareLink.antt =====
-- The links that `parse_ss` of parser.rs reads, written out.

use v2ray_rs.Models.Proxy.{shadowsocks}
use v2ray_rs.Subscription.Formats.{Formats}
use v2ray_rs.Subscription.Parser.{parse_ss, percent_decode_fragment, cut_fragment}
use v2ray_rs.Base.{
  ℕ, ◌^◌, ◌<◌, String, ◌≡◌, refl, true, Option, none, some, ◌⧺◌, trim, split_once, to_string, ok,
  lacks, strip_prefix-append, split_once-append, rsplit_once-append, lacks-append, all_digits-lacks,
  parse_unsigned-to_string, split_once-lacks, to_string-digits,
}

abbrev pub host_port : String → ℕ → String
host_port host port = host ⧺ String.◌∷◌ ":" (to_string port)

abbrev pub with_fragment : String → Option String → String
with_fragment text none = text
with_fragment text (some fragment) = text ⧺ String.◌∷◌ "#" fragment

-- ss://<user info>@<host>:<port>, with #<fragment> if there is one
abbrev pub share_link : String → String → ℕ → Option String → String
share_link userinfo host port fragment =
    "ss://" ⧺ (userinfo ⧺ String.◌∷◌ "@" (with_fragment (host_port host port) fragment))

-- what the user info of a link stands for
pub record Encodes {B : Type 0} (f : Formats B) (userinfo method password : String) : Type 0 where
  pub bytes : B
  pub decoded : f.url_safe_no_pad (trim userinfo) ≡ ok bytes
  pub text : f.from_utf8 bytes ≡ ok (method ⧺ String.◌∷◌ ":" password)

host_port-lacks :
    (host : String) (port : ℕ) → lacks b'#' host ≡ true → lacks b'#' (host_port host port) ≡ true
host_port-lacks host port h =
    lacks-append b'#' host _ h
      (all_digits-lacks b'#' (to_string port) (to_string-digits port).0 refl)

cut-with_fragment :
    (text : String) (fragment : Option String)
    → lacks b'#' text ≡ true
    → cut_fragment (split_once b'#' (with_fragment text fragment)) (with_fragment text fragment)
      ≡ (text, fragment)
cut-with_fragment text none h = rw (split_once-lacks b'#' text h) refl
cut-with_fragment text (some s) h = rw (split_once-append "#" text s h) refl

-- A link that is put together from a user info that encodes a method without colon and a password,
-- a host without `#`, a port that fits in 16 bits and an optional fragment is read as the node with
-- these parts, where the user info holds no `@`.
pub parse_ss-share_link :
    {B : Type 0} (f : Formats B) (userinfo method password host : String) (port : ℕ)
    (fragment : Option String)
    → Encodes f userinfo method password
    → lacks b'@' userinfo ≡ true
    → lacks b':' method ≡ true
    → lacks b'#' host ≡ true
    → port < 2 ^ 16
    → parse_ss f (share_link userinfo host port fragment)
      ≡ ok (
          shadowsocks (record {
            address = host;
            port = port;
            method = method;
            password = password;
            remark = percent_decode_fragment f fragment;
          }))
unfolding parse_ss
parse_ss-share_link f userinfo method password host port fragment code_of a m h p =
    let digits = all_digits-lacks b':' (to_string port) (to_string-digits port).0 refl in
    rw
      (
        strip_prefix-append "ss://"
            (userinfo ⧺ String.◌∷◌ "@" (with_fragment (host_port host port) fragment)),
        split_once-append "@" userinfo (with_fragment (host_port host port) fragment) a,
        code_of.decoded,
        code_of.text,
        split_once-append ":" method password m,
        cut-with_fragment (host_port host port) fragment (host_port-lacks host port h),
        rsplit_once-append ":" host (to_string port) digits,
        parse_unsigned-to_string (2 ^ 16) port p,
      )
      refl
