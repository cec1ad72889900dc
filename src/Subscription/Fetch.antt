-- ===== src/Subscription/Fetch.antt =====
-- crates/subscription/src/fetch.rs: the answer of a request, and the links in the content.
use v2ray_rs.Subscription.Formats.{Formats}
use v2ray_rs.Subscription.Parser.{or_decode}
use v2ray_rs.Base.{
  ℕ, String, Bool, not, ◌&&◌, List, map, ltb, leb, if◌then◌else◌, keep_if, is_empty_str, trim,
  Result, ok, err, map_err, lines,
}

pub data FetchError : Type 0 where
  network_error : String → FetchError
  http_error : ℕ → String → FetchError
  file_error : String → FetchError
  timeout : FetchError

-- what `reqwest` gives: an error with its `is_timeout` and text, or a status and the body's text
pub data Answer : Type 0 where
  not_sent : Bool → String → Answer
  answered : ℕ → Result String String → Answer

-- `StatusCode::is_success`
abbrev pub is_success : ℕ → Bool
is_success status = leb 200 status && ltb status 300

abbrev pub or_default : Result String String → String
or_default (ok body) = body
or_default (err e) = ""

abbrev pub fetch_with_client : Answer → Result FetchError String
fetch_with_client (not_sent is_timeout e) =
    if is_timeout then err timeout else err (network_error e)
fetch_with_client (answered status body) =
    if not (is_success status)
    then err (http_error status (or_default body))
    else map_err network_error body

-- the outcome of `read_to_string` is an argument
abbrev pub fetch_from_file : Result String String → Result FetchError String
fetch_from_file content = map_err file_error content

module _ {B : Type 0} (f : Formats B) where
  abbrev pub text_of : String → Result String B → String
  text_of trimmed (ok bytes) = f.from_utf8_lossy bytes
  text_of trimmed (err e) = trimmed

  unfoldable pub decode_subscription_content : String → List String
  decode_subscription_content raw =
      let trimmed = trim raw in
      let text = text_of trimmed (or_decode (f.standard trimmed) (f.url_safe_no_pad trimmed)) in
      keep_if (λ l. not (is_empty_str l)) (map trim (lines text))
