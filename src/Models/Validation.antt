-- ===== src/Models/Validation.antt =====
-- crates/core/src/models/validation.rs: which match conditions of a routing rule are accepted, with
-- the data type of routing.rs that it reads. `IpNet` is a type of another package: it is a
-- parameter `N`, with its `Display`, its `FromStr` and its equality in the record `IpNetApi`.
use Prim.Native.String.{len}
use v2ray_rs.Base.{
  ℕ, Char, code, String, Bool, false, not, ◌&&◌, ◌||◌, Option, none, some, List, [], ◌∷◌, ltb, ◌==◌,
  if◌then◌else◌, is_some, unwrap_or, length, keep_if, any, all, str_eq, chars, is_empty_str,
  is_ascii_uppercase, is_ascii_lowercase, is_ascii_digit, char_is, Unicode, strip_prefix, Result,
  ok, err,
}

pub data RuleMatch (N : Type 0) : Type 0 where
  geo_ip : String → RuleMatch N
  geo_site : String → RuleMatch N
  domain : String → RuleMatch N
  ip_cidr : N → RuleMatch N

pub record IpNetApi (N : Type 0) : Type 0 where
  pub display : N → String
  pub parse : String → Option N
  pub eq : N → N → Bool

pub data ValidationError : Type 0 where
  invalid_country_code : String → ValidationError
  invalid_ip_cidr : String → ValidationError
  invalid_domain_pattern : String → ValidationError
  invalid_geo_site_category : String → ValidationError
  index_out_of_bounds : ℕ → ValidationError

abbrev pub valid_country_codes : List String
valid_country_codes =
    "AD" ∷ "AE" ∷ "AF" ∷ "AG" ∷ "AI" ∷ "AL" ∷ "AM" ∷ "AO" ∷ "AQ" ∷ "AR" ∷ "AS" ∷ "AT" ∷ "AU" ∷ "AW"
    ∷ "AX" ∷ "AZ" ∷ "BA" ∷ "BB" ∷ "BD" ∷ "BE" ∷ "BF" ∷ "BG" ∷ "BH" ∷ "BI" ∷ "BJ" ∷ "BL" ∷ "BM"
    ∷ "BN" ∷ "BO" ∷ "BQ" ∷ "BR" ∷ "BS" ∷ "BT" ∷ "BV" ∷ "BW" ∷ "BY" ∷ "BZ" ∷ "CA" ∷ "CC" ∷ "CD"
    ∷ "CF" ∷ "CG" ∷ "CH" ∷ "CI" ∷ "CK" ∷ "CL" ∷ "CM" ∷ "CN" ∷ "CO" ∷ "CR" ∷ "CU" ∷ "CV" ∷ "CW"
    ∷ "CX" ∷ "CY" ∷ "CZ" ∷ "DE" ∷ "DJ" ∷ "DK" ∷ "DM" ∷ "DO" ∷ "DZ" ∷ "EC" ∷ "EE" ∷ "EG" ∷ "EH"
    ∷ "ER" ∷ "ES" ∷ "ET" ∷ "FI" ∷ "FJ" ∷ "FK" ∷ "FM" ∷ "FO" ∷ "FR" ∷ "GA" ∷ "GB" ∷ "GD" ∷ "GE"
    ∷ "GF" ∷ "GG" ∷ "GH" ∷ "GI" ∷ "GL" ∷ "GM" ∷ "GN" ∷ "GP" ∷ "GQ" ∷ "GR" ∷ "GS" ∷ "GT" ∷ "GU"
    ∷ "GW" ∷ "GY" ∷ "HK" ∷ "HM" ∷ "HN" ∷ "HR" ∷ "HT" ∷ "HU" ∷ "ID" ∷ "IE" ∷ "IL" ∷ "IM" ∷ "IN"
    ∷ "IO" ∷ "IQ" ∷ "IR" ∷ "IS" ∷ "IT" ∷ "JE" ∷ "JM" ∷ "JO" ∷ "JP" ∷ "KE" ∷ "KG" ∷ "KH" ∷ "KI"
    ∷ "KM" ∷ "KN" ∷ "KP" ∷ "KR" ∷ "KW" ∷ "KY" ∷ "KZ" ∷ "LA" ∷ "LB" ∷ "LC" ∷ "LI" ∷ "LK" ∷ "LR"
    ∷ "LS" ∷ "LT" ∷ "LU" ∷ "LV" ∷ "LY" ∷ "MA" ∷ "MC" ∷ "MD" ∷ "ME" ∷ "MF" ∷ "MG" ∷ "MH" ∷ "MK"
    ∷ "ML" ∷ "MM" ∷ "MN" ∷ "MO" ∷ "MP" ∷ "MQ" ∷ "MR" ∷ "MS" ∷ "MT" ∷ "MU" ∷ "MV" ∷ "MW" ∷ "MX"
    ∷ "MY" ∷ "MZ" ∷ "NA" ∷ "NC" ∷ "NE" ∷ "NF" ∷ "NG" ∷ "NI" ∷ "NL" ∷ "NO" ∷ "NP" ∷ "NR" ∷ "NU"
    ∷ "NZ" ∷ "OM" ∷ "PA" ∷ "PE" ∷ "PF" ∷ "PG" ∷ "PH" ∷ "PK" ∷ "PL" ∷ "PM" ∷ "PN" ∷ "PR" ∷ "PS"
    ∷ "PT" ∷ "PW" ∷ "PY" ∷ "QA" ∷ "RE" ∷ "RO" ∷ "RS" ∷ "RU" ∷ "RW" ∷ "SA" ∷ "SB" ∷ "SC" ∷ "SD"
    ∷ "SE" ∷ "SG" ∷ "SH" ∷ "SI" ∷ "SJ" ∷ "SK" ∷ "SL" ∷ "SM" ∷ "SN" ∷ "SO" ∷ "SR" ∷ "SS" ∷ "ST"
    ∷ "SV" ∷ "SX" ∷ "SY" ∷ "SZ" ∷ "TC" ∷ "TD" ∷ "TF" ∷ "TG" ∷ "TH" ∷ "TJ" ∷ "TK" ∷ "TL" ∷ "TM"
    ∷ "TN" ∷ "TO" ∷ "TR" ∷ "TT" ∷ "TV" ∷ "TW" ∷ "TZ" ∷ "UA" ∷ "UG" ∷ "UM" ∷ "US" ∷ "UY" ∷ "UZ"
    ∷ "VA" ∷ "VC" ∷ "VE" ∷ "VG" ∷ "VI" ∷ "VN" ∷ "VU" ∷ "WF" ∷ "WS" ∷ "YE" ∷ "YT" ∷ "ZA" ∷ "ZM"
    ∷ "ZW" ∷ []

abbrev pub valid_geosite_categories : List String
valid_geosite_categories =
    "google" ∷ "facebook" ∷ "twitter" ∷ "amazon" ∷ "apple" ∷ "microsoft" ∷ "netflix" ∷ "spotify"
    ∷ "telegram" ∷ "youtube" ∷ "tiktok" ∷ "instagram" ∷ "whatsapp" ∷ "reddit" ∷ "github"
    ∷ "stackoverflow" ∷ "cn" ∷ "ru" ∷ "ir" ∷ "category-ads" ∷ "category-ads-all" ∷ "category-porn"
    ∷ "geolocation-cn" ∷ "geolocation-!cn" ∷ "tld-cn" ∷ "tld-ru" ∷ []

-- `contains` on a slice of texts
unfoldable pub listed : String → List String → Bool
listed s = any (λ t. str_eq t s)

-- `str::len`, the number of bytes of the UTF-8 form
abbrev pub byte_len : String → ℕ
byte_len s = len s

pub validate_country_code : String → Result ValidationError (Unit {0})
validate_country_code code =
    if not (byte_len code == 2)
    then err (invalid_country_code code)
    else if not (all is_ascii_uppercase (chars code))
    then err (invalid_country_code code)
    else if not (listed code valid_country_codes)
    then err (invalid_country_code code)
    else ok tt

pub validate_ip_cidr : {N : Type 0} → IpNetApi N → String → Result ValidationError (Unit {0})
validate_ip_cidr net cidr = elim (net.parse cidr) [
  | some _ ↦ ok tt
  | none ↦ err (invalid_ip_cidr cidr)
]

-- `str::starts_with` and `str::contains` at one ASCII character
abbrev pub starts_with_char : ℕ → String → Bool
starts_with_char n s = elim (chars s) [ [] ↦ false | c ∷ _ ↦ char_is n c ]

abbrev pub contains_char : ℕ → String → Bool
contains_char n s = any (char_is n) (chars s)

abbrev pub domain_char : Unicode → Char → Bool
domain_char u c = u.is_alphanumeric c || char_is b'.' c || char_is b'-' c

pub validate_domain_pattern : Unicode → String → Result ValidationError (Unit {0})
validate_domain_pattern u pattern =
    let wildcard_prefix = strip_prefix "*." pattern in
    let to_check = unwrap_or wildcard_prefix pattern in
    if is_empty_str pattern
    then err (invalid_domain_pattern pattern)
    else if starts_with_char b'.' pattern
    then err (invalid_domain_pattern pattern)
    else if not (contains_char b'.' pattern)
    then err (invalid_domain_pattern pattern)
    else if not (all (domain_char u) (chars to_check))
    then err (invalid_domain_pattern pattern)
    else if is_some wildcard_prefix && ltb 1 (length (keep_if (char_is b'*') (chars pattern)))
    then err (invalid_domain_pattern pattern)
    else ok tt

abbrev pub geo_site_char : Char → Bool
geo_site_char c =
    is_ascii_lowercase c || is_ascii_digit c || char_is b'-' c || char_is b'.' c || char_is b'!' c

pub validate_geosite_category : String → Result ValidationError (Unit {0})
validate_geosite_category category =
    if is_empty_str category
    then err (invalid_geo_site_category category)
    else if not (all geo_site_char (chars category))
    then err (invalid_geo_site_category category)
    else if not (listed category valid_geosite_categories)
    then err (invalid_geo_site_category category)
    else ok tt

module _ {N : Type 0} (u : Unicode) (net : IpNetApi N) where
  unfoldable pub validate_rule_match : RuleMatch N → Result ValidationError (Unit {0})
  unfolding listed validate_country_code validate_geosite_category validate_domain_pattern
      validate_ip_cidr
  validate_rule_match (geo_ip country_code) = validate_country_code country_code
  validate_rule_match (geo_site category) = validate_geosite_category category
  validate_rule_match (domain pattern) = validate_domain_pattern u pattern
  validate_rule_match (ip_cidr cidr) = validate_ip_cidr net (net.display cidr)
