-- ===== src/Http/Types.antt =====
-- The types of include/http.h. A `char` array of the struct is the list of all its bytes.
use final_system_progamming.Common.{
  ◌≡◌, refl, some, none, ℕ, Bool, true, false, Bytes, Option, replicate, c_string, bytes_eq, codes,
  if◌then◌else◌,
}

pub data HttpMethod : Type 0 where
  get head unsupported : HttpMethod

pub data HttpVersion : Type 0 where
  http_10 http_11 unknown : HttpVersion

-- `http_parse_result_t`, with the request that is filled in.
pub data HttpParseResult {ℓ} (A : Type ℓ) : Type ℓ where
  parse_ok : A → HttpParseResult A
  bad_request : HttpParseResult A

pub record HttpRequest : Type 0 where
  pub method_text : Bytes
  pub path : Bytes
  pub version_text : Bytes
  pub connection : Bytes
  pub method : HttpMethod
  pub version : HttpVersion
  pub keep_alive_requested : Bool
  pub has_range : Bool
  pub range_is_suffix : Bool
  pub range_end_provided : Bool
  pub range_start : ℕ
  pub range_end : ℕ

abbrev pub method_text_max : ℕ
method_text_max = 16

abbrev pub path_max : ℕ
path_max = 1024

abbrev pub version_text_max : ℕ
version_text_max = 16

abbrev pub connection_text_max : ℕ
connection_text_max = 32

-- `memset(request, 0, sizeof(*request))`
unfoldable pub cleared : HttpRequest
cleared = record {
  method_text = replicate method_text_max 0;
  path = replicate path_max 0;
  version_text = replicate version_text_max 0;
  connection = replicate connection_text_max 0;
  method = get;
  version = http_10;
  keep_alive_requested = false;
  has_range = false;
  range_is_suffix = false;
  range_end_provided = false;
  range_start = 0;
  range_end = 0;
}

-- `strcmp(text, literal) == 0`
abbrev text_is : Bytes → Bytes → Bool
text_is text literal = bytes_eq (c_string text) literal

unfoldable pub parse_method : Bytes → HttpMethod
parse_method text =
    if text_is text (codes "GET")
    then get
    else if text_is text (codes "HEAD")
    then head
    else unsupported

unfoldable pub parse_version : Bytes → HttpVersion
parse_version text =
    if text_is text (codes "HTTP/1.0")
    then http_10
    else if text_is text (codes "HTTP/1.1")
    then http_11
    else unknown

infixl 5 ◌>>=◌ ◌>>◌
abbrev pub ◌>>=◌ {ℓ κ} :
    {A : Type ℓ} {B : Type κ} → HttpParseResult A → (A → HttpParseResult B) → HttpParseResult B
parse_ok a >>= f = f a
bad_request >>= f = bad_request

abbrev pub ◌>>◌ {ℓ} :
    {B : Type ℓ} → HttpParseResult (Unit {0}) → HttpParseResult B → HttpParseResult B
m >> k = m >>= λ _. k

-- `if (!test) return HTTP_PARSE_BAD_REQUEST;`
abbrev pub require : Bool → HttpParseResult (Unit {0})
require true = parse_ok tt
require false = bad_request

-- `if (p == NULL) return HTTP_PARSE_BAD_REQUEST;`
abbrev pub found {ℓ} : {A : Type ℓ} → Option A → HttpParseResult A
found (some a) = parse_ok a
found none = bad_request

pub bind-eq-ok {ℓ κ} :
    {A : Type ℓ} {B : Type κ} (m : HttpParseResult A) (f : A → HttpParseResult B) {b : B}
    → (m >>= f) ≡ parse_ok b
    → (a : A) × (m ≡ parse_ok a) × (f a ≡ parse_ok b)
bind-eq-ok (parse_ok a) f h = (a, refl, h)
bind-eq-ok bad_request f h = cc
