-- ===== src/Backend/Http.antt =====
-- What stands around every request: the provider of middleware/auth.py, the ETag of
-- middleware/etag.py and the bodies of errors of lib/errors.py (backend/app). The digest is an
-- argument.
pub mod Cached
use package.text.Mathlib.Text.{starts_with}
use itdashboard.Prelude.{
  ℕ, String, Bool, true, false, not, ◌&&◌, ◌||◌, Option, none, some, List, [], ◌∷◌, ◌⊎◌, inl, inr,
  str_eq, leb, ◌==◌, if◌then◌else◌, any,
}
use itdashboard.Text.{left, truthy, concat}

pub record Envelope : Type 0 where
  pub status_code : ℕ
  pub code : String
  pub message : String
  pub request_id : String
  pub retryable : Bool

pub record AppError : Type 0 where
  pub code : String
  pub message : String
  pub status_code : ℕ
  pub retryable : Bool

unfoldable pub get_provider_id : Option String → AppError ⊎ String
get_provider_id none = inl (record {
  code = "AUTH_REQUIRED";
  message = "X-Provider-Id header is required";
  status_code = 401;
  retryable = false;
})
get_provider_id (some x) =
    if truthy x
    then inr x
    else inl (record {
      code = "AUTH_REQUIRED";
      message = "X-Provider-Id header is required";
      status_code = 401;
      retryable = false;
    })

-- `_HTTP_CODE_MAP.get(status_code, "INTERNAL_ERROR")`
unfoldable pub http_code : ℕ → String
http_code s =
    if s == 400
    then "VALIDATION_FAILED"
    else if s == 401
    then "AUTH_REQUIRED"
    else if s == 403
    then "PERMISSION_DENIED"
    else if s == 404
    then "NOT_FOUND"
    else if s == 409
    then "CONFLICT"
    else if s == 429
    then "RATE_LIMITED"
    else "INTERNAL_ERROR"

-- The exceptions with a handler: of starlette, of the service, a refused body with where and why,
-- and all others.
pub data Raised : Type 0 where
  http : ℕ → String → Raised
  app : AppError → Raised
  invalid : String → String → Raised
  unhandled : Raised

unfoldable pub error_response : String → Raised → Envelope
unfolding http_code concat
error_response request_id (http s detail) = record {
  status_code = s;
  code = http_code s;
  message = detail;
  request_id = request_id;
  retryable = leb 500 s;
}
error_response request_id (app e) = record {
  status_code = e.status_code;
  code = e.code;
  message = e.message;
  request_id = request_id;
  retryable = e.retryable;
}
error_response request_id (invalid loc msg) = record {
  status_code = 400;
  code = "VALIDATION_FAILED";
  message = if truthy loc then concat (loc ∷ ": " ∷ msg ∷ []) else msg;
  request_id = request_id;
  retryable = false;
}
error_response request_id unhandled = record {
  status_code = 500;
  code = "INTERNAL_ERROR";
  message = "An unexpected error occurred";
  request_id = request_id;
  retryable = true;
}

-- A response, with the two headers that the middleware sets.
pub record Response : Type 0 where
  pub status_code : ℕ
  pub is_stream : Bool
  pub body : String
  pub etag : Option String
  pub cache_control : Option String

abbrev pub no_cache_prefixes : List String
no_cache_prefixes = "/v1/stream" ∷ "/livez" ∷ "/readyz" ∷ "/healthz" ∷ []

abbrev pub tile_prefixes : List String
tile_prefixes = "/v1/estate" ∷ "/v1/exec" ∷ []

abbrev pub has_prefix : List String → String → Bool
has_prefix prefixes path = any (λ p. starts_with path p) prefixes

-- Whether the middleware tags the response to a request.
abbrev pub is_tagged : String → String → Response → Bool
is_tagged method path r =
    str_eq method "GET"
    && not (has_prefix no_cache_prefixes path)
    && r.status_code == 200
    && not r.is_stream

module _ (sha1 : String → String) where
  unfoldable pub etag_of : String → String
  unfolding left concat
  etag_of body = concat ("\"" ∷ left 16 (sha1 body) ∷ "\"" ∷ [])

  unfoldable pub max_age : String → String
  max_age path =
      if has_prefix tile_prefixes path then "private, max-age=10" else "private, max-age=2"

  abbrev pub matches : Option String → String → Bool
  matches none etag = false
  matches (some t) etag = str_eq t etag

  -- `ETagMiddleware.dispatch`, of the response that the request gets without it.
  unfoldable pub dispatch : String → String → Option String → Response → Response
  unfolding etag_of max_age
  dispatch method path if_none_match r =
      let etag = etag_of r.body in
      if not (is_tagged method path r)
      then r
      else if matches if_none_match etag
      then record {
        status_code = 304;
        is_stream = false;
        body = "";
        etag = some etag;
        cache_control = some (max_age path);
      }
      else record r { etag = some etag; cache_control = some (max_age path) }
