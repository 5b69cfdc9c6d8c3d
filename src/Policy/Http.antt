-- ===== src/Policy/Http.antt =====
-- What the policies read of a request and write of a response (net/http, chi and internal/core/auth
-- Context, errors/errors.go, response/response.go), and the services that they call.
use projectbook_backend.Base.{
  ℕ, Bool, false, Option, none, some, List, [], ◌∷◌, ◌++◌, Result, if◌then◌else◌,
}
use projectbook_backend.Text.{Text, codes, text_eq}

-- auth.AuthContext
pub record AuthContext : Type 0 where
  pub user_id : Text
  pub project_id : Text
  pub role : Text
  pub permission_mask : ℕ
  pub permissions : List Text

-- The parts of *http.Request that the policies read; `principal` is auth.FromContext.
pub record Request : Type 0 where
  pub method : Text
  pub content_type : Text
  pub has_body : Bool
  pub url_param : Text → Text
  pub path_value : Text → Text
  pub query : Text → Text
  pub principal : Option AuthContext

-- auth.WithContext
abbrev pub with_context : AuthContext → Request → Request
with_context a r = record r { principal = some a }

-- The codes of errors.go.
pub data Code : Type 0 where
  internal bad_request unsupported_media not_found method_not_allowed unauthorized forbidden : Code
  too_many_requests conflict timeout dependency_failure : Code

pub record AppError : Type 0 where
  pub code : Code
  pub status_code : ℕ
  pub message : Text

abbrev pub new_error : Code → ℕ → Text → AppError
new_error c s m = record { code = c; status_code = s; message = m }

pub data HeaderValue : Type 0 where
  text : Text → HeaderValue
  seconds : ℕ → HeaderValue

abbrev pub Headers : Type 0
Headers = List (Text × HeaderValue)

-- http.Header.Del
unfoldable pub delete_header : Text → Headers → Headers
unfolding text_eq
delete_header k [] = []
delete_header k ((j, w) ∷ hs) =
    let rest = delete_header k hs in if text_eq j k then rest else (j, w) ∷ rest

-- http.Header.Set, which replaces all values of the name.
unfoldable pub set_header : Text → HeaderValue → Headers → Headers
unfolding delete_header
set_header k v hs = (k, v) ∷ delete_header k hs

-- http.Header.Add
unfoldable pub add_header : Text → HeaderValue → Headers → Headers
add_header k v hs = hs ++ (k, v) ∷ []

-- http.Header.Values
unfoldable pub header_values : Text → Headers → List HeaderValue
unfolding text_eq
header_values k [] = []
header_values k ((j, w) ∷ hs) =
    let rest = header_values k hs in if text_eq j k then w ∷ rest else rest

-- http.Header.Get; a number of seconds prints as some text that is not blank.
unfoldable pub get_header : Text → Headers → Option HeaderValue
unfolding text_eq
get_header k [] = none
get_header k ((j, w) ∷ hs) = if text_eq j k then some w else get_header k hs

-- A response as the client receives it: the body in the pieces that were written, and whether it
-- was flushed while it was written.
pub record Reply : Type 0 where
  pub status : ℕ
  pub headers : Headers
  pub chunks : List Text
  pub streaming : Bool

pub data Outcome : Type 0 where
  replied : Reply → Outcome
  panicked : Outcome

-- A handler with the headers already set on its writer, over the state W of all that it reaches.
abbrev pub Handler : Type 0 → Type 0
Handler W = Request → Headers → W → Outcome × W

-- policy.Policy
abbrev pub Policy : Type 0 → Type 0
Policy W = Handler W → Handler W

-- The mask of goAuth's result, as maskValueToUint64 sees it by reflection.
pub data MaskValue : Type 0 where
  unsigned nonnegative negative : ℕ → MaskValue
  other : MaskValue

pub record AuthResult : Type 0 where
  pub user_id : Text
  pub role : Text
  pub mask : MaskValue
  pub permissions : List Text

-- What goAuth's Guard does: it calls the next handler, with a result in the context or without,
-- or it writes a status itself.
pub data GuardOutcome : Type 0 where
  called : Option AuthResult → GuardOutcome
  refused : ℕ → GuardOutcome

pub data Mode : Type 0 where
  jwt_only hybrid strict : Mode

-- The mode handed to Guard: hybrid inherits the engine's.
pub data RouteMode : Type 0 where
  mode_inherit mode_jwt_only mode_strict : RouteMode

-- permissions.Resolution
pub record Resolution : Type 0 where
  pub user_id : Text
  pub project_id : Text
  pub role : Text
  pub mask : ℕ
  pub is_custom : Bool
  pub updated_at_unix : ℕ

-- The sentinels of permissions/resolver.go, and any other error.
pub data ResolveError : Type 0 where
  membership_not_found mask_inconsistent dependency_failure other : ResolveError

pub data LimitOutcome : Type 0 where
  allowed blocked fail_open error : LimitOutcome

-- ratelimit.Decision; a duration is a number of nanoseconds.
pub record Decision : Type 0 where
  pub allowed : Bool
  pub remaining : ℕ
  pub retry_after : ℕ
  pub outcome : LimitOutcome

-- The services behind the policies of a route. `validate` is goAuth's Guard, and `encode` the JSON
-- of an error envelope.
pub record Services (W : Type 0) : Type 0 where
  pub validate : RouteMode → Request → GuardOutcome
  pub resolve : Text → Text → W → Result ResolveError Resolution × W
  pub allow : ℕ → Request → W → Result (Unit {0}) Decision × W
  pub is_json_media : Text → Bool
  pub encode : AppError → Text

module _ {W : Type 0} (s : Services W) where
  open s use {encode}

  -- response.Error for an AppError.
  unfoldable pub write_error : AppError → Headers → W → Outcome × W
  unfolding set_header
  write_error e hs w = (
    replied (record {
      status = e.status_code;
      headers =
          set_header (codes "Content-Type") (text (codes "application/json; charset=utf-8")) hs;
      chunks = encode e ∷ [];
      streaming = false;
    }),
    w,
  )
