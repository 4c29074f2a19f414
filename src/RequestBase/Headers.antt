-- ===== src/RequestBase/Headers.antt =====
-- The headers of src/request_base.cpp: PushHeader, and what Header() reads.
pub mod Names
use easy_http.Prelude.{ℕ, List, [], ◌∷◌, ◌++◌, Bool, if◌then◌else◌}
use easy_http.Prelude.Int.{ℤ, pos, eq_ℤ}
use easy_http.Bytes.{Bytes, text, c_str}
use easy_http.Outcome.{runtime_error}
use easy_http.ParamList.{ParamList}
use easy_http.Values.{ValueType, Value, to_lower, get_val_or, is_filled}
use easy_http.World.{M, ◌>>=◌, ◌>>◌, pure, raise, call_int}
use easy_http.World.Calls.{add_header}
use easy_http.World.External.{Platform}
use easy_http.RequestBase.{RequestBase}

-- HeaderFilled(key), QueryFilled(key)
unfoldable pub header_filled : RequestBase → Bytes → Bool
header_filled self key = is_filled self.input_headers (to_lower key)

unfoldable pub query_filled : RequestBase → Bytes → Bool
query_filled self key = is_filled self.queries key

module _ (pf : Platform) where
  -- Header<T>(key, default_value), Query<T>(key, default_value)
  unfoldable pub header : (t : ValueType) → RequestBase → Bytes → Value t → Value t
  header t self key default_value =
      get_val_or pf.stod t self.input_headers (to_lower key) default_value

  unfoldable pub query : (t : ValueType) → RequestBase → Bytes → Value t → Value t
  query t self key default_value = get_val_or pf.stod t self.queries key default_value

module _ (pf : Platform) (self : RequestBase) where
  unfoldable pub push_header : Bytes → Bytes → M (Unit {0})
  push_header key value = do
    r ← call_int pf (add_header self.e_request (c_str key) (c_str value))
    if eq_ℤ r (pos 0) then pure tt else raise (runtime_error (text "Cannot set header " ++ key))

  -- PushHeader(headers), in the order of the map
  unfoldable pub push_headers : ParamList → M (Unit {0})
  push_headers [] = pure tt
  push_headers ((key, value) ∷ headers) = push_header key value >> push_headers headers
