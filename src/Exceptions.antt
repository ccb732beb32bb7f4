-- ===== src/Exceptions.antt =====
-- exceptions.py: the hierarchy of errors, and what may leave a call besides it.
use unifi_mcp.Base.{ℕ, String, Bool, true, false, Option, none, some}
use unifi_mcp.Base.Json.{Json}

-- A message: a literal text, a value passed on as it is, `str(value)`, or a text around a value.
pub data Message : Type 0 where
  literal : String → Message
  value : Json → Message
  shown : Json → Message
  around : String → Message → Message

pub data UniFiError : Type 0 where
  auth_error config_error connection_error delivery_unknown_error : Message → UniFiError
  api_error : Message → Option ℕ → UniFiError
  rate_limit_error : Message → Option ℕ → UniFiError
  not_found_error : String → String → UniFiError

-- The classes that `except` clauses name.
pub data ErrorClass : Type 0 where
  unifi auth config connection delivery_unknown api rate_limit not_found : ErrorClass

-- isinstance(error, class)
unfoldable pub is_instance : UniFiError → ErrorClass → Bool
is_instance e ErrorClass.unifi = true
is_instance (auth_error m) ErrorClass.auth = true
is_instance (config_error m) ErrorClass.config = true
is_instance (connection_error m) ErrorClass.connection = true
is_instance (delivery_unknown_error m) ErrorClass.connection = true
is_instance (delivery_unknown_error m) ErrorClass.delivery_unknown = true
is_instance (api_error m s) ErrorClass.api = true
is_instance (rate_limit_error m r) ErrorClass.api = true
is_instance (rate_limit_error m r) ErrorClass.rate_limit = true
is_instance (not_found_error t i) ErrorClass.api = true
is_instance (not_found_error t i) ErrorClass.not_found = true
is_instance e c = false

-- The attribute `status_code` of an API error.
unfoldable pub status_code : UniFiError → Option ℕ
status_code (api_error m s) = s
status_code (rate_limit_error m r) = some 429
status_code (not_found_error t i) = some 404
status_code e = none

-- What a call may raise: one of these, or another exception of Python, by its class name.
pub data Raised : Type 0 where
  unifi : UniFiError → Raised
  other : String → Raised
