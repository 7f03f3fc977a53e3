-- ===== src/Api/Call.antt =====
-- IApiCall.py and ApiCallAttribute.py: what a request asks of a call.
use geberit_aquaclean.Prelude.{ℕ, Option, some, Result}
use geberit_aquaclean.Prelude.Bytes.{Bytes}

pub record ApiCallAttribute : Type 0 where
  pub context : ℕ
  pub procedure : ℕ
  pub node : ℕ

-- What `get_api_call_attribute` and `get_payload` return.
pub record ApiCall : Type 0 where
  pub api_call_attribute : Option ApiCallAttribute
  pub payload : Result Bytes

-- A call with `ApiCallAttribute(context, procedure, node)`.
abbrev pub call : ℕ → ℕ → ℕ → Result Bytes → ApiCall
call context procedure node payload = record {
  api_call_attribute = some (record { context = context; procedure = procedure; node = node });
  payload = payload;
}
