-- ===== src/Errors.antt =====
-- Errors as chains: `fmt.Errorf` with `%w` wraps, and `errors.As` looks along the chain.
use cloud_burst_controller.Common.{String, Bool, false, Option, none, some, str_eq}

-- A status error of the Kubernetes API with its reason, an error of the AWS API with its code, any other
-- text, and an error with a text in front.
pub data Error : Type 0 where
  status_error : String → Error
  api_error : String → Error
  message : String → Error
  wrapped : String → Error → Error

pub data Result (A : Type 0) : Type 0 where
  ok : A → Result A
  err : Error → Result A

-- `errors.As` with a status error, and with a smithy.APIError.
unfoldable pub as_status_error : Error → Option String
as_status_error (status_error reason) = some reason
as_status_error (api_error code) = none
as_status_error (message text) = none
as_status_error (wrapped text e) = as_status_error e

unfoldable pub as_api_error : Error → Option String
as_api_error (status_error reason) = none
as_api_error (api_error code) = some code
as_api_error (message text) = none
as_api_error (wrapped text e) = as_api_error e

-- `errors.IsNotFound` of k8s.io/apimachinery.
unfoldable pub is_not_found : Error → Bool
unfolding as_status_error
is_not_found e = elim (as_status_error e) [ none ↦ false | some reason ↦ str_eq reason "NotFound" ]
