-- ===== src/Error.antt =====
-- The error type of crates/basecrawl-core/src/error.rs and its machine-readable kinds.
pub mod Kinds
pub mod Outcome
mod Tests
use basecrawl.Prelude.{ℕ, ◌||◌, Option, Text, codes, text_eq, if◌then◌else◌}
use basecrawl.Json.{Value}

pub data ExtractRefuseReason : Type 0 where
  provider_not_configured extractor_not_available provider_call_failed : ExtractRefuseReason

pub data Error : Type 0 where
  missing_url : Error
  invalid_url unsupported_scheme : Text → Error
  unknown_format : (invalid supported : Text) → Error
  unsupported_output : Text → Error
  structured_extraction_unsupported : ExtractRefuseReason → Error
  invalid_json_schema invalid_header unsupported_method : Text → Error
  post_not_supported_on_hard_path : Error
  invalid_product_option invalid_viewport invalid_actions invalid_proxy : Text → Error
  proxy_class_unavailable : (required detail : Text) → Error
  proxy_connect : (status : Option ℕ) → (class detail : Text) → Error
  residential_concurrency hard_path tls_impersonate : Text → Error
  challenge_blocked : (status_code : ℕ) → (detail : Text) → Error
  solver : (kind detail : Text) → (status_code : Option ℕ) → Error
  robots_denied : Value → Error
  timeout transport certificate_validation tls_capture tls_version_unsupported : Text → Error
  too_many_redirects : (max : ℕ) → (url : Text) → Error
  redirect fetch render dns_isolation : Text → Error
  resource_budget_exceeded : Error
  document_extraction egress_metadata attestation enclave_signature io : Text → Error

-- the class of a refused CONNECT
pub connect_kind : Text → Text
connect_kind class =
    if text_eq class (codes "proxy_auth_error") || text_eq class (codes "credential_error")
    then codes "proxy_auth_error"
    else codes "transport_error"

pub solver_kind : Text → Text
solver_kind k =
    if text_eq k (codes "solver_auth_error")
    then codes "solver_auth_error"
    else if text_eq k (codes "solver_timeout")
    then codes "solver_timeout"
    else if text_eq k (codes "solver_unsupported")
    then codes "solver_unsupported"
    else if text_eq k (codes "solver_transport_error")
    then codes "solver_transport_error"
    else if text_eq k (codes "solver_apply_pending")
    then codes "solver_apply_pending"
    else if text_eq k (codes "solver_apply_failed")
    then codes "solver_apply_failed"
    else codes "solver_error"

unfoldable pub kind : Error → Text
unfolding connect_kind solver_kind
kind missing_url = codes "missing_url"
kind (invalid_url _) = codes "invalid_url"
kind (unsupported_scheme _) = codes "unsupported_scheme"
kind (unknown_format _ _) = codes "invalid_format"
kind (unsupported_output _) = codes "unsupported_output"
kind (structured_extraction_unsupported _) = codes "structured_extraction_unsupported"
kind (invalid_json_schema _) = codes "invalid_json_schema"
kind (invalid_header _) = codes "invalid_header"
kind (unsupported_method _) = codes "unsupported_method"
kind post_not_supported_on_hard_path = codes "post_not_supported_on_hard_path"
kind (invalid_product_option _) = codes "invalid_product_option"
kind (invalid_viewport _) = codes "invalid_viewport"
kind (invalid_actions _) = codes "invalid_actions"
kind (invalid_proxy _) = codes "invalid_proxy"
kind (proxy_class_unavailable _ _) = codes "proxy_class_unavailable"
kind (proxy_connect _ class _) = connect_kind class
kind (residential_concurrency _) = codes "residential_concurrency"
kind (hard_path _) = codes "hard_path_policy"
kind (tls_impersonate _) = codes "tls_impersonate_unsupported"
kind (challenge_blocked _ _) = codes "challenge_blocked"
kind (solver k _ _) = solver_kind k
kind (robots_denied _) = codes "robots_denied"
kind (timeout _) = codes "timeout"
kind (transport _) = codes "transport_error"
kind (certificate_validation _) = codes "certificate_validation"
kind (tls_capture _) = codes "tls_capture_error"
kind (tls_version_unsupported _) = codes "tls_version_unsupported"
kind (too_many_redirects _ _) = codes "too_many_redirects"
kind (redirect _) = codes "redirect_error"
kind (fetch _) = codes "fetch_error"
kind (render _) = codes "render_error"
kind (dns_isolation _) = codes "dns_isolation"
kind resource_budget_exceeded = codes "resource_budget_exceeded"
kind (document_extraction _) = codes "document_extraction"
kind (egress_metadata _) = codes "egress_metadata_error"
kind (attestation _) = codes "attestation_error"
kind (enclave_signature _) = codes "enclave_signature_error"
kind (io _) = codes "io_error"
