-- ===== src/Proof.antt =====
-- The wire types of crates/basecrawl-proof/src/lib.rs. An `f64` is its bit pattern.
pub mod Samples
use basecrawl.Prelude.{
  ℕ, Bool, true, false, ◌||◌, Option, none, some, List, Text, codes, text_eq, trim,
  to_ascii_lowercase, if◌then◌else◌,
}
use basecrawl.TextMap.{TextMap}
use basecrawl.Json.{Value}

pub record Request : Type 0 where
  pub method : Text
  pub url : Text
  pub headers_hash : Option Text
  pub body_hash : Option Text
  pub request_hash : Option Text
  pub formats : List Text

pub data CertificateValidation : Type 0 where
  not_applicable validated insecure_diagnostic : CertificateValidation

pub record Tls : Type 0 where
  pub certificate_validation : CertificateValidation
  pub negotiated_version : Option Text
  pub sni : Option Text
  pub server_cert_chain_der : List Text
  pub cert_chain_hash : Option Text
  pub server_ephemeral_pubkey : Option Text
  pub ct_scts : List Text
  pub ocsp : Option Text
  pub handshake_transcript_hash : Option Text

pub record RedirectHop : Type 0 where
  pub status_code : ℕ
  pub url : Text
  pub location : Text

pub record Response : Type 0 where
  pub status_code : Option ℕ
  pub headers_hash : Option Text
  pub body_hash : Option Text
  pub content_length : Option ℕ
  pub content_type : Option Text
  pub body_truncated : Bool
  pub body_max_bytes : Option ℕ
  pub final_url : Option Text
  pub redirect_chain : List RedirectHop
  pub render_subresource_count : ℕ
  pub render_subresource_max_count : ℕ
  pub render_resource_bytes : ℕ
  pub render_max_bytes : ℕ
  pub render_resource_cap_exceeded : Bool

pub record FormatCompleteness : Type 0 where
  pub requested : Bool
  pub present : Bool
  pub byte_size : ℕ
  pub key_field_count : ℕ

pub record CompletenessManifest : Type 0 where
  pub version : ℕ
  pub requested_format_count : ℕ
  pub present_format_count : ℕ
  pub formats : TextMap FormatCompleteness

pub record ResultBlock : Type 0 where
  pub formats_produced : TextMap Value
  pub result_hash : Option Text
  pub completeness_manifest : CompletenessManifest
  pub manifest_sha256 : Option Text
  pub crawled_urls : List Text

pub data ProxyClass : Type 0 where
  direct datacenter residential mobile : ProxyClass

pub data FetchPath : Type 0 where
  direct chromium : FetchPath

pub record SoftTlsImpersonateEgress : Type 0 where
  pub profile : Text
  pub ja_label : Text
  pub soft_ja3 : Text
  pub soft_ja4 : Text

pub record Egress : Type 0 where
  pub egress_ip : Option Text
  pub landmark_rtts : TextMap ℕ
  pub timestamp : Option Text
  pub fingerprint_seed : Option Text
  pub proxy_class : Option ProxyClass
  pub fetch_path : Option FetchPath
  pub soft_tls_impersonate : Option SoftTlsImpersonateEgress

pub record TdxMeasurement : Type 0 where
  pub mrtd : Text
  pub rtmr0 : Text
  pub rtmr1 : Text
  pub rtmr2 : Text
  pub rtmr3 : Text

pub record Attestation : Type 0 where
  pub tee_type : Option Text
  pub quote : Option Text
  pub measurement : Option TdxMeasurement
  pub report_data : Option Text

pub record SdkSignature : Type 0 where
  pub enclave_pubkey : Option Text
  pub sig : Option Text

pub record ScrapeProof : Type 0 where
  pub version : ℕ
  pub task_id : Option Text
  pub nonce : Option Text
  pub request : Request
  pub tls : Tls
  pub response : Response
  pub result : ResultBlock
  pub egress : Egress
  pub attestation : Attestation
  pub sdk_signature : SdkSignature

unfoldable pub proxy_class_str : ProxyClass → Text
proxy_class_str direct = codes "direct"
proxy_class_str datacenter = codes "datacenter"
proxy_class_str residential = codes "residential"
proxy_class_str mobile = codes "mobile"

pub parse_class_token : Text → Option ProxyClass
parse_class_token t =
    if text_eq t (codes "direct") || text_eq t (codes "none")
    then some direct
    else if text_eq t (codes "datacenter") || text_eq t (codes "dc")
    then some datacenter
    else if text_eq t (codes "residential") || text_eq t (codes "res")
    then some residential
    else if text_eq t (codes "mobile")
    then some mobile
    else none

unfoldable pub parse_proxy_class : Text → Option ProxyClass
unfolding parse_class_token
parse_proxy_class raw = parse_class_token (to_ascii_lowercase (trim raw))

unfoldable pub requires_upstream : ProxyClass → Bool
requires_upstream direct = false
requires_upstream _ = true

unfoldable pub fetch_path_str : FetchPath → Text
fetch_path_str direct = codes "direct"
fetch_path_str chromium = codes "chromium"

pub parse_path_token : Text → Option FetchPath
parse_path_token t =
    if text_eq t (codes "direct") || text_eq t (codes "soft") || text_eq t (codes "rustls")
    then some direct
    else if text_eq t (codes "chromium")
        || text_eq t (codes "browser")
        || text_eq t (codes "hard")
        || text_eq t (codes "chrome")
    then some chromium
    else none

unfoldable pub parse_fetch_path : Text → Option FetchPath
unfolding parse_path_token
parse_fetch_path raw = parse_path_token (to_ascii_lowercase (trim raw))
