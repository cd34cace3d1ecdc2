-- ===== src/Proof/Samples.antt =====
-- A proof with every field that its report data binds.
use basecrawl.Prelude.{codes, some, none, false, [], ◌∷◌}
use basecrawl.Json.{str, arr, obj, cons, nil, field, end}
use basecrawl.Proof.{ScrapeProof, not_applicable}

abbrev pub toy_proof : ScrapeProof
toy_proof = record {
  version = 1;
  task_id = some (codes "task");
  nonce = some (codes "nonce");
  request = record {
    method = codes "GET";
    url = codes "https://a/";
    headers_hash = some (codes "h");
    body_hash = some (codes "b");
    request_hash = some (codes "r");
    formats = codes "links" ∷ [];
  };
  tls = record {
    certificate_validation = not_applicable;
    negotiated_version = none;
    sni = none;
    server_cert_chain_der = [];
    cert_chain_hash = some (codes "c");
    server_ephemeral_pubkey = none;
    ct_scts = [];
    ocsp = none;
    handshake_transcript_hash = some (codes "t");
  };
  response = record {
    status_code = some 200;
    headers_hash = some (codes "h");
    body_hash = some (codes "b");
    content_length = none;
    content_type = none;
    body_truncated = false;
    body_max_bytes = none;
    final_url = none;
    redirect_chain = [];
    render_subresource_count = 0;
    render_subresource_max_count = 0;
    render_resource_bytes = 0;
    render_max_bytes = 0;
    render_resource_cap_exceeded = false;
  };
  result = record {
    formats_produced =
        (
          codes "links",
          obj (field (codes "links") (arr (cons (str (codes "https://a/x")) nil)) end),
        )
        ∷ [];
    result_hash = some (codes "hash");
    completeness_manifest = record {
      version = 1;
      requested_format_count = 1;
      present_format_count = 1;
      formats = [];
    };
    manifest_sha256 = none;
    crawled_urls = [];
  };
  egress = record {
    egress_ip = some (codes "192.0.2.1");
    landmark_rtts = [];
    timestamp = some (codes "2024");
    fingerprint_seed = some (codes "seed");
    proxy_class = none;
    fetch_path = none;
    soft_tls_impersonate = none;
  };
  attestation = record { tee_type = none; quote = none; measurement = none; report_data = none };
  sdk_signature = record { enclave_pubkey = some (codes "key"); sig = none };
}
