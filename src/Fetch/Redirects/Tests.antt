-- ===== src/Fetch/Redirects/Tests.antt =====
-- The theorem on a fetch at a concrete network, whose first answer is a redirect.
use basecrawl.Prelude.{
  ℕ, ◌≤◌, false, true, none, some, List, [], ◌∷◌, Text, codes, as_bytes, length, starts_with, leb,
  ◌≡◌, refl, if◌then◌else◌,
}
use basecrawl.Error.Outcome.{ok}
use basecrawl.Url.Samples.{toy}
use basecrawl.Fetch.Types.{FetchConfig, Fetched}
use basecrawl.Fetch.Response.{Head, complete}
use basecrawl.Fetch.Run.{Run, returns}
use basecrawl.Fetch.Exchange.{World}
use basecrawl.Fetch.Redirects.{fetch_document_until}
use basecrawl.Fetch.Redirects.Guarded.{Guarded, requests, ServedBy}
use basecrawl.Fetch.Redirects.Ending.{fetch_document_until-IsFollowed}

abbrev head_of : List ℕ → Head
head_of [] = complete 0 (some 302) ((codes "location", as_bytes (codes "/b")) ∷ [])
head_of (b ∷ bs) = complete 0 (some 200) []

abbrev net : World toy
net = record {
  check_document = λ _ _. ok tt;
  is_server_name = λ _. true;
  connect = λ _ _ _ _. ok (record { egress_ip = codes "10.0.0.1"; tls = none });
  exchange = λ history _ _. ok (if leb (length history) 3 then [] else 104 ∷ 105 ∷ [], false);
  parse_head = head_of;
  inflate = λ _ bytes _. ok (bytes, false);
  display = λ _. [];
  sha256_hex = λ bytes. bytes;
  elapsed = λ _. false;
}

abbrev settings : FetchConfig toy
settings = record {
  headers = (codes "cookie", codes "a") ∷ [];
  credential_origin = none;
  user_agent = codes "agent";
  max_body_bytes = 9;
  method = codes "POST";
  body = 1 ∷ [];
}

followed_example :
    Guarded toy net settings
      (codes "https://a/x")
      (fetch_document_until toy net (codes "https://a/x") settings).1
    × (requests toy net settings
          (codes "https://a/x")
          (fetch_document_until toy net (codes "https://a/x") settings).1
        ≤ 21)
    × ServedBy toy net settings
        (codes "https://a/x")
        (codes "https://a/x")
        (fetch_document_until toy net (codes "https://a/x") settings).0
        (fetch_document_until toy net (codes "https://a/x") settings).1
followed_example = fetch_document_until-IsFollowed toy net (codes "https://a/x") settings

-- the URL and the body of what a fetch returned
abbrev seen : Run Fetched → Text × List ℕ × ℕ
seen (returns (ok f)) = (f.final_url, f.body, length f.redirects)
seen _ = ([], [], 0)

redirected :
    seen (fetch_document_until toy net (codes "https://a/x") settings).0
    ≡ (codes "https://a/b", 104 ∷ 105 ∷ [], 1)
unfolding fetch_document_until starts_with
redirected = refl
