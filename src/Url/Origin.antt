-- ===== src/Url/Origin.antt =====
-- `same_origin` is an equivalence on URLs that have a host, and `validate_url` accepts only those.
use mathlib.Core.Bool.{and-eq-true_iff}
use basecrawl.Prelude.{
  ℕ, true, false, ◌||◌, Option, none, some, Text, [], ◌∷◌, ◌++◌, codes, text_eq, text_eq_iff, subst,
  Bool-cases, to_ascii_lowercase, is_empty, ◌≡◌, ◌≢◌, refl, arith, ◌⊎◌, inl, inr, ap, ◌∙◌, ◌↔◌,
}
use basecrawl.Url.{
  Parsed, url, relative, malformed, Urls, ok, same_origin, is_http, lacks_host, check_url,
  check_prefixed, check_parsed, validate_url, hosts_eq, port_eq,
}

module _ (w : Urls) where
  -- What two URLs of one origin share: scheme and host up to case, and the effective port.
  pub record SameOrigin (a b : w.Url) : Type 0 where
    pub scheme : to_ascii_lowercase (w.scheme a) ≡ to_ascii_lowercase (w.scheme b)
    pub host_a : Text
    pub host_b : Text
    pub has_host_a : w.host_str a ≡ some host_a
    pub has_host_b : w.host_str b ≡ some host_b
    pub host : to_ascii_lowercase host_a ≡ to_ascii_lowercase host_b
    pub port : w.port_or_known_default a ≡ w.port_or_known_default b

  hosts_sound :
      (a b : Option Text)
      → hosts_eq a b ≡ true
      → (s : Text) × (t : Text) × (a ≡ some s)
        × (b ≡ some t)
        × (to_ascii_lowercase s ≡ to_ascii_lowercase t)
  unfolding hosts_eq
  hosts_sound (some s) (some t) h = (s, t, refl, refl, (text_eq_iff _ _).0 h)
  hosts_sound (some s) none h = absurd (ground arith)
  hosts_sound none b h = absurd (ground arith)

  ports_sound : (p q : Option ℕ) → port_eq p q ≡ true → p ≡ q
  ports_sound (some p) (some q) h = ground arith
  ports_sound (some p) none h = absurd (ground arith)
  ports_sound none (some q) h = absurd (ground arith)
  ports_sound none none h = refl

  hosts_complete :
      {a b : Option Text} {s t : Text}
      → a ≡ some s
      → b ≡ some t
      → to_ascii_lowercase s ≡ to_ascii_lowercase t
      → hosts_eq a b ≡ true
  unfolding hosts_eq
  hosts_complete {s} {t} p q e = rw (p, q) ((text_eq_iff _ _).1 e)

  ports_complete : (p q : Option ℕ) → p ≡ q → port_eq p q ≡ true
  ports_complete (some p) (some q) h = ground arith
  ports_complete (some p) none h = cc
  ports_complete none (some q) h = cc
  ports_complete none none h = refl

  -- Two URLs have the same origin exactly when both have a host and agree, up to the case of ASCII
  -- letters, on the scheme and the host, and agree on the port or its default.
  pub same_origin_iff : (a b : w.Url) → (same_origin w a b ≡ true) ↔ SameOrigin a b
  unfolding same_origin
  same_origin_iff a b = (to, from)
    where
      to : same_origin w a b ≡ true → SameOrigin a b
      to h =
          let (e, rest) = (and-eq-true_iff _ _).0 h in
          let (hosts, ports) = (and-eq-true_iff _ _).0 rest in
          let (s, t, has_s, has_t, same) = hosts_sound (w.host_str a) (w.host_str b) hosts in
          record {
            scheme = (text_eq_iff _ _).0 e;
            host_a = s;
            host_b = t;
            has_host_a = has_s;
            has_host_b = has_t;
            host = same;
            port = ports_sound (w.port_or_known_default a) (w.port_or_known_default b) ports;
          }

      from : SameOrigin a b → same_origin w a b ≡ true
      from o = (and-eq-true_iff _ _).1 (
        (text_eq_iff _ _).1 o.scheme,
        (and-eq-true_iff _ _).1 (
          hosts_complete o.has_host_a o.has_host_b o.host,
          ports_complete (w.port_or_known_default a) (w.port_or_known_default b) o.port,
        ),
      )

  -- What `validate_url` accepts.
  pub record IsFetchable (raw : Text) (u : w.Url) : Type 0 where
    pub parsed :
        (w.parse raw ≡ url u)
        ⊎ ((w.parse raw ≡ relative) × (w.parse (codes "https://" ++ raw) ≡ url u))
    pub http : (w.scheme u ≡ codes "http") ⊎ (w.scheme u ≡ codes "https")
    pub host : Text
    pub has_host : w.host_str u ≡ some host
    pub non_empty : host ≢ []

  -- a host that `lacks_host` does not miss
  host_of :
      (o : Option Text)
      → elim o [ none ↦ true | some host ↦ is_empty host ] ≡ false
      → (host : Text) × (o ≡ some host) × (host ≢ [])
  unfolding is_empty
  host_of none h = absurd (ground arith)
  host_of (some []) h = absurd (ground arith)
  host_of (some (c ∷ s)) h = (c ∷ s, refl, ground arith)

  check_url_sound :
      (raw : Text) (u v : w.Url)
      → check_url w raw u ≡ ok v
      → (u ≡ v) × (is_http w v ≡ true) × (lacks_host w v ≡ false)
  unfolding check_url
  check_url_sound raw u v h = elim (Bool-cases (is_http w u)) [
    | inr e ↦ absurd (ground arith)
    | inl e ↦ elim (Bool-cases (lacks_host w u)) [
      | inl e' ↦ absurd (ground arith)
      | inr e' ↦
          let same : u ≡ v = ground arith in
          (
            same,
            subst (λ x. is_http w x ≡ true) same e,
            subst (λ x. lacks_host w x ≡ false) same e',
          )
    ]
  ]

  fetchable :
      (raw : Text) (v : w.Url)
      → (w.parse raw ≡ url v)
        ⊎ ((w.parse raw ≡ relative) × (w.parse (codes "https://" ++ raw) ≡ url v))
      → is_http w v ≡ true
      → lacks_host w v ≡ false
      → IsFetchable raw v
  unfolding lacks_host
  fetchable raw v p h l =
      let (host, e, ne) = host_of (w.host_str v) l in
      record {
        parsed = p;
        http = schemes (w.scheme v) h;
        host = host;
        has_host = e;
        non_empty = ne;
      }
    where
      schemes :
          (s : Text)
          → (text_eq s (codes "http") || text_eq s (codes "https")) ≡ true
          → (s ≡ codes "http") ⊎ (s ≡ codes "https")
      schemes s h = elim (Bool-cases (text_eq s (codes "http"))) [
        | inl e ↦ inl ((text_eq_iff s (codes "http")).0 e)
        | inr e ↦ inr ((text_eq_iff s (codes "https")).0 (rw e at h))
      ]

  check_parsed_sound :
      (raw : Text) (v : w.Url) (p : Parsed w.Url)
      → w.parse raw ≡ p
      → check_parsed w raw p ≡ ok v
      → IsFetchable raw v
  unfolding check_parsed
  check_parsed_sound raw v (url u) e h =
      let (same, http, hosted) = check_url_sound raw u v h in
      fetchable raw v (inl (e ∙ ap url same)) http hosted
  check_parsed_sound raw v relative e h = prefixed (w.parse (codes "https://" ++ raw)) refl h
    where
      prefixed :
          (q : Parsed w.Url)
          → w.parse (codes "https://" ++ raw) ≡ q
          → check_prefixed w raw q ≡ ok v
          → IsFetchable raw v
      prefixed (url u) e' h =
          let (same, http, hosted) = check_url_sound raw u v h in
          fetchable raw v (inr (e, e' ∙ ap url same)) http hosted
      prefixed relative e' h = absurd (ground arith)
      prefixed malformed e' h = absurd (ground arith)
  check_parsed_sound raw v malformed e h = absurd (ground arith)

  -- A URL that `validate_url` accepts has the scheme http or https and a non-empty host, and is
  -- what the input parses to, with `https://` in front if the input has no scheme.
  pub validate_url-IsFetchable :
      (raw : Text) (u : w.Url) → validate_url w raw ≡ ok u → IsFetchable raw u
  unfolding validate_url
  validate_url-IsFetchable raw u h = check_parsed_sound raw u (w.parse raw) refl h
