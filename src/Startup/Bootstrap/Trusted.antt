-- ===== src/Startup/Bootstrap/Trusted.antt =====
-- Which bootstrap payload is accepted, and from which URL (src/infra/orchestrator.rs).
use wqc_node.Base.{
  ◌≡◌, ◌≢◌, ◌↔◌, refl, ap, sym, List, [], ◌∷◌, Option, none, some, Result, ok, err, is_empty, arith,
  All, Bool-cases, Option-cases, Result-cases, inl, inr, ◌⊎◌, is_empty_iff, unless-ok, ok-injective,
}
use wqc_node.Base.Text.{Text, trim, text_eq, text_eq_iff}
use wqc_node.Startup.Bootstrap.{
  BootstrapResponse, OrchestratorBootstrap, BootstrapError, Protocol, Libp2p,
  peer_id_from_multiaddr, check_multiaddr, check_multiaddrs, check_peer, first_error, identified,
  validate_bootstrap, fetch_bootstrap, try_urls, resolve_bootstrap, no_urls, no_public_key,
  no_multiaddrs, first_ok,
}

abbrev pub named_peer : Option (List Protocol) → Option Text
named_peer none = none
named_peer (some addr) = peer_id_from_multiaddr addr

first_error-none :
    (a b : Option BootstrapError) → (first_error a b ≡ none) ↔ ((a ≡ none) × (b ≡ none))
first_error-none none b = (λ h. (refl, h), λ h. h.1)
first_error-none (some e) b = (λ h. absurd (ground (arith, h)), λ h. h.0)

module _ (lib : Libp2p) where
  -- The address is one, and names this peer.
  abbrev pub Names : Text → Text → Type 0
  Names peer_id raw = named_peer (lib.parse_multiaddr raw) ≡ some peer_id

  check_peer_iff :
      (peer_id raw : Text) (o : Option Text)
      → (check_peer lib peer_id raw o ≡ none) ↔ (o ≡ some peer_id)
  check_peer_iff peer_id raw none = (λ h. ground (arith, h), λ h. ground (arith, h))
  check_peer_iff peer_id raw (some peer) = elim (Bool-cases (text_eq peer peer_id)) [
    | inl t ↦ rw t (λ h. ap some ((text_eq_iff peer peer_id).0 t), λ h. refl)
    | inr f ↦ rw f (
      λ h. absurd (ground (arith, h)),
      λ h. absurd (ground (arith, h, f, text_eq_iff peer peer_id)),
    )
  ]

  check_multiaddr_iff :
      (peer_id raw : Text) (o : Option (List Protocol))
      → (check_multiaddr lib peer_id raw o ≡ none) ↔ (named_peer o ≡ some peer_id)
  check_multiaddr_iff peer_id raw none = (λ h. ground (arith, h), λ h. ground (arith, h))
  check_multiaddr_iff peer_id raw (some addr) =
      check_peer_iff peer_id raw (peer_id_from_multiaddr addr)

  check_multiaddrs_iff :
      (peer_id : Text) (raws : List Text)
      → (check_multiaddrs lib peer_id raws ≡ none) ↔ All (Names peer_id) raws
  unfolding check_multiaddrs
  check_multiaddrs_iff peer_id [] = (λ _. tt, λ _. refl)
  check_multiaddrs_iff peer_id (raw ∷ raws) =
      let first = check_multiaddr_iff peer_id raw (lib.parse_multiaddr raw) in
      let rest = check_multiaddrs_iff peer_id raws in
      let both =
        first_error-none (check_multiaddr lib peer_id raw (lib.parse_multiaddr raw))
          (check_multiaddrs lib peer_id raws) in
      (λ h. (first.0 (both.0 h).0, rest.0 (both.0 h).1), λ (n, ns). both.1 (first.1 n, rest.1 ns))

  -- What a payload has to be, and the bootstrap that it then gives.
  abbrev pub IsBootstrap : Text → BootstrapResponse → OrchestratorBootstrap → Type 0
  IsBootstrap source_url payload b =
      (trim payload.public_key_b64 ≢ [])
      × (payload.multiaddrs ≢ [])
      × (lib.parse_peer_id payload.peer_id ≡ some b.peer_id)
      × All (Names b.peer_id) payload.multiaddrs
      × (b.source_url ≡ source_url)
      × (b.public_key_b64 ≡ trim payload.public_key_b64)
      × (b.multiaddrs ≡ payload.multiaddrs)

  ok_same :
      (a b : OrchestratorBootstrap)
      → ◌≡◌ {A = Result OrchestratorBootstrap BootstrapError} (ok a) (ok b)
      → a ≡ b
  ok_same a b h = ok-injective (ok b) a b (sym h) refl

  identified_iff :
      (source_url : Text) (payload : BootstrapResponse) (b : OrchestratorBootstrap)
      (o : Option Text)
      → (identified lib source_url payload o ≡ ok b) ↔ (
          (o ≡ some b.peer_id)
          × All (Names b.peer_id) payload.multiaddrs
          × (b.source_url ≡ source_url)
          × (b.public_key_b64 ≡ trim payload.public_key_b64)
          × (b.multiaddrs ≡ payload.multiaddrs))
  identified_iff source_url payload b none =
      (λ h. absurd (ground (arith, h)), λ h. absurd (ground (arith, h.0)))
  identified_iff source_url payload b (some peer) =
      elim (Option-cases (check_multiaddrs lib peer payload.multiaddrs)) [
        | inl n ↦ rw n (
          λ h.
              let r = ok_same _ b h in
              (
                ap (λ z. some z.peer_id) r,
                rw (sym (ap (λ z. z.peer_id) r))
                    ((check_multiaddrs_iff peer payload.multiaddrs).0 n),
                sym (ap (λ z. z.source_url) r),
                sym (ap (λ z. z.public_key_b64) r),
                sym (ap (λ z. z.multiaddrs) r),
              ),
          λ (p, _, u, q, m). ap ok (ground (arith, p, u, q, m)),
        )
        | inr (e, x) ↦ rw x (
          λ h. absurd (ground (arith, h)),
          λ (p, names, _, _, _).
              absurd
                (ground (arith, x, p, (check_multiaddrs_iff b.peer_id payload.multiaddrs).1 names)),
        )
      ]

  validate_bootstrap_iff :
      (source_url : Text) (payload : BootstrapResponse) (b : OrchestratorBootstrap)
      → (validate_bootstrap lib source_url payload ≡ ok b) ↔ IsBootstrap source_url payload b
  unfolding validate_bootstrap
  validate_bootstrap_iff source_url payload b =
      let key = is_empty_iff (trim payload.public_key_b64) in
      let addrs = is_empty_iff payload.multiaddrs in
      let last = identified_iff source_url payload b (lib.parse_peer_id payload.peer_id) in
      let outer = unless-ok (is_empty (trim payload.public_key_b64)) no_public_key _ b in
      let inner = unless-ok (is_empty payload.multiaddrs) no_multiaddrs _ b in
      (
        λ h.
            let (k, h1) = outer.0 h in
            let (a, h2) = inner.0 h1 in
            let (p, ns, s, q, m) = last.0 h2 in (key.0 k, addrs.0 a, p, ns, s, q, m),
        λ (k, a, p, ns, s, q, m). outer.1 (key.1 k, inner.1 (addrs.1 a, last.1 (p, ns, s, q, m))),
      )

  module _ (get : Text → Option BootstrapResponse) where
    -- An endpoint that answers a payload that is accepted.
    abbrev pub Serves : Text → OrchestratorBootstrap → Type 0
    Serves url b =
        (payload : BootstrapResponse) × (get url ≡ some payload) × IsBootstrap url payload b

    abbrev pub IsSkipped : Text → Type 0
    IsSkipped raw = (trim raw ≢ []) → ¬ ((b : OrchestratorBootstrap) × Serves (trim raw) b)

    -- The first of the URLs that serves a bootstrap.
    abbrev pub IsFirst : OrchestratorBootstrap → List Text → Type 0
    IsFirst b [] = ⊥
    IsFirst b (raw ∷ urls) =
        ((trim raw ≢ []) × Serves (trim raw) b) ⊎ (IsSkipped raw × IsFirst b urls)

    fetch_bootstrap_iff :
        (url : Text) (b : OrchestratorBootstrap)
        → (fetch_bootstrap lib get url ≡ ok b) ↔ Serves url b
    unfolding fetch_bootstrap
    fetch_bootstrap_iff url b = elim (Option-cases (get url)) [
      | inl n ↦ rw n (λ h. absurd (ground (arith, h)), λ (p, g, _). absurd (ground (arith, g, n)))
      | inr (payload, s) ↦ rw s (
        λ h. (payload, refl, (validate_bootstrap_iff url payload b).0 h),
        λ (p, g, v).
            let same : payload ≡ p = ground (arith, g) in
            rw same ((validate_bootstrap_iff url p b).1 v),
      )
    ]

    first_ok_iff :
        (rest : BootstrapError → Result OrchestratorBootstrap BootstrapError)
        (r : Result OrchestratorBootstrap BootstrapError) (b : OrchestratorBootstrap)
        → (first_ok lib get rest r ≡ ok b)
          ↔ ((r ≡ ok b) ⊎ ((e : BootstrapError) × (r ≡ err e) × (rest e ≡ ok b)))
    first_ok_iff rest (ok a) b = (λ h. inl h, ground arith)
    first_ok_iff rest (err e) b = (
      λ h. inr (e, refl, h),
      elim [
        | inl h ↦ absurd (ground (arith, h))
        | inr (e', s, h) ↦ let same : e ≡ e' = ground (arith, s) in rw same h
      ],
    )

    fails :
        (url : Text) (e : BootstrapError) (b : OrchestratorBootstrap)
        → fetch_bootstrap lib get url ≡ err e
        → ¬ Serves url b
    fails url e b k sv = ground (arith, k, (fetch_bootstrap_iff url b).1 sv)

    try_urls_iff :
        (urls : List Text) (e : BootstrapError) (b : OrchestratorBootstrap)
        → (try_urls lib get e urls ≡ ok b) ↔ IsFirst b urls
    unfolding try_urls
    try_urls_iff [] e b = (λ h. ground (arith, h), λ h. absurd h)
    try_urls_iff (raw ∷ urls) e b =
        let fetched = fetch_bootstrap_iff (trim raw) b in
        let named = is_empty_iff (trim raw) in
        let head =
          first_ok_iff (λ e'. try_urls lib get e' urls) (fetch_bootstrap lib get (trim raw)) b in
        elim (Bool-cases (is_empty (trim raw))) [
          | inl blank ↦ rw blank (
            λ h. inr (λ n. absurd (ground (arith, blank, named.1 n)), (try_urls_iff urls e b).0 h),
            elim [
              | inl (n, _) ↦ absurd (ground (arith, blank, named.1 n))
              | inr (_, rest) ↦ (try_urls_iff urls e b).1 rest
            ],
          )
          | inr f ↦ rw f (
            λ h. elim (head.0 h) [
              | inl k ↦ inl (named.0 f, fetched.0 k)
              | inr (e', k, t) ↦
                  inr (λ _ (b', sv). fails (trim raw) e' b' k sv, (try_urls_iff urls e' b).0 t)
            ],
            elim [
              | inl (_, sv) ↦ head.1 (inl (fetched.1 sv))
              | inr (skipped, rest) ↦ elim (Result-cases (fetch_bootstrap lib get (trim raw))) [
                | inl (a, k) ↦
                    absurd (skipped (named.0 f) (a, (fetch_bootstrap_iff (trim raw) a).0 k))
                | inr (e', k) ↦ head.1 (inr (e', k, (try_urls_iff urls e' b).1 rest))
              ]
            ],
          )
        ]

    -- A node is set up with a bootstrap exactly when it is the one of the first URL, in their order
    -- and blank ones aside, whose endpoint answers a payload that is accepted: with a key that is
    -- not blank, some addresses, a peer that parses, and every address naming that peer.
    pub resolve_bootstrap_iff :
        (urls : List Text) (b : OrchestratorBootstrap)
        → (resolve_bootstrap lib get urls ≡ ok b) ↔ IsFirst b urls
    unfolding resolve_bootstrap
    resolve_bootstrap_iff urls b = try_urls_iff urls no_urls b
