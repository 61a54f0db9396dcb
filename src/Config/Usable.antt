-- ===== src/Config/Usable.antt =====
-- What a configuration that is read from the environment keeps to (src/config.rs).
use wqc_node.Base.{
  String, ℕ, suc, ◌^◌, ◌<◌, ◌≤◌, ◌≡◌, ◌≢◌, refl, ap, subst, true, not, ◌&&◌, List, [], ◌∷◌, Option,
  none, some, Result, ok, ◌>>=◌, >>=-ok, guard-ok, ok_or, ok-injective, map, filter, is_empty,
  is_empty_iff, length, arith, All, unless-ok,
}
use wqc_node.Base.Bytes.{Bytes}
use wqc_node.Base.Decimal.{parse_unsigned, at_most}
use wqc_node.Base.Float.{F64, Float}
use wqc_node.Base.Text.{Text, text, trim}
use wqc_node.Base.Trimmed.{trim-trim}
use wqc_node.Config.{NodeConfig}
use wqc_node.Config.Environment.{
  EnvError, Readers, from_env, margin_from, seconds_from, number, var_or, bootstrap_urls_from,
  load_signing_key_from_env, key_array, no_bootstrap_url, float, u64_top, u16_top, keypair, map_err,
  parse_requested_memory_gib, operator_from, key_base64, stake,
}
use wqc_node.Memory.{
  max_qubits_from_dense_memory_budget, max_qubits_from_mps_memory_budget, effective_memory_bytes,
  resolve_max_qubits_from_memory_gb,
}
use wqc_node.Token.{parse_wqc_to_planck, split}
use wqc_node.Operator.{Primitives}

at_most-le : (bound n : ℕ) (o : Option ℕ) → at_most bound o ≡ some n → n ≤ bound
at_most-le bound n none h = ground (arith, h)
at_most-le bound n (some m) h = ground (arith, h)

parse_unsigned-le : (bound n : ℕ) (s : Text) → parse_unsigned bound s ≡ some n → n ≤ bound
unfolding parse_unsigned
parse_unsigned-le bound n [] h = ground (arith, h)
parse_unsigned-le bound n (c ∷ s) h = at_most-le bound n _ h

ok_or-some : {A : Type 0} (o : Option A) (e : EnvError) (a : A) → ok_or o e ≡ ok a → o ≡ some a
ok_or-some none e a h = ground (arith, h)
ok_or-some (some b) e a h = ap some (ok-injective (ok b) b a refl h)

module _ (env : Text → Option Text) where
  -- The value of a variable, or its default.
  abbrev value : String → String → Text
  value name default = var_or (env (text name)) (text default)

  number-step :
      (name default : String) (bound : ℕ) (f : ℕ → Result NodeConfig EnvError) (c : NodeConfig)
      → (number (text name) bound (value name default) >>= f) ≡ ok c
      → (n : ℕ) × (n < suc bound) × (f n ≡ ok c)
  number-step name default bound f c h =
      let (n, r, k) = >>=-ok (number (text name) bound (value name default)) f c h in
      let le = parse_unsigned-le bound n (value name default) (ok_or-some _ _ n r) in
      (n, omega (arith, le), k)

-- Not empty, and with no blank at either end; so not all blank.
abbrev pub IsTrimmed : Text → Type 0
IsTrimmed u = (u ≢ []) × (trim u ≡ u)

kept :
    (urls : List Text)
    → All (λ u. trim u ≡ u) urls
    → All IsTrimmed (filter (λ u. not (is_empty u)) urls)
kept [] h = tt
kept ([] ∷ urls) h = kept urls h.1
kept ((c ∷ u) ∷ urls) h = (((λ e. ground (arith, e)), h.0), kept urls h.1)

trimmed : (parts : List Text) → All (λ u. trim u ≡ u) (map trim parts)
trimmed [] = tt
trimmed (s ∷ parts) = (trim-trim s, trimmed parts)

bootstrap_urls_from-nonempty :
    (o : Option Text) (urls : List Text)
    → bootstrap_urls_from o ≡ ok urls
    → (urls ≢ []) × All IsTrimmed urls
unfolding bootstrap_urls_from
bootstrap_urls_from-nonempty none urls h = ground (arith, h)
bootstrap_urls_from-nonempty (some s) urls h =
    let found = filter (λ u. not (is_empty u)) (map trim (split b',' s)) in
    let (named, same) = (unless-ok (is_empty found) no_bootstrap_url (ok found) urls).0 h in
    let eq = ok-injective (ok found) found urls refl same in
    subst (λ us. (us ≢ []) × All IsTrimmed us) eq
      ((is_empty_iff found).0 named, kept (map trim (split b',' s)) (trimmed (split b',' s)))

module _ (rd : Readers) where
  load_signing_key-length :
      (o : Option Text) (key : Bytes) → load_signing_key_from_env rd o ≡ ok key → length key ≡ 32
  unfolding load_signing_key_from_env
  load_signing_key-length none key h = ground (arith, h)
  load_signing_key-length (some s) key h =
      let (bytes, _, k) = >>=-ok (ok_or (rd.decode (trim s)) key_base64) key_array key h in
      ground (arith, k)

  module _ (fl : Float) where
    abbrev pub IsSeconds : F64 → Type 0
    IsSeconds x = (fl.fle (fl.of_u64 0) x && fl.is_finite x) ≡ true

    abbrev pub IsMargin : F64 → Type 0
    IsMargin x = (fl.flt (fl.of_u64 0) x && fl.fle x (fl.of_u64 1)) ≡ true

    module _ (env : Text → Option Text) where
      IsSeconds-step :
          (name default : String) (f : F64 → Result NodeConfig EnvError) (c : NodeConfig)
          → (seconds_from rd fl (text name) (value env name default) >>= f) ≡ ok c
          → (x : F64) × IsSeconds x × (f x ≡ ok c)
      IsSeconds-step name default f c h =
          let (x, r, k) = >>=-ok (seconds_from rd fl (text name) (value env name default)) f c h in
          let (y, _, inner) = >>=-ok (float rd (text name) (value env name default)) _ x r in
          let (t, same) = guard-ok (fl.fle (fl.of_u64 0) y && fl.is_finite y) _ (ok y) x inner in
          (x, subst IsSeconds (ok-injective (ok y) y x refl same) t, k)

      IsMargin-step :
          (f : F64 → Result NodeConfig EnvError) (c : NodeConfig)
          → (margin_from rd fl (value env "WQC_WORK_BUDGET_MARGIN" "0.5") >>= f) ≡ ok c
          → (x : F64) × IsMargin x × (f x ≡ ok c)
      IsMargin-step f c h =
          let name : String = "WQC_WORK_BUDGET_MARGIN" in
          let (x, r, k) = >>=-ok (margin_from rd fl (value env name "0.5")) f c h in
          let (y, _, inner) = >>=-ok (float rd (text name) (value env name "0.5")) _ x r in
          let (t, same) =
            guard-ok (fl.flt (fl.of_u64 0) y && fl.fle y (fl.of_u64 1)) _ (ok y) x inner in
          (x, subst IsMargin (ok-injective (ok y) y x refl same) t, k)

    -- What the rest of the node may rely on.
    abbrev pub IsUsable : ℕ → NodeConfig → Type 0
    IsUsable total c =
        let bytes = effective_memory_bytes fl c.requested_memory_gib total in
        IsMargin c.work_budget_margin
        × IsSeconds c.work_overhead_secs
        × IsSeconds c.work_unknown_secs
        × (c.compute_timeout_secs < 2 ^ 64)
        × (c.pcs_timeout_secs < 2 ^ 64)
        × (c.p2p_idle_timeout_secs < 2 ^ 64)
        × (c.p2p_listen_port < 2 ^ 16)
        × (c.http_port < 2 ^ 16)
        × (length c.signing_key ≡ 32)
        × (rd.peer_id_of c.signing_key ≡ some c.peer_id)
        × (c.bootstrap_urls ≢ [])
        × All IsTrimmed c.bootstrap_urls
        × (c.bootstrap_source_url ≡ none)
        × (c.bootstrap_peers ≡ [])
        × (c.orchestrator_peer_id ≡ none)
        × (c.orchestrator_public_key ≡ none)
        × (c.tn_rates ≡ none)
        × (c.host_total_memory_bytes ≡ total)
        × (c.max_qubits ≡ max_qubits_from_dense_memory_budget bytes)
        × (c.max_mps_qubits ≡ max_qubits_from_mps_memory_budget bytes)

    -- A configuration that is read from the environment has a margin in (0, 1], finite times that are
    -- not negative, timeouts and ports in range, a signing key of 32 bytes that gives its peer id, at
    -- least one URL, none of them empty or with a blank at an end, no orchestrator (neither its peer
    -- id, its key, its addresses nor the URL it was found at), no rates, the memory of the host, and
    -- the widths of its memory budget.
    pub from_env-IsUsable :
        (p : Primitives) (total : ℕ) (env : Text → Option Text) (c : NodeConfig)
        → from_env rd fl p total env ≡ ok c
        → IsUsable total c
    unfolding from_env resolve_max_qubits_from_memory_gb
    from_env-IsUsable p total env c h0 =
        let (requested, _, h1) =
          >>=-ok (parse_requested_memory_gib rd (env (text "WQC_MAX_MEMORY_GB"))) _ c h0 in
        let (compute, r1, h2) = number-step env "WQC_COMPUTE_TIMEOUT_SECS" "300" u64_top _ c h1 in
        let (margin, r2, h3) = IsMargin-step env _ c h2 in
        let (overhead, r3, h4) = IsSeconds-step env "WQC_WORK_OVERHEAD_SECS" "5" _ c h3 in
        let (unknown, r4, h5) = IsSeconds-step env "WQC_WORK_UNKNOWN_SECS" "30" _ c h4 in
        let (pcs, r5, h6) = number-step env "WQC_PCS_TIMEOUT_SECS" "7200" u64_top _ c h5 in
        let (key, r6, h7) =
          >>=-ok (load_signing_key_from_env rd (env (text "WQC_NODE_PRIVATE_KEY"))) _ c h6 in
        let (peer, r7, h8) = >>=-ok (ok_or (rd.peer_id_of key) keypair) _ c h7 in
        let (urls, r8, h9) =
          >>=-ok (bootstrap_urls_from (env (text "WQC_BOOTSTRAP_URLS"))) _ c h8 in
        let (listen, r9, h10) = number-step env "WQC_P2P_LISTEN_PORT" "4002" u16_top _ c h9 in
        let (idle, r10, h11) = number-step env "WQC_P2P_IDLE_TIMEOUT_SECS" "60" u64_top _ c h10 in
        let (port, r11, h12) = number-step env "WQC_HTTP_PORT" "8080" u16_top _ c h11 in
        let (amount, _, h13) =
          >>=-ok
            (map_err stake (parse_wqc_to_planck rd.big_int (value env "WQC_NODE_STAKE_WQC" "0.05")))
            _ c h12 in
        let (identity, _, h14) =
          >>=-ok (operator_from p (env (text "WQC_TESTNET_NODE_KEY"))) _ c h13 in
        let (named, all_named) =
          bootstrap_urls_from-nonempty (env (text "WQC_BOOTSTRAP_URLS")) urls r8 in
        let key_size = load_signing_key-length (env (text "WQC_NODE_PRIVATE_KEY")) key r6 in
        subst (IsUsable total) (ok-injective (ok _) _ c refl h14) (
          r2,
          r3,
          r4,
          r1,
          r5,
          r10,
          r9,
          r11,
          key_size,
          ok_or-some (rd.peer_id_of key) keypair peer r7,
          named,
          all_named,
          refl,
          refl,
          refl,
          refl,
          refl,
          refl,
          refl,
          refl,
        )
