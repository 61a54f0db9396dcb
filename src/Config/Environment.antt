-- ===== src/Config/Environment.antt =====
-- src/config.rs: the configuration from the environment and from what core reports. How Rust reads
-- a float, num-bigint an integer, base64 a key, and libp2p names a key are parameters.
use mathlib.Core.Option
use wqc_node.Base.{
  ℕ, ◌^◌, ◌-◌, not, ◌&&◌, List, [], Option, none, some, Result, ok, err, ◌>>=◌, ◌>>◌, guard, ok_or,
  map, filter, is_empty, ◌==◌, length, if◌then◌else◌,
}
use wqc_node.Base.Bytes.{Bytes}
use wqc_node.Base.Decimal.{parse_unsigned}
use wqc_node.Base.Float.{F64, Float}
use wqc_node.Base.Int.{ℤ}
use wqc_node.Base.Text.{Text, text, trim, eq_ignore_ascii_case}
use wqc_node.Config.{NodeConfig}
use wqc_node.Memory.{
  MemoryCapSource, gib, effective_memory_bytes, resolve_max_qubits_from_memory_gb,
  resolve_max_qubits_with_optional_vram, positive,
}
use wqc_node.Models.{CoreSystemInfo}
use wqc_node.Operator.{Primitives, OperatorError, derive_operator_keypair}
use wqc_node.Token.{TokenError, split, parse_wqc_to_planck}
use wqc_node.Work.{RateBounds, from_sysinfo}

pub data EnvError : Type 0 where
  not_a_number out_of_range missing : Text → EnvError
  key_base64 key_length keypair no_bootstrap_url : EnvError
  stake : TokenError → EnvError
  operator : OperatorError → EnvError

pub record Readers : Type 0 where
  pub parse_f64 : Text → Option F64
  pub big_int : Text → Option ℤ
  pub decode : Text → Option Bytes
  -- The peer id of the libp2p key pair of a signing key, if it gives one.
  pub peer_id_of : Bytes → Option Text

abbrev pub var_or : Option Text → Text → Text
var_or none default = default
var_or (some s) default = s

-- `v.parse().context(…)` up to a largest value.
abbrev pub number : Text → ℕ → Text → Result ℕ EnvError
number name bound value = ok_or (parse_unsigned bound value) (not_a_number name)

abbrev pub u64_top : ℕ
u64_top = 2 ^ 64 - 1

abbrev pub u16_top : ℕ
u16_top = 2 ^ 16 - 1

-- `map_err` and `with_context`.
abbrev pub map_err : {A E F : Type 0} → (E → F) → Result A E → Result A F
map_err f (ok a) = ok a
map_err f (err e) = err (f e)

abbrev pub key_array : Bytes → Result Bytes EnvError
key_array bytes = if length bytes == 32 then ok bytes else err key_length

-- The URLs between commas, trimmed; blank ones are dropped.
unfoldable pub bootstrap_urls_from : Option Text → Result (List Text) EnvError
unfolding split trim
bootstrap_urls_from none = err (missing (text "WQC_BOOTSTRAP_URLS"))
bootstrap_urls_from (some s) =
    let urls = filter (λ u. not (is_empty u)) (map trim (split b',' s)) in
    if is_empty urls then err no_bootstrap_url else ok urls

-- The identity of the operator, if its key is set and not blank.
unfoldable pub operator_from : Primitives → Option Text → Result (Option (Text × Bytes)) EnvError
unfolding trim derive_operator_keypair
operator_from p none = ok none
operator_from p (some node_key) =
    if is_empty (trim node_key)
    then ok none
    else do pair ← map_err operator (derive_operator_keypair p (trim node_key)); ok (some pair)

module _ (rd : Readers) where
  abbrev pub float : Text → Text → Result F64 EnvError
  float name value = ok_or (rd.parse_f64 value) (not_a_number name)

  unfoldable pub parse_requested_memory_gib : Option Text → Result (Option F64) EnvError
  unfolding trim
  parse_requested_memory_gib none = ok none
  parse_requested_memory_gib (some s) =
      if is_empty (trim s)
      then ok none
      else do g ← float (text "WQC_MAX_MEMORY_GB") (trim s); ok (some g)

  unfoldable pub load_signing_key_from_env : Option Text → Result Bytes EnvError
  unfolding trim
  load_signing_key_from_env none = err (missing (text "WQC_NODE_PRIVATE_KEY"))
  load_signing_key_from_env (some key_b64) =
      ok_or (rd.decode (trim key_b64)) key_base64 >>= key_array

  module _ (fl : Float) where
    -- `x >= 0.0 && x.is_finite()`
    abbrev pub seconds_from : Text → Text → Result F64 EnvError
    seconds_from name value = do
      x ← float name value
      guard (fl.fle (fl.of_u64 0) x && fl.is_finite x) (out_of_range name)
      ok x

    abbrev pub margin_from : Text → Result F64 EnvError
    margin_from value = do
      x ← float (text "WQC_WORK_BUDGET_MARGIN") value
      guard (fl.flt (fl.of_u64 0) x && fl.fle x (fl.of_u64 1))
          (out_of_range (text "WQC_WORK_BUDGET_MARGIN"))
      ok x

    -- The host's memory in bytes, and the environment.
    unfoldable pub from_env : Primitives → ℕ → (Text → Option Text) → Result NodeConfig EnvError
    unfolding parse_requested_memory_gib resolve_max_qubits_from_memory_gb parse_unsigned
        load_signing_key_from_env bootstrap_urls_from parse_wqc_to_planck operator_from
    from_env p host_total_memory_bytes env = do
      requested ← parse_requested_memory_gib (env (text "WQC_MAX_MEMORY_GB"))
      compute_timeout ←
          number (text "WQC_COMPUTE_TIMEOUT_SECS") u64_top
            (var_or (env (text "WQC_COMPUTE_TIMEOUT_SECS")) (text "300"))
      margin ← margin_from (var_or (env (text "WQC_WORK_BUDGET_MARGIN")) (text "0.5"))
      overhead ←
          seconds_from (text "WQC_WORK_OVERHEAD_SECS")
            (var_or (env (text "WQC_WORK_OVERHEAD_SECS")) (text "5"))
      unknown ←
          seconds_from (text "WQC_WORK_UNKNOWN_SECS")
            (var_or (env (text "WQC_WORK_UNKNOWN_SECS")) (text "30"))
      pcs_timeout ←
          number (text "WQC_PCS_TIMEOUT_SECS") u64_top
            (var_or (env (text "WQC_PCS_TIMEOUT_SECS")) (text "7200"))
      key ← load_signing_key_from_env (env (text "WQC_NODE_PRIVATE_KEY"))
      peer ← ok_or (rd.peer_id_of key) keypair
      urls ← bootstrap_urls_from (env (text "WQC_BOOTSTRAP_URLS"))
      listen_port ←
          number (text "WQC_P2P_LISTEN_PORT") u16_top
            (var_or (env (text "WQC_P2P_LISTEN_PORT")) (text "4002"))
      idle_timeout ←
          number (text "WQC_P2P_IDLE_TIMEOUT_SECS") u64_top
            (var_or (env (text "WQC_P2P_IDLE_TIMEOUT_SECS")) (text "60"))
      port ←
          number (text "WQC_HTTP_PORT") u16_top (var_or (env (text "WQC_HTTP_PORT")) (text "8080"))
      amount ←
          map_err stake (
            parse_wqc_to_planck rd.big_int (var_or (env (text "WQC_NODE_STAKE_WQC")) (text "0.05")))
      identity ← operator_from p (env (text "WQC_TESTNET_NODE_KEY"))
      let (dense, mps, memory_gib) =
            resolve_max_qubits_from_memory_gb fl requested host_total_memory_bytes in
          ok (record {
            peer_id = peer;
            core_url = var_or (env (text "WQC_CORE_URL")) (text "http://localhost:3000");
            max_qubits = dense;
            max_mps_qubits = mps;
            max_memory_gib = memory_gib;
            requested_memory_gib = requested;
            host_total_memory_bytes = host_total_memory_bytes;
            memory_cap_source = MemoryCapSource.ram;
            vram_budget_gib = none;
            compute_timeout_secs = compute_timeout;
            tn_rates = none;
            work_budget_margin = margin;
            work_overhead_secs = overhead;
            work_unknown_secs = unknown;
            pcs_timeout_secs = pcs_timeout;
            signing_key = key;
            bootstrap_urls = urls;
            bootstrap_source_url = none;
            bootstrap_peers = [];
            p2p_listen_port = listen_port;
            p2p_idle_timeout_secs = idle_timeout;
            http_port = port;
            database_url = var_or (env (text "WQC_DATABASE_URL")) (text "sqlite:wqc-node.db");
            stake_amount = amount;
            orchestrator_peer_id = none;
            orchestrator_public_key = none;
            operator_id = Option.map (λ pair. pair.0) identity;
            operator_signing_key = Option.map (λ pair. pair.1) identity;
          })

-- The VRAM that counts: only that of a WebGPU backend.
unfoldable pub vram_of : CoreSystemInfo → Option ℕ
unfolding eq_ignore_ascii_case
vram_of info =
    if eq_ignore_ascii_case info.tn_backend_active (text "webgpu")
    then positive info.vram_budget_bytes
    else none

module _ (fl : Float) where
  unfoldable pub apply_core_sysinfo : RateBounds → CoreSystemInfo → NodeConfig → NodeConfig
  unfolding from_sysinfo effective_memory_bytes vram_of resolve_max_qubits_with_optional_vram
  apply_core_sysinfo bounds info config =
      let vram_raw = vram_of info in
      let resolved =
        resolve_max_qubits_with_optional_vram fl
          (effective_memory_bytes fl config.requested_memory_gib config.host_total_memory_bytes)
          vram_raw in
      record config {
        tn_rates = from_sysinfo fl bounds info.tn_seconds_per_byte info.tn_seconds_per_flop;
        vram_budget_gib = Option.map (λ b. fl.div (fl.of_u64 b) (gib fl)) vram_raw;
        max_qubits = resolved.dense_qubits;
        max_mps_qubits = resolved.mps_qubits;
        max_memory_gib = resolved.effective_gib;
        memory_cap_source = resolved.source;
      }
