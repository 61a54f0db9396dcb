-- ===== src/Startup/Bootstrap.antt =====
-- src/infra/orchestrator.rs: where the orchestrator is found. How libp2p reads an identity and an
-- address is a parameter, as is what an endpoint answers.
pub mod Trusted
use wqc_node.Base.{
  ℕ, ◌≡◌, ◌≢◌, refl, Bool, true, false, not, List, [], ◌∷◌, Option, none, some, Result, ok, err,
  is_empty, if◌then◌else◌, arith, All, Bool-cases, inl, inr,
}
use wqc_node.Base.Text.{Text, trim, text_eq, text_eq_iff}
use wqc_node.Config.{NodeConfig}

pub record BootstrapResponse : Type 0 where
  pub peer_id : Text
  pub public_key_b64 : Text
  pub multiaddrs : List Text

pub record OrchestratorBootstrap : Type 0 where
  pub source_url : Text
  pub peer_id : Text
  pub public_key_b64 : Text
  pub multiaddrs : List Text

pub data BootstrapError : Type 0 where
  no_urls no_public_key no_multiaddrs invalid_peer_id not_fetched : BootstrapError
  invalid_multiaddr no_peer_in_multiaddr peer_mismatch : Text → BootstrapError

-- The components of an address, of which one may name a peer.
pub data Protocol : Type 0 where
  p2p : Text → Protocol
  other : Text → Protocol

pub record Libp2p : Type 0 where
  pub parse_peer_id : Text → Option Text
  pub parse_multiaddr : Text → Option (List Protocol)

unfoldable pub peer_id_from_multiaddr : List Protocol → Option Text
peer_id_from_multiaddr [] = none
peer_id_from_multiaddr (p2p peer_id ∷ addr) = some peer_id
peer_id_from_multiaddr (other name ∷ addr) = peer_id_from_multiaddr addr

-- `?`
abbrev pub first_error : Option BootstrapError → Option BootstrapError → Option BootstrapError
first_error none rest = rest
first_error (some e) rest = some e

module _ (lib : Libp2p) where
  -- One round of the loop over the addresses.
  abbrev pub check_peer : Text → Text → Option Text → Option BootstrapError
  check_peer peer_id raw none = some (no_peer_in_multiaddr raw)
  check_peer peer_id raw (some addr_peer) =
      if not (text_eq addr_peer peer_id) then some (peer_mismatch raw) else none

  abbrev pub check_multiaddr : Text → Text → Option (List Protocol) → Option BootstrapError
  check_multiaddr peer_id raw none = some (invalid_multiaddr raw)
  check_multiaddr peer_id raw (some addr) = check_peer peer_id raw (peer_id_from_multiaddr addr)

  -- The loop: the first error, if an address has one.
  unfoldable pub check_multiaddrs : Text → List Text → Option BootstrapError
  unfolding peer_id_from_multiaddr text_eq
  check_multiaddrs peer_id [] = none
  check_multiaddrs peer_id (raw ∷ raws) =
      first_error (check_multiaddr peer_id raw (lib.parse_multiaddr raw))
        (check_multiaddrs peer_id raws)

  abbrev pub checked :
      Text
      → BootstrapResponse
      → Text
      → Option BootstrapError
      → Result OrchestratorBootstrap BootstrapError
  checked source_url payload peer_id (some e) = err e
  checked source_url payload peer_id none = ok (record {
    source_url = source_url;
    peer_id = peer_id;
    public_key_b64 = trim payload.public_key_b64;
    multiaddrs = payload.multiaddrs;
  })

  abbrev pub identified :
      Text → BootstrapResponse → Option Text → Result OrchestratorBootstrap BootstrapError
  identified source_url payload none = err invalid_peer_id
  identified source_url payload (some peer_id) =
      checked source_url payload peer_id (check_multiaddrs peer_id payload.multiaddrs)

  unfoldable pub validate_bootstrap :
      Text → BootstrapResponse → Result OrchestratorBootstrap BootstrapError
  unfolding check_multiaddrs trim
  validate_bootstrap source_url payload =
      if is_empty (trim payload.public_key_b64)
      then err no_public_key
      else if is_empty payload.multiaddrs
      then err no_multiaddrs
      else identified source_url payload (lib.parse_peer_id payload.peer_id)

  -- What `GET` of an endpoint gives, if it gives a payload.
  module _ (get : Text → Option BootstrapResponse) where
    abbrev pub decoded :
        Text → Option BootstrapResponse → Result OrchestratorBootstrap BootstrapError
    decoded endpoint none = err not_fetched
    decoded endpoint (some payload) = validate_bootstrap endpoint payload

    -- The caller has trimmed the URL, and skips a blank one.
    unfoldable pub fetch_bootstrap : Text → Result OrchestratorBootstrap BootstrapError
    unfolding validate_bootstrap
    fetch_bootstrap endpoint = decoded endpoint (get endpoint)

    -- A result, or what the rest of the loop gives after an error.
    abbrev pub first_ok :
        (BootstrapError → Result OrchestratorBootstrap BootstrapError)
        → Result OrchestratorBootstrap BootstrapError
        → Result OrchestratorBootstrap BootstrapError
    first_ok rest (ok b) = ok b
    first_ok rest (err e) = rest e

    -- The loop over the URLs, with the last error.
    unfoldable pub try_urls :
        BootstrapError → List Text → Result OrchestratorBootstrap BootstrapError
    unfolding fetch_bootstrap trim
    try_urls last_err [] = err last_err
    try_urls last_err (raw_url ∷ urls) =
        let skip = try_urls last_err urls in
        let fetched = first_ok (λ e. try_urls e urls) (fetch_bootstrap (trim raw_url)) in
        if is_empty (trim raw_url) then skip else fetched

    unfoldable pub resolve_bootstrap : List Text → Result OrchestratorBootstrap BootstrapError
    unfolding try_urls
    resolve_bootstrap bootstrap_urls = try_urls no_urls bootstrap_urls

-- src/config.rs
unfoldable pub apply_orchestrator_bootstrap :
    OrchestratorBootstrap → NodeConfig → Result NodeConfig BootstrapError
apply_orchestrator_bootstrap b config =
    if is_empty b.multiaddrs
    then err no_multiaddrs
    else ok (record config {
      bootstrap_source_url = some b.source_url;
      orchestrator_peer_id = some b.peer_id;
      orchestrator_public_key = some b.public_key_b64;
      bootstrap_peers = b.multiaddrs;
    })
