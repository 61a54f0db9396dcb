-- ===== src/Storage/Geo.antt =====
-- The one row of `geo_cache` in src/infra/storage.rs.
use wqc_node.Base.{Option, none, some, Result, ok, if◌then◌else◌}
use wqc_node.Base.Int.{ℤ, pos, ltb_ℤ, ◌-ℤ◌}
use wqc_node.Storage.{GeoInfo, GeoRow, Storage, StorageError, statement, Done}

abbrev pub geo_cache_ttl_secs : ℤ
geo_cache_ttl_secs = pos 86400

abbrev pub fresh_geo : ℤ → Option GeoRow → Option GeoInfo
fresh_geo now none = none
fresh_geo now (some row) =
    if ltb_ℤ (now -ℤ row.updated_at) geo_cache_ttl_secs then some row.geo else none

unfoldable pub get_cached_geo : ℤ → Storage → Result (Option GeoInfo) StorageError × Storage
unfolding ◌-ℤ◌
get_cached_geo now = statement λ st. (ok (fresh_geo now st.geo_cache), st)

unfoldable pub save_geo_cache : GeoInfo → ℤ → Storage → Done
save_geo_cache geo now =
    statement λ st. (ok tt, record st { geo_cache = some (record { geo = geo; updated_at = now }) })
