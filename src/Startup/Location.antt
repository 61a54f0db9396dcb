-- ===== src/Startup/Location.antt =====
-- Where the node is (src/domain/geo.rs and src/infra/geoip.rs). What a provider answers is an
-- argument: none for a request that fails or is refused, or a body that is not its JSON.
use wqc_node.Base.{Bool, not, Option, none, some, Result, ok, err, if◌then◌else◌}
use wqc_node.Base.Float.{F64}
use wqc_node.Base.Int.{ℤ}
use wqc_node.Base.Text.{Text, text, text_eq}
use wqc_node.Storage.{Storage, StorageError, GeoInfo}
use wqc_node.Storage.Geo.{get_cached_geo, save_geo_cache}

pub record IpApiJsonResponse : Type 0 where
  pub lat : F64
  pub lon : F64
  pub country : Text
  pub city : Text
  pub status : Text

pub record FreeIpApiResponse : Type 0 where
  pub latitude : F64
  pub longitude : F64
  pub country_name : Text
  pub city_name : Text

pub record IpApiCoResponse : Type 0 where
  pub latitude : F64
  pub longitude : F64
  pub country_name : Text
  pub city : Text

-- `too_many` and `success` are of the status; the body is what the JSON reads as.
pub record Response (A : Type 0) : Type 0 where
  pub too_many : Bool
  pub success : Bool
  pub body : Option A

pub record Providers : Type 0 where
  pub ip_api : Option (Response IpApiJsonResponse)
  pub free_ip_api : Option (Response FreeIpApiResponse)
  pub ipapi_co : Option (Response IpApiCoResponse)

-- The body of a response that is not refused.
abbrev pub accepted : {A : Type 0} → Option (Response A) → Option A
accepted none = none
accepted (some r) = if r.too_many then none else if not r.success then none else r.body

abbrev pub of_ip_api : Option IpApiJsonResponse → Option GeoInfo
of_ip_api none = none
of_ip_api (some json) =
    if not (text_eq json.status (text "success"))
    then none
    else some (record {
      latitude = json.lat;
      longitude = json.lon;
      country = json.country;
      city = json.city;
    })

unfoldable pub try_ip_api : Providers → Option GeoInfo
unfolding text_eq
try_ip_api p = of_ip_api (accepted p.ip_api)

unfoldable pub try_free_ip_api : Providers → Option GeoInfo
try_free_ip_api p = elim (accepted p.free_ip_api) [
  | none ↦ none
  | some json ↦ some (record {
    latitude = json.latitude;
    longitude = json.longitude;
    country = json.country_name;
    city = json.city_name;
  })
]

unfoldable pub try_ipapi_co : Providers → Option GeoInfo
try_ipapi_co p = elim (accepted p.ipapi_co) [
  | none ↦ none
  | some json ↦ some (record {
    latitude = json.latitude;
    longitude = json.longitude;
    country = json.country_name;
    city = json.city;
  })
]

abbrev pub or_else : Option GeoInfo → Option GeoInfo → Option GeoInfo
or_else none o = o
or_else (some geo) o = some geo

unfoldable pub fetch_geolocation : Providers → Option GeoInfo
unfolding try_ip_api try_free_ip_api try_ipapi_co
fetch_geolocation p = or_else (try_ip_api p) (or_else (try_free_ip_api p) (try_ipapi_co p))

-- A location that is fetched is stored, whether or not that succeeds.
abbrev pub fetch_and_save : Providers → ℤ → Storage → Option GeoInfo × Storage
fetch_and_save p now db = elim (fetch_geolocation p) [
  | none ↦ (none, db)
  | some fresh ↦ (some fresh, (save_geo_cache fresh now db).1)
]

abbrev pub cached_or_fetch :
    Providers → ℤ → Result (Option GeoInfo) StorageError → Storage → Option GeoInfo × Storage
cached_or_fetch p now (ok (some cached)) db = (some cached, db)
cached_or_fetch p now (ok none) db = fetch_and_save p now db
cached_or_fetch p now (err e) db = fetch_and_save p now db

-- The clock is read for the cache and again when a location is stored.
unfoldable pub resolve_node_location : Providers → ℤ → ℤ → Storage → Option GeoInfo × Storage
unfolding get_cached_geo fetch_geolocation save_geo_cache
resolve_node_location p now later db =
    let (cached, db1) = get_cached_geo now db in cached_or_fetch p later cached db1
