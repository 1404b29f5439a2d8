-- ===== src/TestApp.antt =====
-- test-app/src/main.rs: the sample service behind an agent, its state, its answers and the helpers
-- of its handlers. A number of seconds that the code keeps as a float is kept as its nanoseconds.
pub mod Pages
pub mod Socket
pub mod Routes
pub mod Environment
pub mod Delay
pub mod Start
pub mod Echo
pub mod Upgrade
use anywhere_mesh.Base.{
  ℕ, ◌-◌, Text, codes, HashMap, insert, find, Option, none, some, Bool, true, false, not, List, [],
  ◌∷◌, filter, any, text_eq,
}
use anywhere_mesh.Common.Types.{SystemTime, TextMap}
use anywhere_mesh.Server.Http.{HeaderValue}

abbrev pub service_name : Text
service_name = codes "test-app"

abbrev pub service_version : Text
service_version = codes "1.0.0"

abbrev pub service_port : ℕ
service_port = 3000

pub record AppState : Type 0 where
  pub start_time : SystemTime

pub record HealthResponse : Type 0 where
  pub status : Text
  pub service : Text
  pub timestamp : SystemTime
  pub uptime_seconds : ℕ

pub record ServiceInfo : Type 0 where
  pub service : Text
  pub version : Text
  pub port : ℕ
  pub hostname : Text
  pub timestamp : SystemTime
  pub uptime : ℕ
  pub environment : TextMap

pub record EchoResponse : Type 0 where
  pub method : Text
  pub url : Text
  pub args : TextMap
  pub headers : TextMap
  pub timestamp : SystemTime
  pub service : Text

pub record TimeResponse : Type 0 where
  pub timestamp : SystemTime
  pub unix_timestamp : ℕ
  pub formatted : Text
  pub service : Text

pub record HeadersResponse : Type 0 where
  pub headers : TextMap
  pub method : Text
  pub path : Text
  pub query_string : Text
  pub remote_addr : Option Text
  pub service : Text
  pub timestamp : SystemTime

pub record EnvironmentResponse : Type 0 where
  pub environment : TextMap
  pub service : Text
  pub timestamp : SystemTime

pub record StressResponse : Type 0 where
  pub requested_delay : ℕ
  pub actual_delay : ℕ
  pub service : Text
  pub timestamp : SystemTime

pub record ErrorResponse : Type 0 where
  pub error : Text
  pub message : Text
  pub service : Text
  pub available_endpoints : List Text
  pub timestamp : SystemTime

-- What is answered as JSON; the last stands for an object of texts that `json!` makes.
pub data Payload : Type 0 where
  health : HealthResponse → Payload
  info : ServiceInfo → Payload
  echoed : EchoResponse → Payload
  time : TimeResponse → Payload
  headers : HeadersResponse → Payload
  environment : EnvironmentResponse → Payload
  stress : StressResponse → Payload
  error : ErrorResponse → Payload
  object : List (Text × Text) → Payload

-- What a call finds around it: hostname::get(), the variables, which are Unicode, the file
-- index.html if it can be read, the clocks, of which `since_epoch` is none before 1970, and the
-- functions of the libraries: OsStr's to_string_lossy, str's to_uppercase, serde_json, and chrono's
-- format and serialisation of a time.
pub record Host : Type 0 where
  pub hostname : Option Text
  pub vars : List (Text × Text)
  pub index_html : Option Text
  pub utc : SystemTime
  pub instant : SystemTime
  pub since_epoch : Option ℕ
  pub to_string_lossy : Text → Text
  pub to_uppercase : Text → Text
  pub to_json : Payload → Text
  pub show_time : SystemTime → Text
  pub format_time : SystemTime → Text

unfoldable pub get_hostname : Host → Text
get_hostname host =
    host.to_string_lossy (elim host.hostname [ some name ↦ name | none ↦ codes "unknown" ])

-- `elapsed` is 0 at a time before the start.
unfoldable pub get_uptime : SystemTime → Host → ℕ
get_uptime start_time host = host.instant - start_time

unfoldable pub get_unix_timestamp : Host → ℕ
get_unix_timestamp host = elim host.since_epoch [ some passed ↦ passed | none ↦ 0 ]

-- The pairs go into the map in their order, so that of a name that comes twice the last stays.
unfoldable pub collect_into : TextMap → List (Text × Text) → TextMap
unfolding insert
collect_into m [] = m
collect_into m ((k, v) ∷ pairs) = collect_into (insert k v m) pairs

-- (k.to_string(), v.to_str().unwrap_or("").to_string())
unfoldable pub header_pair : Text × HeaderValue → Text × Text
header_pair (k, some v) = (k, v)
header_pair (k, none) = (k, [])

unfoldable pub header_pairs : List (Text × HeaderValue) → List (Text × Text)
unfolding header_pair
header_pairs [] = []
header_pairs (h ∷ hs) = header_pair h ∷ header_pairs hs

unfoldable pub headers_to_hashmap : List (Text × HeaderValue) → TextMap
unfolding header_pairs collect_into
headers_to_hashmap hs = collect_into [] (header_pairs hs)

abbrev pub sensitive_keywords : List Text
sensitive_keywords =
    codes "PASSWORD" ∷ codes "SECRET" ∷ codes "KEY" ∷ codes "TOKEN" ∷ codes "CREDENTIAL" ∷ []

-- s.contains(p)
unfoldable pub contains_text : Text → Text → Bool
unfolding find
contains_text s p = elim (find s p) [ some at ↦ true | none ↦ false ]

unfoldable pub is_sensitive : Host → Text → Bool
unfolding contains_text
is_sensitive host k = any (contains_text (host.to_uppercase k)) sensitive_keywords

unfoldable pub get_filtered_environment : Host → TextMap
unfolding is_sensitive collect_into
get_filtered_environment host =
    collect_into [] (filter (λ (k, v). not (is_sensitive host k)) host.vars)
