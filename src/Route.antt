-- ===== src/Route.antt =====
-- cloud_route.rs: the MQTT endpoint that the platform assigns, and the checks of it that stand in
-- cloud.rs. `Url::parse` and the standard library's address parser are parameters.
pub mod Trace
pub mod Newest
pub mod Settled
pub mod Endpoint
use zwrt_datad.Prelude.{
  ℕ, Bool, true, false, not, ◌&&◌, ◌||◌, Option, none, some, ◌⊎◌, inl, inr, List, [], ◌∷◌, ltb, leb,
  ◌==◌, length, any, all, if◌then◌else◌,
}
use zwrt_datad.Prelude.Int.{ℤ, pos, negsuc}
use zwrt_datad.Prelude.Text.{
  Bytes, codes, text_eq, one_of, starts_with, ends_with, contains, lowercase, is_digit,
}
use zwrt_datad.Storage.{DiskFile, missing, invalid, holds}
use zwrt_datad.Recovery.Probe.{is_none}
use zwrt_datad.Tasks.Params.{is_int}
use zwrt_datad.Tasks.{is_some}
use zwrt_datad.Schedule.{is_empty}

-- What the code reads of a parsed URL; `origin` is `origin().ascii_serialization()`.
pub record SiteUrl : Type 0 where
  pub scheme : Bytes
  pub username : Bytes
  pub password : Option Bytes
  pub host_str : Option Bytes
  pub port : Option ℕ
  pub path : Bytes
  pub query : Option Bytes
  pub fragment : Option Bytes
  pub origin : Bytes

pub record Web : Type 0 where
  pub parse_url : Bytes → Option SiteUrl
  pub is_ip_addr : Bytes → Bool

-- The fields of the cloud settings that the route reads.
pub record CloudConfig : Type 0 where
  pub platform_url : Bytes
  pub broker : Bytes

pub record Saved : Type 0 where
  pub revision : ℕ
  pub route : Bytes
  pub broker : Bytes
  pub platform : Bytes

pub record SetCommand : Type 0 where
  pub protocol_version : ℤ
  pub request_id : Bytes
  pub action : Bytes
  pub route : Bytes
  pub broker : Bytes
  pub revision : ℕ

pub record Endpoints : Type 0 where
  pub primary : Bytes
  pub fallback : Option Bytes

-- Without a file the route is kept in memory alone.
pub record MqttRoute : Type 0 where
  pub file : Option (DiskFile Saved)
  pub saved : Saved
  pub on_fallback : Bool

-- The fields of the JSON object that `apply` answers.
pub record Reply : Type 0 where
  pub request_id : Bytes
  pub action : Bytes
  pub status : Bytes
  pub ok : Bool
  pub route : Bytes
  pub revision : ℕ
  pub via : Bytes
  pub applied : Option Bool
  pub error : Option Bytes

abbrev pub default_saved : Saved
default_saved = record { revision = 0; route = []; broker = []; platform = [] }

abbrev pub member_route : Bytes
member_route = codes "member"

abbrev pub free_route : Bytes
free_route = codes "free"

unfoldable pub is_alphanumeric : ℕ → Bool
is_alphanumeric b = is_digit b || (leb b'A' b && leb b b'Z') || (leb b'a' b && leb b b'z')

unfoldable pub topic : Bytes → Bool
unfolding is_alphanumeric
topic value =
    not (is_empty value)
    && leb (length value) 128
    && all (λ b. is_alphanumeric b || b == b'_' || b == b'.' || b == 32 || b == b'-') value

unfoldable pub is_route_set : SetCommand → Bool
is_route_set command = text_eq command.action (codes "mqtt.route.set")

unfoldable pub set_on_fallback : MqttRoute → Bool → MqttRoute
set_on_fallback s value = record s { on_fallback = value }

-- `store`; the first argument is whether the file takes the save.
unfoldable pub store : Bool → MqttRoute → Saved → Option MqttRoute
store saves s next = elim s.file [
  | none ↦ some (record s { saved = next })
  | some file ↦ if saves then some (record s { file = some (holds next); saved = next }) else none
]

unfoldable pub configured : CloudConfig → Endpoints
configured config = record { primary = config.broker; fallback = none }

abbrev pub port_zero : Option ℕ → Bool
port_zero none = false
port_zero (some n) = n == 0

module _ (web : Web) where
  unfoldable pub domain : Bytes → Bool
  domain host =
      not (starts_with (b'[' ∷ []) host)
      && not (web.is_ip_addr host)
      && contains b'.' host
      && not (ends_with (b'.' ∷ []) host)
      && not (text_eq host (codes "localhost"))
      && not (ends_with (codes ".localhost") host)

  unfoldable pub member_url : Bytes → SiteUrl → Bool
  unfolding domain
  member_url raw url = elim url.host_str [
    | none ↦ false
    | some host ↦
        leb (length raw) 512
        && text_eq url.scheme (codes "wss")
        && domain (lowercase host)
        && is_empty url.username
        && is_none url.password
        && is_none url.query
        && is_none url.fragment
        && not (port_zero url.port)
  ]

  -- `member_broker(raw).is_some()`: no caller uses the URL.
  unfoldable pub member_broker : Bytes → Bool
  unfolding member_url
  member_broker raw = elim (web.parse_url raw) [ none ↦ false | some url ↦ member_url raw url ]

  unfoldable pub origin_valid : SiteUrl → Bool
  origin_valid url = elim url.host_str [
    | none ↦ false
    | some host ↦
        text_eq url.scheme (codes "https")
        && not (contains b'*' host)
        && is_empty url.username
        && is_none url.password
        && one_of url.path ([] ∷ codes "/" ∷ [])
        && is_none url.query
        && is_none url.fragment
        && not (port_zero url.port)
  ]

  -- `is_ascii_control` and `is_ascii_whitespace` together are the bytes up to the space, and DEL.
  unfoldable pub https_origin : Bytes → Option SiteUrl
  unfolding origin_valid
  https_origin raw =
      if ltb 512 (length raw) || any (λ b. leb b 32 || b == 127) raw
      then none
      else elim (web.parse_url raw) [
        | none ↦ none
        | some url ↦ if origin_valid url then some url else none
      ]

  unfoldable pub platform_origin : CloudConfig → Option Bytes
  unfolding https_origin
  platform_origin config = elim (https_origin config.platform_url) [
    | none ↦ none
    | some url ↦ some url.origin
  ]

  unfoldable pub loadable : Saved → Bool
  unfolding member_broker
  loadable saved =
      (text_eq saved.route free_route && is_empty saved.broker)
      || (text_eq saved.route member_route && member_broker saved.broker)

  unfoldable pub loaded : DiskFile Saved → Saved
  unfolding loadable
  loaded (holds saved) = if loadable saved then saved else default_saved
  loaded _ = default_saved

  unfoldable pub load : DiskFile Saved → MqttRoute
  unfolding loaded
  load file = record { file = some file; saved = loaded file; on_fallback = false }

  unfoldable pub member : MqttRoute → CloudConfig → Option Bytes
  unfolding platform_origin member_broker
  member s config = elim (platform_origin config) [
    | none ↦ none
    | some platform ↦
        if text_eq s.saved.route member_route
          && text_eq platform s.saved.platform
          && member_broker s.saved.broker
        then some s.saved.broker
        else none
  ]

  unfoldable pub endpoints : MqttRoute → CloudConfig → Endpoints
  unfolding member configured
  endpoints s config = elim (member s config) [
    | none ↦ configured config
    | some broker ↦
        if not (text_eq broker config.broker)
        then record { primary = broker; fallback = some config.broker }
        else configured config
  ]

  -- The reply's part that `report` gives, and the rest of it.
  unfoldable pub reply : CloudConfig → SetCommand → MqttRoute → Bool → Bool → Option Bytes → Reply
  unfolding member
  reply config command s ok applied error = record {
    request_id = command.request_id;
    action = codes "mqtt.route.set";
    status = if ok then codes "ok" else codes "rejected";
    ok = ok;
    route = if is_some (member s config) then member_route else free_route;
    revision = s.saved.revision;
    via = if s.on_fallback then codes "fallback" else codes "primary";
    applied = if ok then some applied else none;
    error = error;
  }

  -- The broker that the command assigns, or the code of its rejection.
  unfoldable pub assigned : SetCommand → Bytes ⊎ Bytes
  unfolding member_broker
  assigned command =
      if text_eq command.route member_route
      then if member_broker command.broker then inr command.broker else inl (codes "invalid_broker")
      else if text_eq command.route free_route && is_empty command.broker
      then inr []
      else inl (codes "invalid_route")

  -- The part of `apply` behind the checks of the command.
  unfoldable pub assign :
      Bool → CloudConfig → MqttRoute → SetCommand → Bytes → Bytes → MqttRoute × Reply
  unfolding reply store
  assign saves config s command broker platform =
      let next : Saved = record {
        revision = command.revision;
        route = command.route;
        broker = broker;
        platform = platform;
      } in
      if leb command.revision s.saved.revision && text_eq s.saved.platform platform
      then (s, reply config command s true false none)
      else elim (store saves s next) [
        | none ↦ (s, reply config command s false false (some (codes "save_failed")))
        | some s' ↦ (s', reply config command s' true true none)
      ]

  unfoldable pub apply : Bool → CloudConfig → MqttRoute → SetCommand → MqttRoute × Reply
  unfolding assigned assign platform_origin topic is_route_set reply
  apply saves config s command =
      if not (is_int 1 command.protocol_version)
        || not (topic command.request_id)
        || not (is_route_set command)
      then (s, reply config command s false false (some (codes "invalid_request")))
      else elim (assigned command) [
        | inl code ↦ (s, reply config command s false false (some code))
        | inr broker ↦ elim (platform_origin config) [
          | none ↦ (s, reply config command s false false (some (codes "platform_unset")))
          | some platform ↦ assign saves config s command broker platform
        ]
      ]
