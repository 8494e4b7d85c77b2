-- ===== src/Tests/Route.antt =====
-- The MQTT route at concrete inputs.
use zwrt_datad.Prelude.{◌≡◌, refl, ◌⊎◌, true, false, none, some, List, [], ◌∷◌, if◌then◌else◌}
use zwrt_datad.Prelude.Int.{pos}
use zwrt_datad.Prelude.Text.{
  Bytes, codes, text_eq, starts_with, ends_with, contains, lowercase, one_of, is_digit,
}
use zwrt_datad.Storage.{missing}
use zwrt_datad.Tasks.Params.{is_int}
use zwrt_datad.Route.{
  Web, SiteUrl, CloudConfig, Saved, SetCommand, MqttRoute, load, loaded, apply, endpoints, member,
  member_route, configured, platform_origin, https_origin, origin_valid, member_broker, member_url,
  domain, topic, is_alphanumeric, is_route_set, assigned, assign, store, reply,
}
use zwrt_datad.Route.Trace.{Sample, commanded, restarted, step, run}
use zwrt_datad.Route.Newest.{newest, run-newest}
use zwrt_datad.Route.Settled.{Outcome, apply-Outcome}
use zwrt_datad.Route.Endpoint.{WasAsked, endpoints_lem}

abbrev site : Bytes → Bytes → SiteUrl
site scheme host = record {
  scheme = scheme;
  username = [];
  password = none;
  host_str = some host;
  port = none;
  path = codes "/";
  query = none;
  fragment = none;
  origin = codes "https://nms.example.com";
}

abbrev test_web : Web
test_web = record {
  parse_url = λ raw. some (
      if starts_with (codes "wss:") raw
      then site (codes "wss") (codes "a.example.com")
      else site (codes "https") (codes "nms.example.com"));
  is_ip_addr = λ host. false;
}

abbrev settings : CloudConfig
settings = record {
  platform_url = codes "https://nms.example.com";
  broker = codes "wss://nms.example.com/mqtt";
}

abbrev set_member : SetCommand
set_member = record {
  protocol_version = pos 1;
  request_id = codes "r-1";
  action = codes "mqtt.route.set";
  route = codes "member";
  broker = codes "wss://a.example.com:16001/mqtt";
  revision = 5;
}

abbrev calls : List Sample
calls =
    record { saves = true; event = commanded settings set_member }
    ∷ record {
      saves = true;
      event = commanded settings (record set_member { route = codes "free"; revision = 4 });
    }
    ∷ record { saves = false; event = restarted }
    ∷ []

member_first : endpoints test_web (run test_web (load test_web missing) calls) settings ≡ record {
  primary = codes "wss://a.example.com:16001/mqtt";
  fallback = some (codes "wss://nms.example.com/mqtt");
}
unfolding endpoints run step load loaded apply assign assigned store reply member configured
    platform_origin https_origin origin_valid member_broker member_url domain topic is_alphanumeric
    is_route_set text_eq starts_with ends_with contains lowercase one_of is_digit is_int
member_first = refl

run-newest_example :
    (run test_web (load test_web missing) calls).saved
    ≡ newest test_web (loaded test_web missing) calls
run-newest_example = run-newest test_web missing calls

endpoints_lem_example :
    let e = endpoints test_web (run test_web (load test_web missing) calls) settings in
    (e ≡ configured settings)
    ⊎ ((e.fallback ≡ some settings.broker)
        × (text_eq e.primary settings.broker ≡ false)
        × (member_broker test_web e.primary ≡ true)
        × ((a : Saved) × WasAsked test_web calls a
            × (a.route ≡ member_route)
            × (e.primary ≡ a.broker)
            × (platform_origin test_web settings ≡ some a.platform)))
endpoints_lem_example = endpoints_lem test_web calls settings

abbrev held : MqttRoute
held = record {
  file = some missing;
  saved = record { revision = 7; route = codes "free"; broker = []; platform = [] };
  on_fallback = false;
}

apply-Outcome_example :
    Outcome test_web settings held set_member true (apply test_web true settings held set_member)
apply-Outcome_example = apply-Outcome test_web settings held set_member true missing refl
