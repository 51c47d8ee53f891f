-- ===== src/Tests/Gateways.antt =====
-- The gateway on concrete requests: a host that is a clock, with two adapters and a job that ends.
use netplan.Base.{
  ℕ, ◌+◌, leb, ◌≡◌, ◌↔◌, refl, arith, true, false, if◌then◌else◌, none, some, [], ◌∷◌, any, Text,
  text_eq, codes, Result, ok, err,
}
use netplan.Model.{AdapterInfo}
use netplan.Config
use netplan.Config.Parse.{parse}
use netplan.Daemon.{Daemon}
use netplan.Daemon.Dispatch.{dispatch}
use netplan.Protocol.{Request, Response, running, succeeded}
use netplan.Protocol
use netplan.Rpc.{
  Value, null, string, RpcRequest, JobWaitParams, AdapterSelectorParams, job_wait, Serde,
}
use netplan.Rpc.Commands.{
  method_not_found, rpc_methods, map_command, require_non_empty, validate_range, parse_params,
  normalize_mac,
}
use netplan.Rpc.Answers.{adapter_matches}
use netplan.Rpc.Gateway.{Host, done, inspect_config, get_adapter, wait_for_job}
use netplan.Rpc.Requests.{handle}
use netplan.Rpc.Bounds.{Bounded, map_command-Bounded}
use netplan.Rpc.Methods.{map_command-not_found_iff}
use netplan.Rpc.Waiting.{Timely, Waits, wait_for_job-Waits}
use netplan.Rpc.Replies.{Answers, handle-Answers}
use netplan.Rpc.Lookups.{OnlyOne, get_adapter-OnlyOne}
use netplan.Rpc.Inspection.{inspected, inspect_config-inspected}
use netplan.Tests.{ascii}
use netplan.Tests.Configs.{document}
use netplan.Tests.Jobs.{context, willing, single}

abbrev patience : JobWaitParams
patience = record { job_id = codes "a"; timeout_ms = some 200; interval_ms = some 50 }

abbrev unread : {A : Type 0} → Value → Result Text A
unread v = err (codes "unread")

abbrev text_of : Value → Result Text Text
text_of (string text) = ok text
text_of v = err (codes "no text")

abbrev serde : Serde
serde = record {
  request = λ line. err (codes "unread");
  config_params = unread;
  job_params = text_of;
  job_list_params = unread;
  job_wait_params = λ v. ok patience;
  name_params = text_of;
  adapter_selector_params = unread;
  example_params = unread;
  wifi_status_params = unread;
  wifi_scan_params = unread;
  to_string = text_of;
  contract = ok null;
  package_version = codes "1";
  debug = λ t. t;
  debug_response = λ r. [];
  capability = λ c. string c.name;
  adapter = λ a. string a.name;
  wifi_interface = λ w. null;
  wifi_network = λ w. null;
  issue = λ i. string i.message;
  operation = λ o. string o.id;
  job_state = λ s. null;
  job = λ j. null;
}

abbrev adapter : ℕ → Text → AdapterInfo
adapter if_index name = record {
  if_index = if_index;
  name = name;
  description = none;
  guid = none;
  mac_address = some (codes "02-11-22-33-44-5F");
  status = codes "up";
  hardware = true;
  ipv4 = [];
  ipv6 = [];
}

-- The job runs until 100 milliseconds.
abbrev respond : Request → ℕ → Response
respond (Protocol.job_status job_id) now =
    Protocol.job_status_response job_id (if leb 100000000 now then succeeded else running) none
respond request now = Protocol.adapters (adapter 3 (codes "lan") ∷ adapter 4 (codes "wan") ∷ [])

abbrev host : Host ℕ
host = record {
  call_daemon = λ request now. (ok (respond request now), now);
  call_within = λ ns request now. (some (ok (respond request now)), now);
  now = λ now. now;
  sleep = λ ns now. now + ns;
}

host-Timely : Timely host
host-Timely = record { calls_later = λ ns job_id s. omega arith; sleeps_long = λ ns s. omega arith }

abbrev wait_request : RpcRequest
wait_request = record {
  jsonrpc = codes "2.0";
  id = some (string (codes "7"));
  method = codes "netplan.job.wait";
  params = null;
}

handle-Answers_example :
    Answers (some (string (codes "7"))) (handle serde ascii host wait_request 0).0
handle-Answers_example = handle-Answers serde ascii host host-Timely wait_request 0

wait_for_job-Waits_example :
    Waits serde ascii host (codes "a") (wait_for_job serde ascii host patience 0).0
wait_for_job-Waits_example =
    wait_for_job-Waits serde ascii host host-Timely patience 0 (omega arith)

map_command-Bounded_example : Bounded serde null (job_wait patience)
unfolding map_command text_eq parse_params require_non_empty validate_range
map_command-Bounded_example =
    map_command-Bounded serde null (codes "netplan.job.wait") (job_wait patience) refl

map_command-not_found_iff_example :
    map_command serde (codes "netplan.jobs") null ≡ err method_not_found
    ↔ any (λ name. text_eq (codes "netplan.jobs") name) rpc_methods ≡ false
map_command-not_found_iff_example = map_command-not_found_iff serde null (codes "netplan.jobs")

abbrev named_wan : AdapterSelectorParams
named_wan = record {
  if_index = none;
  name = some (codes "WAN");
  guid = none;
  mac_address = some (codes "0211:2233:445f");
  description_contains = none;
}

get_adapter-OnlyOne_example :
    (get_adapter serde ascii host named_wan 0).0 ≡ done (string (codes "wan")) ↔ (
      (a : AdapterInfo) × OnlyOne
        (λ b. adapter_matches ascii b named_wan)
        (adapter 3 (codes "lan") ∷ adapter 4 (codes "wan") ∷ [])
        a
      × (string (codes "wan") ≡ serde.adapter a))
get_adapter-OnlyOne_example =
    get_adapter-OnlyOne serde ascii host named_wan 0 0
      (adapter 3 (codes "lan") ∷ adapter 4 (codes "wan") ∷ []) (string (codes "wan")) refl

wan_found : (get_adapter serde ascii host named_wan 0).0 ≡ done (string (codes "wan"))
unfolding get_adapter adapter_matches text_eq normalize_mac
wan_found = refl

abbrev daemon_host : Host Daemon
daemon_host = record {
  call_daemon = λ request daemon. (
    ok (dispatch (context (codes "a")) willing request daemon).response,
    (dispatch (context (codes "a")) willing request daemon).daemon,
  );
  call_within = λ ns request daemon. (none, daemon);
  now = λ daemon. 0;
  sleep = λ ns daemon. daemon;
}

inspect_config-inspected_example :
    inspect_config serde ascii daemon_host document Config.auto single ≡ (
      done (
          inspected serde (context (codes "a")) (
            parse
              (context (codes "a")).decoders
              (context (codes "a")).unicode
              document
              Config.auto)),
      single,
    )
inspect_config-inspected_example =
    inspect_config-inspected serde (context (codes "a")) ascii willing daemon_host
      (λ request daemon. refl) document Config.auto single
