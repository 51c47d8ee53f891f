-- ===== src/Daemon/Dispatch.antt =====
-- crates/netpland/src/main.rs: `dispatch` and what it calls, with the end of the task that a live
-- apply starts, and `handle_connection`.
use netplan.Base.{
  ℕ, between, Bool, true, false, not, Option, none, some, List, [], ◌∷◌, ◌++◌, keep, if◌then◌else◌,
  Result, ok, err, ◌>>=◌, Text, text_eq, codes,
}
use netplan.Error.{Error}
use netplan.Config.{NetplanConfig}
use netplan.Config.Parse.{parse}
use netplan.Plan.Operations.{build_plan}
use netplan.Platform
use netplan.Platform.{PlatformErrorKind, PlatformError, ApplyReport, PlatformResult}
use netplan.Model.{AdapterInfo, WifiInterfaceStatus, WifiNetwork}
use netplan.Protocol
use netplan.Protocol.{
  ConfigAction, validate_only, plan_only, apply_config, Request, Response, ErrorCode, JobState,
  running, succeeded, failed, rolled_back, Frame,
}
use netplan.Protocol.Frames.{
  protocol_version, FlatBuffers, read_frame, write_frame, decode_request, encode_response,
}
use netplan.Daemon.{JobRecord, Task, Daemon, Platform, Context, now_unix_ms}
use netplan.Daemon.Jobs.{insert, get, modify, daemon_status, list_jobs}

-- What a call leaves: the daemon after it, and its answer.
pub record Answered : Type 0 where
  pub daemon : Daemon
  pub response : Response

unfoldable pub platform_error_code : PlatformErrorKind → ErrorCode
platform_error_code Platform.invalid_config = Protocol.invalid_config
platform_error_code Platform.unsupported = Protocol.unsupported
platform_error_code Platform.permission_denied = Protocol.permission_denied
platform_error_code Platform.not_found = Protocol.not_found
platform_error_code Platform.internal = Protocol.internal

abbrev pub platform_error_response : PlatformError → Response
platform_error_response error = Protocol.error (platform_error_code error.kind) error.message

-- A record of the state given, created and updated at `now`.
abbrev pub new_record : JobState → Text → ℕ → JobRecord
new_record state message now = record {
  state = state;
  message = some message;
  created_at_unix_ms = now;
  updated_at_unix_ms = now;
}

module _ (context : Context) where
  unfoldable pub dry_run_apply : NetplanConfig → Daemon → Answered
  dry_run_apply config daemon = record {
    daemon = record daemon {
      jobs =
          insert context.new_v4
            (new_record succeeded (codes "dry-run completed; no system state was changed")
              (now_unix_ms context.since_epoch))
            daemon.jobs;
    };
    response = Protocol.apply context.new_v4 succeeded (build_plan context.wording config);
  }

  unfoldable pub apply_live : NetplanConfig → Daemon → Answered
  apply_live config daemon = record {
    daemon = record daemon {
      jobs =
          insert context.new_v4
            (new_record running (codes "live apply is running") (now_unix_ms context.since_epoch))
            daemon.jobs;
      tasks = daemon.tasks ++ record { job_id = context.new_v4; config = config } ∷ [];
    };
    response = Protocol.apply context.new_v4 running (build_plan context.wording config);
  }

  abbrev pub after_preflight : NetplanConfig → Daemon → PlatformResult (Unit {0}) → Answered
  after_preflight config daemon (ok u) = apply_live config daemon
  after_preflight config daemon (err e) = record {
    daemon = daemon;
    response = platform_error_response e;
  }

  unfoldable pub config_action : Platform → ConfigAction → Bool → NetplanConfig → Daemon → Answered
  config_action platform validate_only dry_run config daemon = record {
    daemon = daemon;
    response = Protocol.validation true [];
  }
  config_action platform plan_only dry_run config daemon = record {
    daemon = daemon;
    response = Protocol.plan (build_plan context.wording config);
  }
  config_action platform apply_config true config daemon = dry_run_apply config daemon
  config_action platform apply_config false config daemon =
      after_preflight config daemon (platform.preflight config)

  abbrev pub parse_failure : ConfigAction → Error → Response
  parse_failure validate_only error =
      Protocol.validation false (record { path = none; message = context.show_error error } ∷ [])
  parse_failure plan_only error = Protocol.error Protocol.invalid_config (context.show_error error)
  parse_failure apply_config error =
      Protocol.error Protocol.invalid_config (context.show_error error)

  abbrev pub config_request :
      Platform → ConfigAction → Bool → Result Error NetplanConfig → Daemon → Answered
  config_request platform action dry_run (ok config) daemon =
      config_action platform action dry_run config daemon
  config_request platform action dry_run (err error) daemon = record {
    daemon = daemon;
    response = parse_failure action error;
  }

  abbrev pub job_status : Text → Option JobRecord → Response
  job_status job_id (some job) = Protocol.job_status_response job_id job.state job.message
  job_status job_id none =
      Protocol.error Protocol.not_found
        (codes "job " ++ context.wording.debug job_id ++ codes " does not exist")

  abbrev pub internal_error : PlatformError → Response
  internal_error error = Protocol.error Protocol.internal (context.show_platform_error error)

  abbrev pub list_adapters : PlatformResult (List AdapterInfo) → Response
  list_adapters (ok adapters) = Protocol.adapters adapters
  list_adapters (err error) = internal_error error

  abbrev pub network_status_of :
      List AdapterInfo → PlatformResult (List WifiInterfaceStatus) → Response
  network_status_of adapters (ok interfaces) =
      Protocol.network_status_response (now_unix_ms context.since_epoch) adapters interfaces none
  network_status_of adapters (err error) =
      Protocol.network_status_response (now_unix_ms context.since_epoch) adapters []
        (some error.message)

  abbrev pub network_status : Platform → PlatformResult (List AdapterInfo) → Response
  network_status platform (ok adapters) = network_status_of adapters (platform.wifi_status none)
  network_status platform (err error) = internal_error error

  abbrev pub wifi_status : PlatformResult (List WifiInterfaceStatus) → Response
  wifi_status (ok interfaces) = Protocol.wifi_status_response interfaces
  wifi_status (err error) = platform_error_response error

  abbrev pub wifi_scan : Result Text (PlatformResult (Bool × List WifiNetwork)) → Response
  wifi_scan (ok (ok (refreshed, networks))) = Protocol.wifi_networks refreshed networks
  wifi_scan (ok (err error)) = platform_error_response error
  wifi_scan (err error) =
      Protocol.error Protocol.internal (codes "Wi-Fi scan task failed: " ++ error)

  unfoldable pub dispatch : Platform → Request → Daemon → Answered
  dispatch platform Protocol.ping daemon = record {
    daemon = daemon;
    response = Protocol.pong context.daemon_version protocol_version;
  }
  dispatch platform Protocol.daemon_status daemon = record {
    daemon = daemon;
    response = daemon_status context daemon;
  }
  dispatch platform Protocol.capabilities daemon = record {
    daemon = daemon;
    response = Protocol.capabilities_response platform.capabilities;
  }
  dispatch platform Protocol.list_adapters daemon = record {
    daemon = daemon;
    response = list_adapters platform.adapters;
  }
  dispatch platform (Protocol.config action format document dry_run) daemon =
      config_request platform action dry_run
        (parse context.decoders context.unicode document format) daemon
  dispatch platform (Protocol.job_status job_id) daemon = record {
    daemon = daemon;
    response = job_status job_id (get job_id daemon.jobs);
  }
  dispatch platform (Protocol.list_jobs state limit) daemon = record {
    daemon = daemon;
    response = list_jobs daemon state limit;
  }
  dispatch platform Protocol.network_status daemon = record {
    daemon = daemon;
    response = network_status platform platform.adapters;
  }
  dispatch platform (Protocol.wifi_status if_index) daemon = record {
    daemon = daemon;
    response = wifi_status (platform.wifi_status if_index);
  }
  dispatch platform (Protocol.wifi_scan if_index refresh timeout_ms) daemon = record {
    daemon = daemon;
    response =
        if between 250 15000 timeout_ms
        then wifi_scan (platform.wifi_scan if_index refresh timeout_ms)
        else Protocol.error Protocol.invalid_request
            (codes "Wi-Fi scan timeout_ms must be between 250 and 15000");
  }
  dispatch platform Protocol.shutdown daemon = record {
    daemon = daemon;
    response = Protocol.shutdown_accepted;
  }

-- How a task ended: what `platform.apply` returned, or the text of the join error.
abbrev pub Execution : Type 0
Execution = Result Text (PlatformResult ApplyReport)

unfoldable pub outcome : Execution → JobState × Option Text
outcome (ok (ok report)) = (succeeded, some report.message)
outcome (ok (err error)) = (if error.rolled_back then rolled_back else failed, some error.message)
outcome (err error) = (failed, some (codes "platform execution task failed: " ++ error))

abbrev pub finish_record : Execution → ℕ → JobRecord → JobRecord
finish_record execution now job = record job {
  state = (outcome execution).0;
  message = (outcome execution).1;
  updated_at_unix_ms = now;
}

-- The end of the task of a job, which is then no longer among the tasks.
unfoldable pub finish_task : Text → Execution → Option ℕ → Daemon → Daemon
finish_task id execution since_epoch daemon = record daemon {
  jobs = modify (finish_record execution (now_unix_ms since_epoch)) id daemon.jobs;
  tasks = keep (λ (task : Task). not (text_eq id task.job_id)) daemon.tasks;
}

abbrev pub is_shutdown : Request → Bool
is_shutdown Protocol.shutdown = true
is_shutdown other = false

unfoldable pub request_shutdown : Daemon → Daemon
request_shutdown daemon = record daemon { shutdown = true }

-- What a connection leaves: the daemon, and the bytes that it has written or its error.
pub record Served : Type 0 where
  pub daemon : Daemon
  pub written : Result Error (List ℕ)

abbrev pub written_to : Bool → Daemon → Result Error (List ℕ) → Served
written_to stop daemon (ok bytes) = record {
  daemon = if stop then request_shutdown daemon else daemon;
  written = ok bytes;
}
written_to stop daemon (err error) = record { daemon = daemon; written = err error }

module _ (flatbuffers : FlatBuffers) (context : Context) (platform : Platform) where
  abbrev pub serve_request : Result Error (Frame Request) → Daemon → Served
  serve_request (err error) daemon = record { daemon = daemon; written = err error }
  serve_request (ok frame) daemon =
      let answered = dispatch context platform frame.payload daemon in
      written_to (is_shutdown frame.payload) answered.daemon
        (write_frame [] (encode_response flatbuffers frame.request_id answered.response))

  -- The stream holds what the client has sent.
  unfoldable pub handle_connection : List ℕ → Daemon → Served
  handle_connection stream daemon =
      serve_request (read_frame stream >>= λ p. decode_request flatbuffers p.0) daemon
