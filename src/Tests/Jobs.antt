-- ===== src/Tests/Jobs.antt =====
-- The daemon on concrete requests.
use netplan.Base.{
  ℕ, ap, ◌≡◌, refl, arith, true, false, none, some, List, [], ◌∷◌, ◌++◌, ok, err, Text, codes,
  text_eq,
}
use netplan.Config
use netplan.Protocol
use netplan.Protocol.{Request, JobSummary, DaemonStatus, running, succeeded}
use netplan.Protocol.Frames.{response_payload, encode_request, decode_response}
use netplan.Protocol.RoundTrip.{Sendable}
use netplan.Protocol.Convert.{error_code_to_wire}
use netplan.Platform.{PlatformError, platform_error, unsupported}
use netplan.Daemon.{Daemon, Platform, Context, JobRecord, now_unix_ms}
use netplan.Daemon.Jobs.{get}
use netplan.Daemon.Dispatch.{
  Answered, dispatch, config_action, dry_run_apply, handle_connection, platform_error_code,
  new_record,
}
use netplan.Daemon.Steps.{
  new, Step, Reachable, Consistent, call, start, after, Reachable-Consistent,
}
use netplan.Daemon.Draining.{Finishes, Over, Reachable-Drains}
use netplan.Daemon.Finality.{Final, Step-Final}
use netplan.Daemon.Calls.{handle_connection-serves}
use netplan.Tests.{ascii, office, wording}
use netplan.Tests.Configs.{decoders, document, document-parses}
use netplan.Tests.Frames.{codec, Known, codec-Documented, question, question-Sendable}

abbrev pub context : Text → Context
context id = record {
  decoders = decoders;
  unicode = ascii;
  wording = wording;
  show_error = λ e. codes "invalid";
  show_platform_error = λ (e : PlatformError). e.message;
  daemon_version = codes "1.0.0";
  new_v4 = id;
  since_epoch = some 1700;
  elapsed = 5;
}

abbrev pub willing : Platform
willing = record {
  capabilities = [];
  adapters = ok [];
  preflight = λ config. ok tt;
  wifi_status = λ index. ok [];
  wifi_scan = λ index refresh timeout. ok (ok (refresh, []));
}

abbrev pub live : Request
live = Protocol.config Protocol.apply_config Config.auto document false

abbrev dry : Request
dry = Protocol.config Protocol.apply_config Config.auto document true

-- The daemon after a dry run, and after a live apply has been accepted behind it.
abbrev rehearsed : Daemon
rehearsed = (dispatch (context (codes "a")) willing dry (new none)).daemon

abbrev applying : Daemon
applying = (dispatch (context (codes "b")) willing live rehearsed).daemon

rehearsed-Reachable : Reachable rehearsed
rehearsed-Reachable = after (start none) (call (context (codes "a")) willing dry (new none) refl)

rehearsal-answered :
    dispatch (context (codes "a")) willing dry (new none)
    ≡ dry_run_apply (context (codes "a")) office (new none)
unfolding dispatch config_action
rehearsal-answered = rw document-parses refl

b-fresh : get (codes "b") rehearsed.jobs ≡ none
unfolding dry_run_apply text_eq
b-fresh = ap (λ (a : Answered). get (codes "b") a.daemon.jobs) rehearsal-answered

live-Step : Step rehearsed applying
live-Step = call (context (codes "b")) willing live rehearsed b-fresh

applying-Reachable : Reachable applying
applying-Reachable = after rehearsed-Reachable live-Step

Reachable-Consistent_example : Consistent applying
Reachable-Consistent_example = Reachable-Consistent applying applying-Reachable

abbrev rehearsal : JobRecord
rehearsal = new_record succeeded (codes "dry-run completed; no system state was changed") 1700

a-Final : Final (codes "a") rehearsal rehearsed
unfolding dry_run_apply text_eq now_unix_ms
a-Final = (ap (λ (a : Answered). get (codes "a") a.daemon.jobs) rehearsal-answered, λ q. cc)

Step-Final_example : Final (codes "a") rehearsal applying
Step-Final_example = Step-Final rehearsed-Reachable live-Step (codes "a") rehearsal a-Final

-- A daemon with one job.
abbrev pub single : Daemon
single = record {
  jobs = (codes "a", rehearsal) ∷ [];
  tasks = [];
  started_at_unix_ms = 1600;
  shutdown = false;
}

abbrev pub failure : PlatformError
failure = platform_error unsupported (codes "no driver")

-- What the connection of a Wi-Fi question answers, on a platform that knows no answer.
abbrev pub mute : Platform
mute = record willing { wifi_status = λ index. err failure }

abbrev pub no_answer : Answered
no_answer = dispatch (context (codes "c")) mute question single

pub no_answer-Sendable : Sendable codec Known 42 (response_payload no_answer.response)
unfolding dispatch platform_error_code error_code_to_wire
no_answer-Sendable = ((refl, refl), omega arith, omega arith)

handle_connection-serves_example :
    ((handle_connection codec
        (context (codes "c"))
        mute
        (encode_request codec 42 question ++ [])
        single).daemon
      ≡ no_answer.daemon)
    × (bytes : List ℕ) × ((handle_connection codec
          (context (codes "c"))
          mute
          (encode_request codec 42 question ++ [])
          single).written
        ≡ ok bytes)
    × (decode_response codec bytes ≡ ok (record { request_id = 42; payload = no_answer.response }))
handle_connection-serves_example =
    handle_connection-serves codec Known codec-Documented (context (codes "c")) mute single 42
      question [] question-Sendable no_answer-Sendable

Reachable-Drains_example :
    (last : Daemon) × Finishes (λ id. err (codes "lost")) none applying last
    × (last.tasks ≡ [])
    × ((id : Text) (job : JobRecord) → get id last.jobs ≡ some job → Over job)
Reachable-Drains_example =
    Reachable-Drains (λ id. err (codes "lost")) none applying applying-Reachable
