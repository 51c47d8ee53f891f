-- ===== src/Tests/Consoles.antt =====
-- The command line on concrete inputs: a machine that is a counter of calls.
use netplan.Base.{
  ℕ, ◌+◌, ◌≤◌, ◌≡◌, ◌⊎◌, refl, arith, true, false, some, List, [], ◌∷◌, All, length, leb,
  if◌then◌else◌, Text, codes, text_eq, Result, ok, err,
}
use netplan.Protocol.{Request, Response}
use netplan.Protocol
use netplan.Output.{wrap_text, place_words, place_word, chunk_word, wrap_lines}
use netplan.Output.Wrapping.{letters, joined, wrap_text-Wraps}
use netplan.Output.Answers.{LifecycleResult}
use netplan.Cli.{
  Env, CallError, io_error, not_found, missing, pure, fail, ◌>>=◌, is_endpoint_absent,
}
use netplan.Cli.Services.{is_installed, service_running, poll_state, wait_for_state}
use netplan.Cli.Lifecycle.{
  start, execute, start_installed_service, start_daemon, daemon_is_ready, wait_until_ready,
  attempt_ready,
}
use netplan.Cli.Commands.{spawn_daemon, spawn_daemon_elevated, retry, call_with_autostart}
use netplan.Cli.Interactive.{split_command_line, step, run}
use netplan.Cli.Words.{quoted_line, split_command_line-quoted_line}
use netplan.Cli.Answered.{Concludes, call_with_autostart-Concludes}
use netplan.Cli.Deadlines.{Waited, wait_for_state-Waited}
use netplan.Cli.Settled.{Settles, execute-Settles}

wrap_text-Wraps_example :
    All (λ line. length line ≤ 4) (wrap_text (codes "ab cd efghij") 4)
    × ((letters (joined (wrap_text (codes "ab cd efghij") 4)) ≡ letters (codes "ab cd efghij"))
        ⊎ ((letters (codes "ab cd efghij") ≡ [])
            × (wrap_text (codes "ab cd efghij") 4 ≡ codes "-" ∷ [])))
wrap_text-Wraps_example = wrap_text-Wraps (codes "ab cd efghij") 4 (omega arith)

wrapped : wrap_text (codes "ab c efghij") 4 ≡ codes "ab c" ∷ codes "efgh" ∷ codes "ij" ∷ []
unfolding wrap_text wrap_lines place_words place_word chunk_word
wrapped = refl

abbrev two_words : List Text
two_words = codes "a b" ∷ codes "c\"\\" ∷ []

split_command_line-quoted_line_example : split_command_line (quoted_line two_words) ≡ ok two_words
split_command_line-quoted_line_example =
    split_command_line-quoted_line two_words ((λ e. cc), ((λ e. cc), tt))

-- A quoted word that is empty is lost.
empty_word_lost : split_command_line (codes "job \"\"") ≡ ok (codes "job" ∷ [])
unfolding split_command_line step run
empty_word_lost = refl

abbrev answer : Request → ℕ → Result CallError Response
answer request calls =
    if leb 2 calls
    then ok (Protocol.pong (codes "1") 1)
    else err (io_error not_found (codes "absent"))

-- The daemon answers from the third call on.
abbrev desk : Env ℕ
desk = record {
  endpoint = codes "e";
  default_endpoint = codes "e";
  debug = λ t. t;
  debug_code = λ c. [];
  debug_response = λ r. [];
  call = λ request calls. (answer request calls, calls + 1);
  sleep = λ ms calls. calls;
  now = λ calls. calls;
  is_elevated = pure true;
  run_as_administrator = λ arguments. pure (some 0);
  start_sibling = λ endpoint. pure tt;
  daemon_program = pure (codes "netpland.exe");
  read_file = λ path. fail (codes "absent");
  open_manager = pure tt;
  open_service = λ calls. (missing, calls);
  change_config = λ program. pure tt;
  create_service = λ program. pure tt;
  delete_service = pure tt;
  query_state = pure 1;
  start_service = λ calls. (ok tt, calls);
  control_stop = λ calls. (ok tt, calls);
}

abbrev started : LifecycleResult
started = record {
  action = codes "start";
  mode = codes "background-process";
  installed = false;
  state = codes "running";
  message = codes "started sibling netpland in the background";
}

execute-Settles_example : Settles desk start started 3
unfolding execute start_daemon is_installed ◌>>=◌ daemon_is_ready wait_until_ready attempt_ready
    spawn_daemon spawn_daemon_elevated is_endpoint_absent text_eq start_installed_service
execute-Settles_example = execute-Settles desk (spawn_daemon desk) start started 0 3 refl

-- The daemon is started after the first call, and answers the third.
call_with_autostart-Concludes_example :
    Concludes desk Protocol.ping false
      (err (io_error not_found (codes "absent")), 1)
      (ok (Protocol.pong (codes "1") 1), 3)
unfolding call_with_autostart retry ◌>>=◌ spawn_daemon spawn_daemon_elevated start_installed_service
    is_endpoint_absent is_installed text_eq
call_with_autostart-Concludes_example = call_with_autostart-Concludes desk Protocol.ping false 0

-- A service that is running 250 milliseconds after the start, by a clock that is the state
abbrev starting : Env ℕ
starting = record desk {
  sleep = λ ms clock. clock + ms;
  query_state = λ clock. (ok (if leb 250 clock then 4 else 2), clock);
}

wait_for_state-Waited_example : Waited starting service_running 30000 (ok tt, 300)
unfolding wait_for_state poll_state
wait_for_state-Waited_example =
    wait_for_state-Waited starting service_running (λ t. omega arith) (λ ms t. omega arith) 0
