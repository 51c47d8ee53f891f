-- ===== src/Rpc/Requests.antt =====
-- crates/netplan-cli/src/jsonrpc.rs: `handle`, and `serve`, the loop over the lines of the input.
use netplan.Base.{
  ◌==◌, not, Bool, true, false, Option, none, some, List, [], ◌∷◌, is_nil, if◌then◌else◌, Text,
  text_eq, codes, trim, Unicode, Result, ok, err,
}
use netplan.Rpc.{Value, null, number, string, neg_int, RpcError, RpcRequest, RpcCommand, Serde}
use netplan.Rpc.Commands.{RpcResult, map_command}
use netplan.Rpc.Answers.{error_response, result_response}
use netplan.Rpc.Gateway.{Host, Outcome, done, failure, unfinished, execute_command}

-- What `handle` gives: no answer, an answer, or no end.
pub data Handled : Type 0 where
  silent : Handled
  reply : Value → Handled
  unending : Handled

abbrev pub id_allowed : Value → Bool
id_allowed null = true
id_allowed (string text) = true
id_allowed (number n) = true
id_allowed _ = false

abbrev pub id_value : Option Value → Value
id_value none = null
id_value (some id) = id

-- `(!notification).then(…)`
abbrev pub unless_notification : Option Value → Value → Handled
unless_notification none answer = silent
unless_notification (some id) answer = reply answer

abbrev pub invalid_request : Option Value → RpcError
invalid_request extra = record {
  code = neg_int 32600;
  message = codes "Invalid Request";
  extra = extra;
}

abbrev pub concluded : Option Value → Outcome Value → Handled
concluded id unfinished = unending
concluded id (done result) = unless_notification id (result_response (id_value id) result)
concluded id (failure error) = unless_notification id (error_response (id_value id) error)

abbrev parse_error : Text → RpcError
parse_error message = record {
  code = neg_int 32700;
  message = codes "Parse error";
  extra = some (string message);
}

-- What `serve` leaves: the lines written, and how it ended.
pub data Ended : Type 0 where
  finished : Ended
  stopped : Text → Ended
  endless : Ended

pub record Session : Type 0 where
  pub written : List Text
  pub ended : Ended

-- `line.strip_prefix('\u{feff}').unwrap_or(&line)`
abbrev pub without_mark : Text → Text
without_mark [] = []
without_mark (c ∷ line) = if c == 0xfeff then line else c ∷ line

abbrev after_line : Text → Session → Session
after_line line session = record session { written = line ∷ session.written }

abbrev stop : Ended → Session
stop ended = record { written = []; ended = ended }

module _ {S : Type 0} (serde : Serde) (unicode : Unicode) (host : Host S) where
  abbrev pub commanded : Option Value → RpcResult RpcCommand → S → Handled × S
  commanded id (err error) s = (unless_notification id (error_response (id_value id) error), s)
  commanded id (ok command) s =
      let (outcome, s') = execute_command serde unicode host command s in (concluded id outcome, s')

  unfoldable pub handle : RpcRequest → S → Handled × S
  handle rpc s =
      if not (id_allowed (id_value rpc.id))
      then (
        reply (
            error_response null
              (invalid_request (some (string (codes "id must be a string, number, or null"))))),
        s,
      )
      else if not (text_eq rpc.jsonrpc (codes "2.0"))
      then (unless_notification rpc.id (error_response (id_value rpc.id) (invalid_request none)), s)
      else commanded rpc.id (map_command serde rpc.method rpc.params) s

  abbrev pub parsed : Result Text RpcRequest → S → Handled × S
  parsed (ok request) s = handle request s
  parsed (err message) s = (reply (error_response null (parse_error message)), s)

  abbrev written_line : (S → Session × S) → Result Text Text → S → Session × S
  written_line rest (ok line) s = let (session, s') = rest s in (after_line line session, s')
  written_line rest (err message) s = (stop (stopped message), s)

  abbrev pub continued : (S → Session × S) → Handled × S → Session × S
  continued rest (silent, s) = rest s
  continued rest (reply answer, s) = written_line rest (serde.to_string answer) s
  continued rest (unending, s) = (stop endless, s)

  -- Over the lines that the input gives, the last of which may be an error; a line is written with
  -- its end at once.
  unfoldable pub serve : List (Result Text Text) → S → Session × S
  serve [] s = (stop finished, s)
  serve (err message ∷ lines) s = (stop (stopped message), s)
  serve (ok line ∷ lines) s =
      let rest = serve lines in
      if is_nil (trim (without_mark line))
      then rest s
      else continued rest (parsed (serde.request (without_mark line)) s)
