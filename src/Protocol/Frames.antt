-- ===== src/Protocol/Frames.antt =====
-- Frames: their encoding, decoding, reading and writing in protocol/mod.rs. The FlatBuffers
-- library is a parameter, and so is the code generated from the schema that drives it.
use netplan.Base.{
  ℕ, ◌+◌, ◌*◌, ◌/◌, ◌%◌, ◌==◌, ltb, Bool, true, false, not, ◌||◌, Option, none, some, List, [], ◌∷◌,
  ◌++◌, map, if◌then◌else◌, length, take, drop, Result, ok, err, ◌>>=◌, ◌>>◌, fail_if, map_err,
  collect, Text, codes, text_eq,
}
use netplan.Error.{
  Error, protocol, io, frame_too_long, missing_prefix, invalid_length, missing_identifier,
  malformed, unsupported_protocol, not_a_request, not_a_response,
}
use netplan.Protocol
use netplan.Protocol.{Frame, Request, Response, JobState, queued}
use netplan.Protocol.Wire
use netplan.Protocol.Wire.{PayloadT, EnvelopeT}
use netplan.Protocol.Convert.{
  then_some, has, or_zero, config_action_to_wire, config_action_from_wire, config_format_to_wire,
  config_format_from_wire, capability_to_wire, capability_from_wire, adapter_to_wire,
  adapter_from_wire, wifi_interface_status_to_wire, wifi_interface_status_from_wire,
  wifi_network_to_wire, wifi_network_from_wire, operation_to_wire, operation_from_wire,
  job_state_to_wire, job_state_from_wire, job_summary_to_wire, job_summary_from_wire,
  error_code_to_wire, error_code_from_wire, issue_to_wire, issue_from_wire,
}

abbrev pub max_frame_size : ℕ
max_frame_size = 16777216

-- `PROTOCOL_VERSION` of lib.rs
abbrev pub protocol_version : ℕ
protocol_version = 1

-- `u32::from_le_bytes` and `to_le_bytes`
abbrev pub from_le_bytes : ℕ → ℕ → ℕ → ℕ → ℕ
from_le_bytes a b c d = a + 256 * b + 65536 * c + 16777216 * d

abbrev pub to_le_bytes : ℕ → List ℕ
to_le_bytes n = n % 256 ∷ n / 256 % 256 ∷ n / 65536 % 256 ∷ n / 16777216 % 256 ∷ []

unfoldable pub validate_frame_length : List ℕ → Result Error (Unit {0})
validate_frame_length (a ∷ b ∷ c ∷ d ∷ body) =
    let body_len = from_le_bytes a b c d in
    fail_if (body_len == 0 || ltb max_frame_size body_len || not (body_len + 4 == length body + 4))
      (protocol (invalid_length body_len (length body)))
validate_frame_length frame = err (protocol missing_prefix)

-- A stream is the bytes that it still has to give; `read_exact` fails at its end.
abbrev pub read_exact : ℕ → List ℕ → Result Error (List ℕ × List ℕ)
read_exact n stream =
    if ltb (length stream) n
    then err (io (codes "early eof"))
    else ok (take n stream, drop n stream)

abbrev pub read_body : List ℕ → List ℕ → Result Error (List ℕ × List ℕ)
read_body (a ∷ b ∷ c ∷ d ∷ []) stream = do
  fail_if (from_le_bytes a b c d == 0 || ltb max_frame_size (from_le_bytes a b c d))
      (protocol (frame_too_long (from_le_bytes a b c d)))
  (body, rest) ← read_exact (from_le_bytes a b c d) stream
  ok (a ∷ b ∷ c ∷ d ∷ body, rest)
read_body prefix stream = err (protocol missing_prefix)

unfoldable pub read_frame : List ℕ → Result Error (List ℕ × List ℕ)
read_frame stream = read_exact 4 stream >>= λ p. read_body p.0 p.1

-- What the writer holds after it.
unfoldable pub write_frame : List ℕ → List ℕ → Result Error (List ℕ)
write_frame written frame = validate_frame_length frame >> ok (written ++ frame)

-- The FlatBuffers library, driven by the generated code: what `pack` and
-- `finish_size_prefixed_envelope_buffer` leave after the size prefix, and what
-- `size_prefixed_root_as_envelope` and `unpack` make of a buffer.
pub record FlatBuffers : Type 0 where
  pub body : EnvelopeT → List ℕ
  pub size_prefixed_root_as_envelope : List ℕ → Result Text EnvelopeT

-- `flatbuffers::buffer_has_identifier(frame, "PNET", true)`
abbrev pub buffer_has_identifier : List ℕ → Bool
buffer_has_identifier frame = text_eq (take 4 (drop 8 frame)) (codes "PNET")

module _ (flatbuffers : FlatBuffers) where
  unfoldable pub encode_envelope : ℕ → PayloadT → List ℕ
  encode_envelope request_id payload =
      let body = flatbuffers.body (record {
        protocol_version = protocol_version;
        request_id = request_id;
        payload = payload;
      }) in
      to_le_bytes (length body) ++ body

  unfoldable pub decode_envelope : List ℕ → Result Error EnvelopeT
  decode_envelope frame = do
    validate_frame_length frame
    fail_if (not (buffer_has_identifier frame)) (protocol missing_identifier)
    envelope ←
        map_err (λ text. protocol (malformed text))
          (flatbuffers.size_prefixed_root_as_envelope frame)
    fail_if (not (envelope.protocol_version == protocol_version))
        (protocol (unsupported_protocol envelope.protocol_version))
    ok envelope

-- `state.map_or(wire::JobState::Queued, job_state_to_wire)`
abbrev pub state_or_queued : Option JobState → ℕ
state_or_queued none = job_state_to_wire queued
state_or_queued (some state) = job_state_to_wire state

abbrev pub request_payload : Request → PayloadT
request_payload Protocol.ping = Wire.ping_request
request_payload Protocol.daemon_status = Wire.daemon_status_request
request_payload Protocol.capabilities = Wire.capabilities_request
request_payload Protocol.list_adapters = Wire.list_adapters_request
request_payload (Protocol.config action format document dry_run) =
    Wire.config_request (config_action_to_wire action) (config_format_to_wire format) document
      dry_run
request_payload (Protocol.job_status job_id) = Wire.job_status_request job_id
request_payload (Protocol.list_jobs state limit) =
    Wire.list_jobs_request (has state) (state_or_queued state) limit
request_payload Protocol.network_status = Wire.network_status_request
request_payload (Protocol.wifi_status if_index) =
    Wire.wifi_status_request (has if_index) (or_zero if_index)
request_payload (Protocol.wifi_scan if_index refresh timeout_ms) =
    Wire.wifi_scan_request (has if_index) (or_zero if_index) refresh timeout_ms
request_payload Protocol.shutdown = Wire.shutdown_request

-- `has_state.then(|| job_state_from_wire(state)).transpose()?`
abbrev pub state_when : Bool → ℕ → Result Error (Option JobState)
state_when true state = job_state_from_wire state >>= λ s. ok (some s)
state_when false state = ok none

abbrev pub payload_request : PayloadT → Result Error Request
payload_request Wire.ping_request = ok Protocol.ping
payload_request Wire.daemon_status_request = ok Protocol.daemon_status
payload_request Wire.capabilities_request = ok Protocol.capabilities
payload_request Wire.list_adapters_request = ok Protocol.list_adapters
payload_request (Wire.config_request action format document dry_run) = do
  a ← config_action_from_wire action
  f ← config_format_from_wire format
  ok (Protocol.config a f document dry_run)
payload_request (Wire.job_status_request job_id) = ok (Protocol.job_status job_id)
payload_request (Wire.list_jobs_request has_state state limit) =
    state_when has_state state >>= λ s. ok (Protocol.list_jobs s limit)
payload_request Wire.network_status_request = ok Protocol.network_status
payload_request (Wire.wifi_status_request has_if_index if_index) =
    ok (Protocol.wifi_status (then_some has_if_index if_index))
payload_request (Wire.wifi_scan_request has_if_index if_index refresh timeout_ms) =
    ok (Protocol.wifi_scan (then_some has_if_index if_index) refresh timeout_ms)
payload_request Wire.shutdown_request = ok Protocol.shutdown
payload_request other = err (protocol not_a_request)

abbrev pub response_payload : Response → PayloadT
response_payload (Protocol.pong daemon_version version) = Wire.ping_response daemon_version version
response_payload (Protocol.daemon_status_response status) = Wire.daemon_status_response status
response_payload (Protocol.capabilities_response capabilities) =
    Wire.capabilities_response (map capability_to_wire capabilities)
response_payload (Protocol.adapters adapters) =
    Wire.list_adapters_response (map adapter_to_wire adapters)
response_payload (Protocol.validation valid issues) =
    Wire.validate_config_response valid (map issue_to_wire issues)
response_payload (Protocol.plan operations) =
    Wire.plan_config_response (map operation_to_wire operations)
response_payload (Protocol.apply job_id state operations) =
    Wire.apply_config_response job_id (job_state_to_wire state) (map operation_to_wire operations)
response_payload (Protocol.job_status_response job_id state message) =
    Wire.job_status_response job_id (job_state_to_wire state) message
response_payload (Protocol.jobs jobs total) =
    Wire.list_jobs_response (map job_summary_to_wire jobs) total
response_payload (Protocol.network_status_response captured adapters wifi_interfaces wifi_error) =
    Wire.network_status_response captured (map adapter_to_wire adapters)
      (map wifi_interface_status_to_wire wifi_interfaces) wifi_error
response_payload (Protocol.wifi_status_response interfaces) =
    Wire.wifi_status_response (map wifi_interface_status_to_wire interfaces)
response_payload (Protocol.wifi_networks refreshed networks) =
    Wire.wifi_scan_response refreshed (map wifi_network_to_wire networks)
response_payload Protocol.shutdown_accepted = Wire.shutdown_response
response_payload (Protocol.error code message) =
    Wire.error_response (error_code_to_wire code) message

abbrev pub payload_response : PayloadT → Result Error Response
payload_response (Wire.ping_response daemon_version version) =
    ok (Protocol.pong daemon_version version)
payload_response (Wire.daemon_status_response status) = ok (Protocol.daemon_status_response status)
payload_response (Wire.capabilities_response capabilities) =
    collect capability_from_wire capabilities >>= λ cs. ok (Protocol.capabilities_response cs)
payload_response (Wire.list_adapters_response adapters) =
    ok (Protocol.adapters (map adapter_from_wire adapters))
payload_response (Wire.validate_config_response valid issues) =
    ok (Protocol.validation valid (map issue_from_wire issues))
payload_response (Wire.plan_config_response operations) =
    collect operation_from_wire operations >>= λ os. ok (Protocol.plan os)
payload_response (Wire.apply_config_response job_id state operations) = do
  s ← job_state_from_wire state
  os ← collect operation_from_wire operations
  ok (Protocol.apply job_id s os)
payload_response (Wire.job_status_response job_id state message) =
    job_state_from_wire state >>= λ s. ok (Protocol.job_status_response job_id s message)
payload_response (Wire.list_jobs_response jobs total) =
    collect job_summary_from_wire jobs >>= λ js. ok (Protocol.jobs js total)
payload_response (Wire.network_status_response captured adapters wifi_interfaces wifi_error) = ok (
    Protocol.network_status_response captured (map adapter_from_wire adapters)
      (map wifi_interface_status_from_wire wifi_interfaces) wifi_error)
payload_response (Wire.wifi_status_response interfaces) =
    ok (Protocol.wifi_status_response (map wifi_interface_status_from_wire interfaces))
payload_response (Wire.wifi_scan_response refreshed networks) =
    ok (Protocol.wifi_networks refreshed (map wifi_network_from_wire networks))
payload_response Wire.shutdown_response = ok Protocol.shutdown_accepted
payload_response (Wire.error_response code message) =
    error_code_from_wire code >>= λ c. ok (Protocol.error c message)
payload_response other = err (protocol not_a_response)

module _ (flatbuffers : FlatBuffers) where
  unfoldable pub encode_request : ℕ → Request → List ℕ
  encode_request request_id request =
      encode_envelope flatbuffers request_id (request_payload request)

  unfoldable pub decode_request : List ℕ → Result Error (Frame Request)
  decode_request frame = do
    envelope ← decode_envelope flatbuffers frame
    payload ← payload_request envelope.payload
    ok (record { request_id = envelope.request_id; payload = payload })

  unfoldable pub encode_response : ℕ → Response → List ℕ
  encode_response request_id response =
      encode_envelope flatbuffers request_id (response_payload response)

  unfoldable pub decode_response : List ℕ → Result Error (Frame Response)
  decode_response frame = do
    envelope ← decode_envelope flatbuffers frame
    payload ← payload_response envelope.payload
    ok (record { request_id = envelope.request_id; payload = payload })
