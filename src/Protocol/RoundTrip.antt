-- ===== src/Protocol/RoundTrip.antt =====
-- What `encode_request` and `encode_response` write, `decode_request` and `decode_response` read:
-- crates/netplan/src/protocol/mod.rs.
use netplan.Base.{
  ℕ, ◌≤◌, ◌<◌, ◌==◌, not, true, ◌≡◌, refl, ap, sym, ◌∙◌, ok-inj, arith, Option, none, some, List,
  ◌++◌, length, take, drop, Result, ok, err, bind-eq-ok, seq-eq-ok, fail_if, map_err, codes, Text,
  text_eq,
}
use netplan.Error.{Error, protocol, not_a_request, not_a_response}
use netplan.Protocol
use netplan.Protocol.{Frame, Request, Response, JobState}
use netplan.Protocol.Wire.{EnvelopeT, PayloadT}
use netplan.Protocol.Convert
use netplan.Protocol.Tables.{
  collect-map, map-map_back, then_some-or_zero, config_action-back, config_format-back,
  job_state-back, error_code-back, capability-back, operation-back, job_summary-back, adapter-back,
  wifi_interface_status-back, wifi_network-back, issue-back,
}
use netplan.Protocol.Framing.{FrameLength, validate_frame_length_iff, from_le_bytes-to_le_bytes}
use netplan.Protocol.Frames.{
  max_frame_size, protocol_version, to_le_bytes, validate_frame_length, FlatBuffers,
  buffer_has_identifier, encode_envelope, decode_envelope, request_payload, payload_request,
  response_payload, payload_response, encode_request, decode_request, encode_response,
  decode_response, state_or_queued, state_when,
}

state_when-or_queued : (o : Option JobState) → state_when (Convert.has o) (state_or_queued o) ≡ ok o
state_when-or_queued none = refl
state_when-or_queued (some s) = rw (job_state-back s) refl

-- A request's payload says which request it is.
payload_request-back : (r : Request) → payload_request (request_payload r) ≡ ok r
payload_request-back Protocol.ping = refl
payload_request-back Protocol.daemon_status = refl
payload_request-back Protocol.capabilities = refl
payload_request-back Protocol.list_adapters = refl
payload_request-back (Protocol.config a f document dry_run) =
    rw (config_action-back a, config_format-back f) refl
payload_request-back (Protocol.job_status job_id) = refl
payload_request-back (Protocol.list_jobs state limit) = rw (state_when-or_queued state) refl
payload_request-back Protocol.network_status = refl
payload_request-back (Protocol.wifi_status if_index) = rw (then_some-or_zero if_index) refl
payload_request-back (Protocol.wifi_scan if_index refresh timeout_ms) =
    rw (then_some-or_zero if_index) refl
payload_request-back Protocol.shutdown = refl

payload_response-back : (r : Response) → payload_response (response_payload r) ≡ ok r
payload_response-back (Protocol.pong daemon_version version) = refl
payload_response-back (Protocol.daemon_status_response status) = refl
payload_response-back (Protocol.capabilities_response cs) =
    rw (collect-map Convert.capability_to_wire Convert.capability_from_wire capability-back cs) refl
payload_response-back (Protocol.adapters adapters) =
    rw (map-map_back Convert.adapter_to_wire Convert.adapter_from_wire adapter-back adapters) refl
payload_response-back (Protocol.validation valid issues) =
    rw (map-map_back Convert.issue_to_wire Convert.issue_from_wire issue-back issues) refl
payload_response-back (Protocol.plan operations) =
    rw (collect-map Convert.operation_to_wire Convert.operation_from_wire operation-back operations)
      refl
payload_response-back (Protocol.apply job_id state operations) =
    rw
      (
        job_state-back state,
        collect-map Convert.operation_to_wire Convert.operation_from_wire operation-back operations,
      )
      refl
payload_response-back (Protocol.job_status_response job_id state message) =
    rw (job_state-back state) refl
payload_response-back (Protocol.jobs jobs total) =
    rw (collect-map Convert.job_summary_to_wire Convert.job_summary_from_wire job_summary-back jobs)
      refl
payload_response-back (Protocol.network_status_response captured adapters interfaces wifi_error) =
    rw
      (
        map-map_back Convert.adapter_to_wire Convert.adapter_from_wire adapter-back adapters,
        map-map_back Convert.wifi_interface_status_to_wire Convert.wifi_interface_status_from_wire
            wifi_interface_status-back interfaces,
      )
      refl
payload_response-back (Protocol.wifi_status_response interfaces) =
    rw
      (map-map_back Convert.wifi_interface_status_to_wire Convert.wifi_interface_status_from_wire
        wifi_interface_status-back interfaces)
      refl
payload_response-back (Protocol.wifi_networks refreshed networks) =
    rw
      (map-map_back Convert.wifi_network_to_wire Convert.wifi_network_from_wire wifi_network-back
        networks)
      refl
payload_response-back Protocol.shutdown_accepted = refl
payload_response-back (Protocol.error code message) = rw (error_code-back code) refl

-- No payload is that of a request and of a response.
response-not_a_request :
    (r : Response) → payload_request (response_payload r) ≡ err (protocol not_a_request)
response-not_a_request r = ground arith

request-not_a_response :
    (r : Request) → payload_response (request_payload r) ≡ err (protocol not_a_response)
request-not_a_response r = ground arith

-- The envelope that carries a payload.
abbrev pub envelope : ℕ → PayloadT → EnvelopeT
envelope id payload = record {
  protocol_version = protocol_version;
  request_id = id;
  payload = payload;
}

module _ (flatbuffers : FlatBuffers) (fits : EnvelopeT → Type 0) where
  -- What FlatBuffers documents: the buffer of a finished envelope carries the schema's identifier
  -- behind its root offset, and, for an envelope whose numbers fit their fields, verifies and
  -- unpacks to what was packed.
  pub record Documented : Type 0 where
    pub identifier : (e : EnvelopeT) → take 4 (drop 4 (flatbuffers.body e)) ≡ codes "PNET"
    pub unpacks :
        (e : EnvelopeT)
        → fits e
        → flatbuffers.size_prefixed_root_as_envelope
            (to_le_bytes (length (flatbuffers.body e)) ++ flatbuffers.body e)
          ≡ ok e

  -- The payload can be sent: its numbers fit, and its buffer is at most 16 MiB.
  abbrev pub Sendable : ℕ → PayloadT → Type 0
  Sendable id payload =
      fits (envelope id payload)
      × (0 < length (flatbuffers.body (envelope id payload)))
      × (length (flatbuffers.body (envelope id payload)) ≤ max_frame_size)

  pub encode_envelope-validate_frame_length :
      (id : ℕ) (payload : PayloadT)
      → Sendable id payload
      → validate_frame_length (encode_envelope flatbuffers id payload) ≡ ok tt
  unfolding encode_envelope
  encode_envelope-validate_frame_length id payload (fit, some_bytes, bound) =
      let body = flatbuffers.body (envelope id payload) in
      (validate_frame_length_iff (to_le_bytes (length body) ++ body)).1
        (from_le_bytes-to_le_bytes (length body) (omega (arith, bound)), some_bytes, bound)

  decode-encode_envelope :
      Documented
      → (id : ℕ) (payload : PayloadT) → Sendable id payload
      → decode_envelope flatbuffers (encode_envelope flatbuffers id payload)
        ≡ ok (envelope id payload)
  unfolding decode_envelope encode_envelope text_eq
  decode-encode_envelope doc id payload sendable =
      let size = encode_envelope-validate_frame_length id payload sendable in
      let name = doc.identifier (envelope id payload) in
      let back = doc.unpacks (envelope id payload) sendable.0 in rw (size, name, back) refl

  -- For FlatBuffers as documented, a request whose payload can be sent is decoded from its frame
  -- as it was, with its correlation identifier.
  pub decode_request-encode_request :
      Documented
      → (id : ℕ) (request : Request) → Sendable id (request_payload request)
      → decode_request flatbuffers (encode_request flatbuffers id request)
        ≡ ok (record { request_id = id; payload = request })
  unfolding decode_request encode_request
  decode_request-encode_request doc id request sendable =
      rw
        (
          decode-encode_envelope doc id (request_payload request) sendable,
          payload_request-back request,
        )
        refl

  -- For FlatBuffers as documented, a response whose payload can be sent is decoded from its frame
  -- as it was, with its correlation identifier.
  pub decode_response-encode_response :
      Documented
      → (id : ℕ) (response : Response) → Sendable id (response_payload response)
      → decode_response flatbuffers (encode_response flatbuffers id response)
        ≡ ok (record { request_id = id; payload = response })
  unfolding decode_response encode_response
  decode_response-encode_response doc id response sendable =
      rw
        (
          decode-encode_envelope doc id (response_payload response) sendable,
          payload_response-back response,
        )
        refl

  -- For FlatBuffers as documented, the frame of a response that can be sent is refused where a
  -- request is expected, and that of a request where a response is.
  decode_request-encode_response :
      Documented
      → (id : ℕ) (request : Request) (response : Response) → Sendable id (request_payload request)
      → Sendable id (response_payload response)
      → (decode_request flatbuffers (encode_response flatbuffers id response)
          ≡ err (protocol not_a_request))
        × (decode_response flatbuffers (encode_request flatbuffers id request)
            ≡ err (protocol not_a_response))
  unfolding decode_request decode_response encode_request encode_response
  decode_request-encode_response doc id request response asked answered = (
    rw
        (
          decode-encode_envelope doc id (response_payload response) answered,
          response-not_a_request response,
        )
        refl,
    rw
        (
          decode-encode_envelope doc id (request_payload request) asked,
          request-not_a_response request,
        )
        refl,
  )

map_err-eq-ok :
    (f : Text → Error) (m : Result Text EnvelopeT) (e : EnvelopeT) → map_err f m ≡ ok e → m ≡ ok e
map_err-eq-ok f (ok a) e h = ap ok (ok-inj h)
map_err-eq-ok f (err x) e h = cc

module _ (flatbuffers : FlatBuffers) where
  -- Whatever the FlatBuffers library does, a frame that `decode_request` accepts has a size prefix
  -- that gives its length, at most 16 MiB, and the identifier `PNET`, and was read as an envelope
  -- of protocol version 1 with the request's correlation identifier and a request's payload.
  decode_request-WellFormed :
      (bytes : List ℕ) (frame : Frame Request)
      → decode_request flatbuffers bytes ≡ ok frame
      → FrameLength bytes
        × (buffer_has_identifier bytes ≡ true)
        × (e : EnvelopeT) × (flatbuffers.size_prefixed_root_as_envelope bytes ≡ ok e)
        × (e.protocol_version ≡ 1)
        × (e.request_id ≡ frame.request_id)
        × (payload_request e.payload ≡ ok frame.payload)
  unfolding decode_request decode_envelope
  decode_request-WellFormed bytes frame h =
      let (e, decoded, rest) = bind-eq-ok (decode_envelope flatbuffers bytes) _ h in
      let (request, typed, last) = bind-eq-ok (payload_request e.payload) _ rest in
      let (size, decoded1) = seq-eq-ok (validate_frame_length bytes) _ decoded in
      let (name, decoded2) = seq-eq-ok (fail_if (not (buffer_has_identifier bytes)) _) _ decoded1 in
      let named : buffer_has_identifier bytes ≡ true = ground arith in
      let (e', unpacked, decoded3) = bind-eq-ok (map_err _ _) _ decoded2 in
      let (version, decoded4) =
        seq-eq-ok (fail_if (not (e'.protocol_version == protocol_version)) _) _ decoded3 in
      let same : e' ≡ e = ok-inj decoded4 in
      let one : e'.protocol_version ≡ 1 = ground arith in
      let parts = ok-inj last in
      (
        (validate_frame_length_iff bytes).0 size,
        named,
        e,
        map_err-eq-ok _ _ e (unpacked ∙ ap ok same),
        sym (ap (λ (x : EnvelopeT). x.protocol_version) same) ∙ one,
        ap (λ (f : Frame Request). f.request_id) parts,
        typed ∙ ap ok (ap (λ (f : Frame Request). f.payload) parts),
      )
