-- ===== src/Client/Answers.antt =====
-- What a client of crates/netplan/src/client.rs gets for its calls.
use netplan.Base.{
  ℕ, ◌==◌, ==_refl, not, ◌≡◌, refl, sym, ap, ◌∙◌, subst, arith, List, [], ◌∷◌, ◌++◌, Result, ok,
  err, bind-eq-ok, seq-eq-ok, ok-inj, fail_if,
}
use netplan.Error.{Error}
use netplan.Protocol.{Request, Response}
use netplan.Protocol.Wire.{EnvelopeT}
use netplan.Protocol.Frames.{
  FlatBuffers, encode_request, encode_response, decode_response, read_frame, write_frame,
  request_payload, response_payload, validate_frame_length,
}
use netplan.Protocol.Framing.{read_frame_iff}
use netplan.Protocol.RoundTrip.{Documented, Sendable, decode_response-encode_response}
use netplan.Daemon.{Daemon, Platform, Context}
use netplan.Daemon.Dispatch.{dispatch, handle_connection, Served, written_to, is_shutdown}
use netplan.Daemon.Calls.{
  handle_connection-written, request-validate_frame_length, response-validate_frame_length,
}
use netplan.Client.{Client, Endpoint, call_endpoint, call}

append-nil : (xs : List ℕ) → xs ++ [] ≡ xs
append-nil [] = refl
append-nil (x ∷ xs) = ap (λ l. x ∷ l) (append-nil xs)

-- A connection that fails has written nothing.
abbrev pub bytes_of : Result Error (List ℕ) → List ℕ
bytes_of (ok bytes) = bytes
bytes_of (err e) = []

-- The endpoint that a daemon serves.
abbrev pub served_by : FlatBuffers → Context → Platform → Daemon → Endpoint
served_by flatbuffers context platform daemon bytes =
    bytes_of (handle_connection flatbuffers context platform bytes daemon).written

reads-whole : (f : List ℕ) → validate_frame_length f ≡ ok tt → read_frame f ≡ ok (f, [])
reads-whole f h = (read_frame_iff f f []).1 (sym (append-nil f), h)

module _ (flatbuffers : FlatBuffers) (fits : EnvelopeT → Type 0) where
  call_endpoint-served_by :
      Documented flatbuffers fits
      → (context : Context) (platform : Platform) (daemon : Daemon) (id : ℕ) (request : Request)
      → Sendable flatbuffers fits id (request_payload request)
      → Sendable flatbuffers fits id
          (response_payload (dispatch context platform request daemon).response)
      → call_endpoint
          (served_by flatbuffers context platform daemon)
          (encode_request flatbuffers id request)
        ≡ ok (encode_response flatbuffers id (dispatch context platform request daemon).response)
  unfolding call_endpoint write_frame
  call_endpoint-served_by doc context platform daemon id request asked answered =
      let question = encode_request flatbuffers id request in
      let after = dispatch context platform request daemon in
      let bytes = encode_response flatbuffers id after.response in
      let served =
        subst
          (λ sent.
            handle_connection flatbuffers context platform sent daemon
            ≡ written_to (is_shutdown request) after.daemon (ok bytes))
          (append-nil question)
          (handle_connection-written flatbuffers fits doc context platform daemon id request []
            asked answered) in
      let back : served_by flatbuffers context platform daemon question ≡ bytes =
        ap (λ (s : Served). bytes_of s.written) served in
      rw
        (
          request-validate_frame_length flatbuffers fits id request asked,
          back,
          reads-whole bytes
              (response-validate_frame_length flatbuffers fits id after.response answered),
        )
        refl

  -- For FlatBuffers as documented, a client whose request and whose answer can be sent gets from
  -- the endpoint that the daemon serves exactly the response of the daemon to its request.
  pub call-dispatch :
      Documented flatbuffers fits
      → (context : Context) (platform : Platform) (daemon : Daemon) (client : Client)
        (request : Request)
      → Sendable flatbuffers fits client.next_request_id (request_payload request)
      → Sendable flatbuffers fits client.next_request_id
          (response_payload (dispatch context platform request daemon).response)
      → (call flatbuffers (served_by flatbuffers context platform daemon) client request).answer
        ≡ ok (dispatch context platform request daemon).response
  unfolding call
  call-dispatch doc context platform daemon client request asked answered =
      let id = client.next_request_id in
      let response = (dispatch context platform request daemon).response in
      rw
        (
          call_endpoint-served_by doc context platform daemon id request asked answered,
          decode_response-encode_response flatbuffers fits doc id response answered,
          ==_refl id,
        )
        refl

module _ (flatbuffers : FlatBuffers) where
  -- A call answers only with the payload of a response that came back from the endpoint under the
  -- identifier of that very call.
  pub call-correlated :
      (endpoint : Endpoint) (client : Client) (request : Request) (response : Response)
      → (call flatbuffers endpoint client request).answer ≡ ok response
      → (bytes : List ℕ) × (call_endpoint endpoint
            (encode_request flatbuffers client.next_request_id request)
          ≡ ok bytes)
        × (decode_response flatbuffers bytes
            ≡ ok (record { request_id = client.next_request_id; payload = response }))
  unfolding call
  call-correlated endpoint client request response h =
      let id = client.next_request_id in
      let (bytes, e, rest) = bind-eq-ok (call_endpoint endpoint _) _ h in
      let (frame, decoded, checked) = bind-eq-ok (decode_response flatbuffers bytes) _ rest in
      let (same, last) = seq-eq-ok (fail_if (not (frame.request_id == id)) _) _ checked in
      let own : frame.request_id ≡ id = ground arith in
      let whole : frame ≡ record { request_id = id; payload = response } =
        ap (λ i. record { request_id = i; payload = frame.payload }) own
        ∙ ap (λ p. record { request_id = id; payload = p }) (ok-inj last) in
      (bytes, e, decoded ∙ ap ok whole)
