-- ===== src/Daemon/Calls.antt =====
-- What a client sees of a connection and of a live apply: crates/netpland/src/main.rs,
-- `handle_connection`, `apply_live` and the end of its task.
use netplan.Base.{
  ℕ, ◌≡◌, ◌⊎◌, inl, inr, true, false, Bool-cases, Text, text_eq, err, ◌∙◌, refl, ap, Option, some,
  List, ◌++◌, ok, codes, if◌then◌else◌,
}
use netplan.Config.{NetplanConfig}
use netplan.Protocol
use netplan.Protocol.{Request, Response, Frame, JobState, running, succeeded, failed, rolled_back}
use netplan.Protocol.Wire.{EnvelopeT}
use netplan.Protocol.Frames.{
  FlatBuffers, write_frame, encode_request, encode_response, decode_response, request_payload,
  response_payload, validate_frame_length,
}
use netplan.Protocol.Framing.{read_frame_iff}
use netplan.Protocol.RoundTrip.{
  Documented, Sendable, decode_request-encode_request, decode_response-encode_response,
  encode_envelope-validate_frame_length,
}
use netplan.Daemon.{Daemon, Platform, Context, now_unix_ms}
use netplan.Daemon.Jobs.{insert}
use netplan.Daemon.Table.{get-insert_same, get-insert_other, get-modify_same, get-modify_other}
use netplan.Daemon.Dispatch.{
  dispatch, Served, handle_connection, serve_request, is_shutdown, request_shutdown, apply_live,
  finish_task, finish_record, outcome, Execution, written_to, new_record,
}

-- What is reported of a job whose apply has come to an end
abbrev pub Told : Execution → JobState → Option Text → Type 0
Told (ok (ok report)) state message = (state ≡ succeeded) × (message ≡ some report.message)
Told (ok (err error)) state message =
    (((error.rolled_back ≡ true) × (state ≡ rolled_back))
      ⊎ ((error.rolled_back ≡ false) × (state ≡ failed)))
    × (message ≡ some error.message)
Told (err join_error) state message =
    (state ≡ failed) × (message ≡ some (codes "platform execution task failed: " ++ join_error))

outcome-Told : (execution : Execution) → Told execution (outcome execution).0 (outcome execution).1
unfolding outcome
outcome-Told (ok (ok report)) = (refl, refl)
outcome-Told (ok (err error)) = elim (Bool-cases error.rolled_back) [
  | inl e ↦ (inl (e, rw e refl), refl)
  | inr e ↦ (inr (e, rw e refl), refl)
]
outcome-Told (err join_error) = (refl, refl)

-- A job that a live apply has accepted is reported as running. Once its task has ended, it is
-- reported, whatever context the question is asked in, as succeeded with the message of the report, as
-- rolled back or as failed with the message of the error, by what the error says of it, or as failed
-- where the task was lost; and any other job is reported as it was before the apply.
pub apply_live-job_status :
    (context other : Context) (platform : Platform) (config : NetplanConfig) (daemon : Daemon)
    (execution : Execution) (clock : Option ℕ) (id : Text)
    → text_eq id context.new_v4 ≡ false
    → let accepted = (apply_live context config daemon).daemon in
      let ended = finish_task context.new_v4 execution clock accepted in
      ((dispatch other platform (Protocol.job_status context.new_v4) accepted).response
        ≡ Protocol.job_status_response context.new_v4 running
            (some (codes "live apply is running")))
      × ((state : JobState) × (message : Option Text) × Told execution state message
          × ((dispatch other platform (Protocol.job_status context.new_v4) ended).response
              ≡ Protocol.job_status_response context.new_v4 state message))
      × ((dispatch other platform (Protocol.job_status id) ended).response
          ≡ (dispatch other platform (Protocol.job_status id) daemon).response)
unfolding dispatch apply_live finish_task
apply_live-job_status context other platform config daemon execution clock id differs =
    let job =
      new_record running (codes "live apply is running") (now_unix_ms context.since_epoch) in
    let jobs = insert context.new_v4 job daemon.jobs in
    let found = get-insert_same context.new_v4 job daemon.jobs in
    let finish = finish_record execution (now_unix_ms clock) in
    let later = get-modify_same finish context.new_v4 job jobs found in
    let kept =
      get-modify_other finish context.new_v4 id jobs differs
      ∙ get-insert_other context.new_v4 id job daemon.jobs differs in
    (
      rw found refl,
      ((outcome execution).0, (outcome execution).1, outcome-Told execution, rw later refl),
      rw kept refl,
    )

module _ (flatbuffers : FlatBuffers) (fits : EnvelopeT → Type 0) where
  pub request-validate_frame_length :
      (id : ℕ) (request : Request)
      → Sendable flatbuffers fits id (request_payload request)
      → validate_frame_length (encode_request flatbuffers id request) ≡ ok tt
  unfolding encode_request
  request-validate_frame_length id request =
      encode_envelope-validate_frame_length flatbuffers fits id (request_payload request)

  pub response-validate_frame_length :
      (id : ℕ) (response : Response)
      → Sendable flatbuffers fits id (response_payload response)
      → validate_frame_length (encode_response flatbuffers id response) ≡ ok tt
  unfolding encode_response
  response-validate_frame_length id response =
      encode_envelope-validate_frame_length flatbuffers fits id (response_payload response)

  pub handle_connection-written :
      Documented flatbuffers fits
      → (context : Context) (platform : Platform) (daemon : Daemon) (id : ℕ) (request : Request)
        (rest : List ℕ)
      → Sendable flatbuffers fits id (request_payload request)
      → Sendable flatbuffers fits id
          (response_payload (dispatch context platform request daemon).response)
      → handle_connection flatbuffers context platform
          (encode_request flatbuffers id request ++ rest)
          daemon
        ≡ written_to (is_shutdown request) (dispatch context platform request daemon).daemon (
            ok (encode_response flatbuffers id (dispatch context platform request daemon).response))
  unfolding handle_connection write_frame
  handle_connection-written doc context platform daemon id request rest asked answer =
      let frame = encode_request flatbuffers id request in
      let read =
        (read_frame_iff (frame ++ rest) frame rest).1
          (refl, request-validate_frame_length id request asked) in
      let decoded = decode_request-encode_request flatbuffers fits doc id request asked in
      let valid = response-validate_frame_length id _ answer in
      rw (read, decoded, serve_request, valid) refl

  -- For FlatBuffers as documented, a connection whose stream starts with the frame of a request is
  -- served: when the request and its answer can be sent, the daemon has made that request's step,
  -- and asks to stop exactly when it was a shutdown; and what it has written is a frame from which
  -- the client decodes the answer under the identifier that it has chosen.
  pub handle_connection-serves :
      Documented flatbuffers fits
      → (context : Context) (platform : Platform) (daemon : Daemon) (id : ℕ) (request : Request)
        (rest : List ℕ)
      → Sendable flatbuffers fits id (request_payload request)
      → Sendable flatbuffers fits id
          (response_payload (dispatch context platform request daemon).response)
      → let answered = dispatch context platform request daemon in
        let served =
          handle_connection flatbuffers context platform
            (encode_request flatbuffers id request ++ rest)
            daemon in
        (served.daemon
          ≡ (if is_shutdown request then request_shutdown answered.daemon else answered.daemon))
        × (bytes : List ℕ) × (served.written ≡ ok bytes)
        × (decode_response flatbuffers bytes
            ≡ ok (record { request_id = id; payload = answered.response }))
  handle_connection-serves doc context platform daemon id request rest asked answer =
      let e = handle_connection-written doc context platform daemon id request rest asked answer in
      (
        ap (λ (s : Served). s.daemon) e,
        encode_response flatbuffers id (dispatch context platform request daemon).response,
        ap (λ (s : Served). s.written) e,
        decode_response-encode_response flatbuffers fits doc id _ answer,
      )
