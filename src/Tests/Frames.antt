-- ===== src/Tests/Frames.antt =====
-- Frames on concrete bytes.
use netplan.Base.{
  ℕ, zero, suc, sym, ◌≡◌, refl, arith, true, none, some, List, [], ◌∷◌, ◌++◌, drop, Result, ok, err,
  ◌>>=◌, Text, codes, ap,
}
use netplan.Protocol
use netplan.Protocol.{Frame, Request, Response}
use netplan.Protocol.Wire
use netplan.Protocol.Wire.{EnvelopeT, PayloadT}
use netplan.Protocol.Convert.{job_state_to_wire}
use netplan.Protocol.Frames.{
  FlatBuffers, validate_frame_length, write_frame, request_payload, response_payload,
  encode_request, decode_request, encode_response, decode_response,
}
use netplan.Protocol.RoundTrip.{
  envelope, Documented, Sendable, decode_request-encode_request, decode_response-encode_response,
}

-- A codec for three of the payloads: the identifier of the format stands behind four bytes of root
-- offset, and is followed by the request's, by a tag, and by what the payload holds.
abbrev pub tag : PayloadT → List ℕ
tag (Wire.wifi_status_request true if_index) = 1 ∷ if_index ∷ []
tag (Wire.job_status_response id state none) = 2 ∷ state ∷ id
tag (Wire.error_response code message) = 3 ∷ code ∷ message
tag other = 0 ∷ []

abbrev pub untag : List ℕ → PayloadT
untag (suc zero ∷ if_index ∷ []) = Wire.wifi_status_request true if_index
untag (suc (suc zero) ∷ state ∷ id) = Wire.job_status_response id state none
untag (suc (suc (suc zero)) ∷ code ∷ message) = Wire.error_response code message
untag other = Wire.no_payload

abbrev pub root : List ℕ → Result Text EnvelopeT
root (id ∷ payload) = ok (envelope id (untag payload))
root [] = err (codes "out of bounds")

abbrev pub codec : FlatBuffers
codec = record {
  body = λ (e : EnvelopeT). 16 ∷ 0 ∷ 0 ∷ 0 ∷ (codes "PNET" ++ (e.request_id ∷ tag e.payload));
  size_prefixed_root_as_envelope = λ frame. root (drop 12 frame);
}

-- The envelopes that the codec knows.
abbrev pub Known : EnvelopeT → Type 0
Known e = (e.protocol_version ≡ 1) × (untag (tag e.payload) ≡ e.payload)

pub codec-Documented : Documented codec Known
codec-Documented = record {
  identifier = λ e. refl;
  unpacks = λ e h. rw h.1 (
      ap (λ v. ok (record { protocol_version = v; request_id = e.request_id; payload = e.payload }))
        (sym h.0));
}

abbrev pub question : Request
question = Protocol.wifi_status (some 9)

abbrev answer : Response
answer = Protocol.job_status_response (codes "j1") Protocol.running none

pub question-Sendable : Sendable codec Known 42 (request_payload question)
question-Sendable = ((refl, refl), omega arith, omega arith)

answer-Sendable : Sendable codec Known 42 (response_payload answer)
unfolding job_state_to_wire
answer-Sendable = ((refl, refl), omega arith, omega arith)

decode_request-encode_request_example :
    decode_request codec (encode_request codec 42 question)
    ≡ ok (record { request_id = 42; payload = question })
decode_request-encode_request_example =
    decode_request-encode_request codec Known codec-Documented 42 question question-Sendable

decode_response-encode_response_example :
    decode_response codec (encode_response codec 42 answer)
    ≡ ok (record { request_id = 42; payload = answer })
decode_response-encode_response_example =
    decode_response-encode_response codec Known codec-Documented 42 answer answer-Sendable

abbrev two_bytes : List ℕ
two_bytes = 2 ∷ 0 ∷ 0 ∷ 0 ∷ 7 ∷ 8 ∷ []

abbrev one_byte : List ℕ
one_byte = 1 ∷ 0 ∷ 0 ∷ 0 ∷ 9 ∷ []

both-written :
    (write_frame [] two_bytes >>= λ once. write_frame once one_byte) ≡ ok (two_bytes ++ one_byte)
unfolding write_frame validate_frame_length
both-written = refl
