-- ===== src/Client.antt =====
-- crates/netplan/src/client.rs: a call of the daemon over its endpoint. The endpoint is a function:
-- the bytes that come back for the bytes sent.
pub mod Answers
use netplan.Base.{ℕ, ◌+◌, ◌%◌, ◌==◌, not, List, [], Result, ok, ◌>>=◌, ◌>>◌, fail_if}
use netplan.Error.{Error, protocol, id_mismatch}
use netplan.Protocol.{Request, Response, Frame}
use netplan.Protocol.Frames.{
  FlatBuffers, encode_request, decode_request, decode_response, read_frame, write_frame,
}

-- The identifier that the next call takes, an atomic u64.
pub record Client : Type 0 where
  pub next_request_id : ℕ

abbrev pub Endpoint : Type 0
Endpoint = List ℕ → List ℕ

-- What a call leaves: the client, and the answer or the error.
pub record Called : Type 0 where
  pub client : Client
  pub answer : Result Error Response

unfoldable pub call_endpoint : Endpoint → List ℕ → Result Error (List ℕ)
call_endpoint endpoint encoded = do
  sent ← write_frame [] encoded
  p ← read_frame (endpoint sent)
  ok p.0

-- `fetch_add` on a u64 wraps around.
abbrev pub fetch_add : Client → Client
fetch_add client = record { next_request_id = (client.next_request_id + 1) % 18446744073709551616 }

abbrev pub correlated : ℕ → Frame Response → Result Error Response
correlated request_id frame =
    fail_if (not (frame.request_id == request_id))
      (protocol (id_mismatch frame.request_id request_id))
    >> ok frame.payload

module _ (flatbuffers : FlatBuffers) where
  unfoldable pub call : Endpoint → Client → Request → Called
  call endpoint client request =
      let request_id = client.next_request_id in
      record {
        client = fetch_add client;
        answer =
            call_endpoint endpoint (encode_request flatbuffers request_id request) >>= λ response.
            decode_response flatbuffers response >>= λ frame. correlated request_id frame;
      }

  unfoldable pub call_frame : Endpoint → List ℕ → Result Error (List ℕ)
  call_frame endpoint request = do
    asked ← decode_request flatbuffers request
    response ← call_endpoint endpoint request
    answered ← decode_response flatbuffers response
    ok response
