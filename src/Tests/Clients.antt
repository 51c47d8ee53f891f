-- ===== src/Tests/Clients.antt =====
-- A client that asks a daemon.
use netplan.Base.{ℕ, ◌≡◌, List, ok, codes}
use netplan.Protocol.Frames.{encode_request, decode_response}
use netplan.Client.{Client, call, call_endpoint}
use netplan.Client.Answers.{served_by, call-dispatch, call-correlated}
use netplan.Tests.Frames.{codec, Known, codec-Documented, question, question-Sendable}
use netplan.Tests.Jobs.{context, mute, single, no_answer, no_answer-Sendable}

abbrev client : Client
client = record { next_request_id = 42 }

call-dispatch_example :
    (call codec (served_by codec (context (codes "c")) mute single) client question).answer
    ≡ ok no_answer.response
call-dispatch_example =
    call-dispatch codec Known codec-Documented (context (codes "c")) mute single client question
      question-Sendable no_answer-Sendable

question-answered :
    (call codec (served_by codec (context (codes "c")) mute single) client question).answer
    ≡ ok no_answer.response
question-answered =
    call-dispatch codec Known codec-Documented (context (codes "c")) mute single client question
      question-Sendable no_answer-Sendable

call-correlated_example :
    (bytes : List ℕ) × (call_endpoint
        (served_by codec (context (codes "c")) mute single)
        (encode_request codec 42 question)
      ≡ ok bytes)
    × (decode_response codec bytes ≡ ok (record { request_id = 42; payload = no_answer.response }))
call-correlated_example =
    call-correlated codec (served_by codec (context (codes "c")) mute single) client question
      no_answer.response question-answered
