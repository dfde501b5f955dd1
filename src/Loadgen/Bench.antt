-- ===== src/Loadgen/Bench.antt =====
-- loadgen/rust/src/inferbench.rs and bin/stt-inferbench.rs: the summary of the inference benchmark and its
-- payload. The histogram is hdrhistogram's: the latencies that it records are a list.
pub mod Summary
pub mod Loops
mod Tests
use websocket_stt_bench.Common.{
  ℕ, zero, suc, ◌+◌, ◌-◌, ◌^◌, min, String, Bool, true, false, ◌&&◌, Option, none, some, List, [],
  ◌∷◌, ◌++◌, ltb, leb, if◌then◌else◌, length, Result, ok, err,
}
use websocket_stt_bench.Loadgen.Protocol.{frame_payload}

pub data BenchErrorKind : Type 0 where
  connect timeout http_status request : BenchErrorKind

pub record BenchErrorCounts : Type 0 where
  pub connect : ℕ
  pub timeout : ℕ
  pub http_status : ℕ
  pub request : ℕ

-- `BenchErrorCounts::total`
abbrev pub all_errors : BenchErrorCounts → ℕ
all_errors c = c.connect + c.timeout + c.http_status + c.request

pub record BenchError : Type 0 where
  pub kind : BenchErrorKind
  pub message : String

pub record BenchSummary : Type 0 where
  pub completed : ℕ
  pub errors : BenchErrorCounts
  pub error_samples : List String
  pub latency_us : List ℕ

abbrev pub new_summary : BenchSummary
new_summary = record {
  completed = 0;
  errors = record { connect = 0; timeout = 0; http_status = 0; request = 0 };
  error_samples = [];
  latency_us = [];
}

abbrev pub count_kind : BenchErrorKind → BenchErrorCounts → BenchErrorCounts
count_kind connect c = record c { connect = c.connect + 1 }
count_kind timeout c = record c { timeout = c.timeout + 1 }
count_kind http_status c = record c { http_status = c.http_status + 1 }
count_kind request c = record c { request = c.request + 1 }

-- `BenchSummary::record`; `fits` tells which values the histogram takes, `none` is a panic.
unfoldable pub record_result : (ℕ → Bool) → BenchSummary → Result ℕ BenchError → Option BenchSummary
record_result fits s (ok us) =
    if fits us
    then some (record s { completed = s.completed + 1; latency_us = s.latency_us ++ us ∷ [] })
    else none
record_result fits s (err e) = some (record s {
  errors = count_kind e.kind s.errors;
  error_samples =
      if ltb (length s.error_samples) 5 then s.error_samples ++ e.message ∷ [] else s.error_samples;
})

-- `BenchSummary::attempted`
abbrev pub attempted : BenchSummary → ℕ
attempted s = s.completed + all_errors s.errors

unfoldable pub collect_results :
    (ℕ → Bool) → List (Result ℕ BenchError) → BenchSummary → Option BenchSummary
unfolding record_result
collect_results fits [] s = some s
collect_results fits (r ∷ rest) s = elim (record_result fits s r) [
  | none ↦ none
  | some t ↦ collect_results fits rest t
]

abbrev pub payload_from : ℕ → ℕ → List ℕ
payload_from zero seq = []
payload_from (suc left) seq = frame_payload 0 seq ++ payload_from left (seq + 1)

-- `inference_payload`, the frames from 1 on.
unfoldable pub inference_payload : ℕ → List ℕ
inference_payload frames = payload_from frames 1

-- What `classify_reqwest_error` asks of an error.
pub record RequestError : Type 0 where
  pub is_timeout : Bool
  pub is_connect : Bool
  pub text : String

unfoldable pub classify_reqwest_error : RequestError → BenchError
classify_reqwest_error e =
    if e.is_timeout
    then record { kind = timeout; message = e.text }
    else if e.is_connect
    then record { kind = connect; message = e.text }
    else record { kind = request; message = e.text }

-- A response's status, and whether its body arrived; `status_text` is the text about a status.
pub data BenchReply : Type 0 where
  no_response : RequestError → BenchReply
  responded : (status elapsed_us : ℕ) → (body_error : Option RequestError) → BenchReply

abbrev of_body : ℕ → Option RequestError → Result ℕ BenchError
of_body elapsed_us none = ok (min elapsed_us (2 ^ 64 - 1))
of_body elapsed_us (some e) = err (classify_reqwest_error e)

unfoldable pub send_infer : (ℕ → String) → BenchReply → Result ℕ BenchError
unfolding classify_reqwest_error
send_infer status_text (no_response e) = err (classify_reqwest_error e)
send_infer status_text (responded status elapsed_us body) =
    if leb 200 status && ltb status 300
    then of_body elapsed_us body
    else err (record { kind = http_status; message = status_text status })
