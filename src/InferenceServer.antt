-- ===== src/InferenceServer.antt =====
-- services/inference-server/src/main.rs: the `/infer` handler, and the simulated latency. What the server
-- asks of its runtime, that a slot is acquired and that the task does not panic, comes with the request.

pub mod Replies
pub mod Latency
pub mod Tests
use mathlib.Core.Option
use websocket_stt_bench.Common.{
  ℕ, ◌%◌, ◌^◌, ◌≤◌, ◌≡◌, String, Bool, true, false, not, ◌&&◌, ◌||◌, Option, none, some, List, [],
  ◌∷◌, leb, ltb, ◌==◌, if◌then◌else◌, Result, ok, err, length, max,
}
use websocket_stt_bench.Common.Float.{Float64}
use websocket_stt_bench.Stub.{StubResult, compute_stub}
use websocket_stt_bench.Gateway.Text.{parse_unsigned}

abbrev pub default_cpu_passes : ℕ
default_cpu_passes = 4

abbrev pub default_max_concurrent : ℕ
default_max_concurrent = 64

pub record InferResponse (F : Type 0) : Type 0 where
  pub rms : F
  pub zero_crossings : ℕ
  pub checksum : ℕ
  pub samples : ℕ
  pub transcript : String
  pub audio_bytes : ℕ

-- The environment's value, or the default if there is none that parses: `env_parsed`.
abbrev pub env_parsed : {A : Type 0} → (List ℕ → Option A) → Option (List ℕ) → A → A
env_parsed from_str none default = default
env_parsed from_str (some value) default = Option.get_or (from_str value) default

-- `HeaderValue::to_str` is the text if every byte is a tab or visible ASCII.
abbrev pub visible : List ℕ → Bool
visible [] = true
visible (b ∷ bs) = ((b == 9) || (leb 32 b && ltb b 127)) && visible bs

abbrev pub passes_of : Option (List ℕ) → ℕ → ℕ
passes_of none default = default
passes_of (some value) default =
    if visible value then Option.get_or (parse_unsigned (2 ^ 32) value) default else default

-- axum's `Bytes`, before the handler: the body, or a status and a text if it is refused, as one above the limit of
-- the server is, which is the default of 2 MiB (3276 frames) here.
abbrev pub Extract : Type 0
Extract = List ℕ → Result (List ℕ) (ℕ × String)

-- A body that is within the limit is extracted.
abbrev pub ExtractsUpTo : ℕ → Extract → Type 0
ExtractsUpTo limit extract = (body : List ℕ) → length body ≤ limit → extract body ≡ ok body

-- What the handler meets: the `x-cpu-passes` header, the body, whether the semaphore is open and whether
-- the blocking task ends without a panic.
pub record Call : Type 0 where
  pub header : Option (List ℕ)
  pub body : List ℕ
  pub slot_acquired : Bool
  pub task_ended : Bool

module _ {F : Type 0} (fl : Float64 F) where
  abbrev pub respond : StubResult F → InferResponse F
  respond result = record {
    rms = result.rms;
    zero_crossings = result.zero_crossings;
    checksum = result.checksum;
    samples = result.samples;
    transcript = result.transcript;
    audio_bytes = result.audio_bytes;
  }

  -- The body of `infer`, behind its extractors.
  abbrev pub infer_body :
      (default_passes : ℕ)
      → Call
      → Result (List ℕ) (ℕ × String)
      → Result (InferResponse F) (ℕ × String)
  infer_body default_passes call (err rejection) = err rejection
  infer_body default_passes call (ok body) =
      if not (length body % 2 == 0)
      then err (400, "body length must be even (i16 PCM)")
      else if not call.slot_acquired
      then err (503, "concurrency sem closed")
      else if not call.task_ended
      then err (500, "compute failed")
      else ok (respond (compute_stub fl body (passes_of call.header default_passes)))

  -- `infer`
  unfoldable pub infer :
      Extract → (default_passes : ℕ) → Call → Result (InferResponse F) (ℕ × String)
  infer extract default_passes call = infer_body default_passes call (extract call.body)
