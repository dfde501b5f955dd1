-- ===== src/Loadgen/Driver/Outcomes.antt =====
-- loadgen/rust/src/main.rs: how sessions end, and the counters of timeouts and of gateway errors.
pub mod Sessions
use Prim.Native.Nat.{Ordering}
use Prim.Native.Nat.Ordering.{eq}
use Prim.Native.String.{compare as compare_texts}
use text.Mathlib.TextEquality.{path_by_compare}
use websocket_stt_bench.Common.{
  ℕ, suc, ◌+◌, ◌≤◌, ◌≡◌, refl, ap, ◌∙◌, arith, String, Bool, true, false, not, ◌&&◌, Option, none,
  some, List, [], ◌∷◌, ◌++◌, ltb, ◌==◌, str_eq, if◌then◌else◌, length, Result, ok, err,
}
use websocket_stt_bench.Common.Counts.{Key, bump}
use websocket_stt_bench.Loadgen.Protocol.{ErrorMessage}

pub data TimeoutKind : Type 0 where
  connect_timeout send_timeout close_timeout session_timeout : TimeoutKind

pub record TimeoutCounters : Type 0 where
  pub connect : ℕ
  pub send : ℕ
  pub close : ℕ
  pub session : ℕ

abbrev pub no_timeouts : TimeoutCounters
no_timeouts = record { connect = 0; send = 0; close = 0; session = 0 }

unfoldable pub increment : TimeoutCounters → TimeoutKind → TimeoutCounters
increment c connect_timeout = record c { connect = c.connect + 1 }
increment c send_timeout = record c { send = c.send + 1 }
increment c close_timeout = record c { close = c.close + 1 }
increment c session_timeout = record c { session = c.session + 1 }

-- A session's failures: one that its timer reports, or another error.
pub data Failure : Type 0 where
  timed_out : TimeoutKind → Failure
  other_error : String → Failure

pub record Tally : Type 0 where
  pub protocol_errors : ℕ
  pub timeouts : TimeoutCounters

-- What the futures of a session end with: `timed` and the close grace count their timeout and fail; the
-- deadline of the whole session drops the session before it ends.
pub data SessionEnd : Type 0 where
  finished : SessionEnd
  failed : Failure → SessionEnd
  deadline_elapsed : SessionEnd

-- `timed`, given how its future ends: a value, an error, or not in time.
pub data Timed (A : Type 0) : Type 0 where
  in_time : Result A String → Timed A
  elapsed : Timed A

unfoldable pub timed :
    {A : Type 0} → TimeoutCounters → TimeoutKind → Timed A → TimeoutCounters × Result A Failure
unfolding increment
timed c kind (in_time (ok a)) = (c, ok a)
timed c kind (in_time (err e)) = (c, err (other_error e))
timed c kind elapsed = (increment c kind, err (timed_out kind))

unfoldable pub record_session_outcome : Tally → SessionEnd → Tally
unfolding increment
record_session_outcome t finished = t
record_session_outcome t (failed f) = record t { protocol_errors = t.protocol_errors + 1 }
record_session_outcome t deadline_elapsed = record t {
  protocol_errors = t.protocol_errors + 1;
  timeouts = increment t.timeouts session_timeout;
}

abbrev pub max_inference_error_samples : ℕ
max_inference_error_samples = 5

pub record InferenceErrorSample : Type 0 where
  pub stage : String
  pub kind : String
  pub message : String
  pub inference_status : Option ℕ
  pub retryable : Bool

pub record InferenceErrorDetails : Type 0 where
  pub counts : List ((String × String) × ℕ)
  pub samples : List InferenceErrorSample

-- The order of a `BTreeMap` with keys of two texts.
abbrev compare_second : Ordering → String → String → Ordering
compare_second eq k k' = compare_texts k k'
compare_second o k k' = o

abbrev compare_keys : String × String → String × String → Ordering
compare_keys (s, k) (s', k') = compare_second (compare_texts s s') k k'

compare_keys_eq :
    (a b : String × String) (c : Ordering)
    → compare_texts a.0 b.0 ≡ c
    → compare_second c a.1 b.1 ≡ eq
    → a ≡ b
compare_keys_eq a b eq e h = cc (path_by_compare a.0 b.0 e, path_by_compare a.1 b.1 h)
compare_keys_eq a b Ordering.lt e h = cc
compare_keys_eq a b Ordering.gt e h = cc

instance pub text_keys : Key (String × String)
text_keys = record {
  cmp = compare_keys;
  eq_of_cmp = λ a b. compare_keys_eq a b (compare_texts a.0 b.0) refl;
}

abbrev sample_of : {F : Type 0} → ErrorMessage F → InferenceErrorSample
sample_of e = record {
  stage = e.stage;
  kind = e.kind;
  message = e.message;
  inference_status = e.inference_status;
  retryable = e.retryable;
}

abbrev same_status : Option ℕ → Option ℕ → Bool
same_status none none = true
same_status (some a) (some b) = a == b
same_status _ _ = false

abbrev same_flag : Bool → Bool → Bool
same_flag true b = b
same_flag false b = not b

-- The derived `PartialEq`.
abbrev same_sample : InferenceErrorSample → InferenceErrorSample → Bool
same_sample a b =
    str_eq a.stage b.stage
    && str_eq a.kind b.kind
    && str_eq a.message b.message
    && same_status a.inference_status b.inference_status
    && same_flag a.retryable b.retryable

unfoldable pub contains : List InferenceErrorSample → InferenceErrorSample → Bool
contains [] s = false
contains (x ∷ xs) s = let rest = contains xs s in if same_sample x s then true else rest

-- `InferenceErrorDetails::record`
unfoldable pub record_error :
    {F : Type 0} → InferenceErrorDetails → ErrorMessage F → InferenceErrorDetails
unfolding contains
record_error d e = record {
  counts = bump (e.stage, e.kind) d.counts;
  samples =
      if ltb (length d.samples) max_inference_error_samples
        && not (contains d.samples (sample_of e))
      then d.samples ++ sample_of e ∷ []
      else d.samples;
}
