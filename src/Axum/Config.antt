-- ===== src/Axum/Config.antt =====
-- services/rust-axum/src/config.rs, main.rs and state.rs: the settings, read from the environment. Texts are
-- lists of scalar values; an environment gives the value of a variable.
pub mod Ranges
mod Tests
use websocket_stt_bench.Common.{
  ℕ, ◌+◌, ◌*◌, ◌%◌, ◌^◌, max, String, Option, none, some, List, [], ◌∷◌, ◌++◌, ltb, ◌==◌,
  if◌then◌else◌, Bool, true, false,
}
use websocket_stt_bench.Gateway.Text.{chars, parse_unsigned, decimal}
use websocket_stt_bench.Axum.Inference.{AppContext}

abbrev pub default_flush_interval_ms : ℕ
default_flush_interval_ms = 1000

abbrev pub default_cpu_passes : ℕ
default_cpu_passes = 4

abbrev pub default_model_delay_ms : ℕ
default_model_delay_ms = 75

abbrev pub default_flush_phase_jitter_ms : ℕ
default_flush_phase_jitter_ms = 0

abbrev pub default_inference_http_clients : ℕ
default_inference_http_clients = 512

abbrev pub default_inference_url : String
default_inference_url = "http://inference-server:9000"

abbrev pub or_default : Option ℕ → ℕ → ℕ
or_default none default = default
or_default (some n) default = n

-- `env_parsed`, of an unsigned type whose values are below `bound`.
unfoldable pub env_parsed : Option (List ℕ) → (bound default : ℕ) → ℕ
env_parsed none bound default = default
env_parsed (some value) bound default = or_default (parse_unsigned bound value) default

-- `available_parallelism` is an argument.
unfoldable pub resolve_worker_threads : (String → Option (List ℕ)) → Option ℕ → ℕ
unfolding env_parsed
resolve_worker_threads var available_parallelism =
    let configured = env_parsed (var "WORKER_THREADS") (2 ^ 64) 0 in
    if ltb 0 configured then configured else or_default available_parallelism 1

-- `trim_end_matches`, of one value.
abbrev pub cons_trimmed : ℕ → ℕ → List ℕ → List ℕ
cons_trimmed sep c [] = if c == sep then [] else c ∷ []
cons_trimmed sep c (d ∷ rest) = c ∷ d ∷ rest

unfoldable pub trim_end_matches : ℕ → List ℕ → List ℕ
trim_end_matches sep [] = []
trim_end_matches sep (c ∷ cs) = cons_trimmed sep c (trim_end_matches sep cs)

abbrev or_text : Option (List ℕ) → List ℕ → List ℕ
or_text none d = d
or_text (some t) d = t

-- What `async_main` reads; the address that it listens on is its port.
pub record Settings : Type 0 where
  pub context : AppContext
  pub inference_http_clients : ℕ
  pub inference_url : List ℕ
  pub cpu_passes_header : List ℕ
  pub flush_phase_jitter : ℕ
  pub port : ℕ

unfoldable pub read_settings : (String → Option (List ℕ)) → Settings
unfolding env_parsed trim_end_matches
read_settings var =
    let cpu_passes = env_parsed (var "CPU_PASSES") (2 ^ 32) default_cpu_passes in
    let flush_ms =
      max (env_parsed (var "FLUSH_INTERVAL_MS") (2 ^ 64) default_flush_interval_ms) 1 in
    record {
      context = record {
        cpu_passes = cpu_passes;
        model_delay_ms = env_parsed (var "MODEL_DELAY_MS") (2 ^ 64) default_model_delay_ms;
        flush_interval = flush_ms * 1000000;
      };
      inference_http_clients =
          max (env_parsed (var "INFERENCE_HTTP_CLIENTS") (2 ^ 64) default_inference_http_clients) 1;
      inference_url =
          trim_end_matches 47 (or_text (var "INFERENCE_URL") (chars default_inference_url))
          ++ chars "/infer";
      cpu_passes_header = decimal cpu_passes;
      flush_phase_jitter =
          env_parsed (var "FLUSH_PHASE_JITTER_MS") (2 ^ 64) default_flush_phase_jitter_ms * 1000000;
      port = env_parsed (var "PORT") (2 ^ 16) 3000;
    }
