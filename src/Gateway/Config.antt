-- ===== src/Gateway/Config.antt =====
-- services/rust-sync/src/config.rs: the constants and settings of the gateway. Durations are numbers
-- of nanoseconds, as `Duration` and `Instant` hold them; texts are lists of scalar values.
mod Tests
use websocket_stt_bench.Common.{
  ℕ, ◌*◌, ◌^◌, max, String, Option, none, some, List, [], ◌∷◌, ◌==◌, if◌then◌else◌,
}
use websocket_stt_bench.Gateway.Text.{chars, split, parse_unsigned}

abbrev pub frame_bytes : ℕ
frame_bytes = 640

abbrev pub reason_need_start : String
reason_need_start = "first message must be start"

abbrev pub reason_text_after_start : String
reason_text_after_start = "expected binary PCM frames after start"

abbrev pub reason_bad_frame_size : String
reason_bad_frame_size = "expected 640 byte PCM frame"

abbrev pub inference_timeout : ℕ
inference_timeout = 2000000000

pub record Config : Type 0 where
  pub port : ℕ
  pub inference_host : List ℕ
  pub inference_port : ℕ
  pub inference_path : List ℕ
  pub inference_clients : ℕ
  pub cpu_passes : ℕ
  pub model_delay_ms : ℕ
  pub flush_interval : ℕ
  pub flush_phase_jitter : ℕ

-- `strip_prefix("http://").unwrap_or(url)`
abbrev strip : List ℕ → List ℕ → Option (List ℕ)
strip [] text = some text
strip (p ∷ ps) [] = none
strip (p ∷ ps) (c ∷ cs) = if p == c then strip ps cs else none

-- `rsplit_once` at one value.
unfoldable rsplit_once : ℕ → List ℕ → Option (List ℕ × List ℕ)
rsplit_once sep [] = none
rsplit_once sep (c ∷ cs) = elim (rsplit_once sep cs) [
  | some r ↦ some (c ∷ r.0, r.1)
  | none ↦ if c == sep then some ([], cs) else none
]

abbrev or_text : Option (List ℕ) → List ℕ → List ℕ
or_text none d = d
or_text (some t) d = t

abbrev or_number : Option ℕ → ℕ → ℕ
or_number none d = d
or_number (some n) d = n

abbrev host_port : Option (List ℕ × List ℕ) → List ℕ → List ℕ × ℕ
host_port none authority = (authority, 80)
host_port (some (host, port)) authority = (host, or_number (parse_unsigned (2 ^ 16) port) 80)

-- Host and port; texts are lists of scalar values.
unfoldable parse_authority : List ℕ → List ℕ × ℕ
unfolding rsplit_once
parse_authority url =
    let authority = (split 47 (or_text (strip (chars "http://") url) url)).0 in
    host_port (rsplit_once 58 authority) authority

abbrev parsed_or : Option (List ℕ) → ℕ → ℕ → ℕ
parsed_or none bound default = default
parsed_or (some value) bound default = or_number (parse_unsigned bound value) default

-- `env_parsed`, given the variable and the bound of the type.
unfoldable env_parsed : Option (List ℕ) → ℕ → ℕ → ℕ
env_parsed value bound default = parsed_or value bound default

-- `Config::from_env`, given `env::var(..).ok()`, on a 64-bit machine.
unfoldable from_env : (String → Option (List ℕ)) → Config
unfolding env_parsed parse_authority
from_env var =
    let (host, inference_port) =
      parse_authority (or_text (var "INFERENCE_URL") (chars "http://inference-server:9000")) in
    record {
      port = env_parsed (var "PORT") (2 ^ 16) 10000;
      inference_host = host;
      inference_port = inference_port;
      inference_path = chars "/infer";
      inference_clients = max (env_parsed (var "INFERENCE_HTTP_CLIENTS") (2 ^ 64) 2048) 1;
      cpu_passes = env_parsed (var "CPU_PASSES") (2 ^ 32) 4;
      model_delay_ms = env_parsed (var "MODEL_DELAY_MS") (2 ^ 64) 75;
      flush_interval = max (env_parsed (var "FLUSH_INTERVAL_MS") (2 ^ 64) 1000) 1 * 1000000;
      flush_phase_jitter = env_parsed (var "FLUSH_PHASE_JITTER_MS") (2 ^ 64) 0 * 1000000;
    }
