-- ===== src/Axum/Config/Tests.antt =====
-- services/rust-axum/src: settings read from a concrete environment.
use websocket_stt_bench.Common.{
  ℕ, ◌≡◌, refl, String, Option, none, some, List, str_eq, if◌then◌else◌,
}
use websocket_stt_bench.Gateway.Text.{chars}
use websocket_stt_bench.Axum.Config.{read_settings}

abbrev environment : String → Option (List ℕ)
environment name =
    if str_eq name "INFERENCE_URL"
    then some (chars "http://stub:9000//")
    else if str_eq name "FLUSH_INTERVAL_MS"
    then some (chars "0")
    else none

read_url : (read_settings environment).inference_url ≡ chars "http://stub:9000/infer"
unfolding read_settings
read_url = refl
