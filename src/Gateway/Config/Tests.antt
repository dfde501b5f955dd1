-- ===== src/Gateway/Config/Tests.antt =====
-- services/rust-sync/src/config.rs: `parses_url_authority`, and the settings of an empty environment.
use websocket_stt_bench.Common.{◌≡◌, refl, none}
use websocket_stt_bench.Gateway.Text.{chars, split, parse_unsigned}
use websocket_stt_bench.Gateway.Config.{from_env, parse_authority}

with_port_test :
    parse_authority (chars "http://inference-server:9000") ≡ (chars "inference-server", 9000)
unfolding parse_authority split parse_unsigned
with_port_test = refl

with_path_test : parse_authority (chars "http://host:1234/infer") ≡ (chars "host", 1234)
unfolding parse_authority split parse_unsigned
with_path_test = refl

bare_host_test : parse_authority (chars "http://host") ≡ (chars "host", 80)
unfolding parse_authority split parse_unsigned
bare_host_test = refl

default_port_test : (from_env (λ name. none)).port ≡ 10000
unfolding from_env
default_port_test = refl

default_interval_test : (from_env (λ name. none)).flush_interval ≡ 1000000000
unfolding from_env
default_interval_test = refl
