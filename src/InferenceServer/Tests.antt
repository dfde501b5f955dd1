-- ===== src/InferenceServer/Tests.antt =====
-- services/inference-server/src/main.rs: a request on concrete bytes.
use websocket_stt_bench.Common.{ℕ, ◌*◌, arith, ok, err, leb, length, if◌then◌else◌}
use websocket_stt_bench.InferenceServer.{Extract, ExtractsUpTo}

abbrev pub default_limit : ℕ
default_limit = 2 * 1024 * 1024

abbrev pub limited : Extract
limited body =
    if leb (length body) default_limit then ok body else err (413, "length limit exceeded")

pub limited-ExtractsUpTo : ExtractsUpTo default_limit limited
limited-ExtractsUpTo body h = ground (arith, h)
