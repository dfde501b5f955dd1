-- ===== src/InferenceServer/Replies.antt =====
-- services/inference-server/src/main.rs: what `/infer` answers.
use websocket_stt_bench.Common.{
  ℕ, ◌%◌, ◌^◌, ◌<◌, ◌≤◌, ◌≡◌, refl, ap, arith, true, some, List, [], ◌∷◌, length, All, ok,
}
use websocket_stt_bench.Common.Float.{Float64}
use websocket_stt_bench.Stub.{compute_stub}
use websocket_stt_bench.Gateway.Text.{decimal}
use websocket_stt_bench.Gateway.Text.Numbers.{IsDigit, decimal-IsDigit, parse_unsigned-decimal}
use websocket_stt_bench.InferenceServer.{Extract, ExtractsUpTo, infer, respond, passes_of, visible}

visible-IsDigit : (bs : List ℕ) → All IsDigit bs → visible bs ≡ true
visible-IsDigit [] h = refl
visible-IsDigit (b ∷ bs) h = ground (arith, visible-IsDigit bs h.1, h.0.0, h.0.1)

-- The number of passes that a gateway writes into the header is the one that the server reads.
pub passes_of-decimal : (n default : ℕ) → n < 2 ^ 32 → passes_of (some (decimal n)) default ≡ n
passes_of-decimal n default h =
    rw (visible-IsDigit (decimal n) (decimal-IsDigit n))
      (rw (parse_unsigned-decimal (2 ^ 32) n h (omega (arith, h))) refl)

module _ {F : Type 0} (fl : Float64 F) where
  pub infer-respond :
      (extract : Extract) (limit default passes : ℕ) (body : List ℕ)
      → ExtractsUpTo limit extract
      → length body ≤ limit
      → passes < 2 ^ 32
      → length body % 2 ≡ 0
      → infer fl extract default (record {
        header = some (decimal passes);
        body = body;
        slot_acquired = true;
        task_ended = true;
      })
        ≡ ok (respond fl (compute_stub fl body passes))
  unfolding infer
  infer-respond extract limit default passes body extracts fits h even = rw (extracts body fits) (
      rw even
        (ap (λ n. ok (respond fl (compute_stub fl body n))) (passes_of-decimal passes default h)))
