-- ===== src/Axum/EndToEnd.antt =====
-- services/rust-axum, services/inference-server and loadgen/rust together: a batch of the load generator's
-- frames, from the gateway's request to the load generator's verification of the partial.
use websocket_stt_bench.Common.{
  ℕ, ◌+◌, ◌*◌, ◌^◌, ◌≤◌, ◌<◌, ◌≡◌, refl, subst, ap, ◌∙◌, arith, String, true, some, List, [], ◌∷◌,
  ◌++◌, ltb, if_cases, ok, length, length-append, All,
}
use websocket_stt_bench.Common.Float.{Float64}
use websocket_stt_bench.Stub.{compute_stub}
use websocket_stt_bench.Loadgen.Protocol.{frame_payload, frame_bytes}
use websocket_stt_bench.Loadgen.Protocol as Client
use websocket_stt_bench.Loadgen.Protocol.Payload.{frame_payload_range}
use websocket_stt_bench.Loadgen.Verify.{
  payload_frames, concat_payload, expected_stub, rms_matches, verify_partial, max_verify_frames,
}
use websocket_stt_bench.Loadgen.Verify.Values.{verify_partial-nil_iff}
use websocket_stt_bench.Gateway.Text.{decimal}
use websocket_stt_bench.InferenceServer.{
  Extract, ExtractsUpTo, Call, infer, respond, passes_of, visible,
}
use websocket_stt_bench.InferenceServer as Server
use websocket_stt_bench.InferenceServer.Replies.{infer-respond}
use websocket_stt_bench.Axum.Protocol.{Json, Frame, InferResponse, PartialMessage, new_partial}
use websocket_stt_bench.Axum.Inference.{
  AppContext, Request, batch_of, newest_of, body_of, concat_pcm, responded, on_success,
  request_partial,
}
use websocket_stt_bench.Axum.Session.Content.{IsGenerated, DeliversAll, run-Held}
use websocket_stt_bench.Axum.Session.Client.{run_requesting}
use websocket_stt_bench.Axum.Session.Ledger.{Readable, inflight}
use websocket_stt_bench.Axum.Session.{Event, new_conn, run, requesting}
use websocket_stt_bench.Axum.Session.Runs.{Run, Run-range}

-- The body of a batch of consecutive generated frames is the load generator's own concatenation.
concat_pcm-payload_frames :
    (id : ℕ) (f : Frame) (fs : List Frame) (n : ℕ)
    → Run f.seq fs n
    → All (IsGenerated id) (f ∷ fs)
    → concat_pcm (f ∷ fs) ≡ payload_frames id f.seq (length (f ∷ fs))
unfolding concat_pcm payload_frames
concat_pcm-payload_frames id f [] n h g = ap (λ p. p ++ []) g.0
concat_pcm-payload_frames id f (x ∷ fs) n h g = rw g.0 (
    ap (◌++◌ (frame_payload id f.seq)) (
      concat_pcm-payload_frames id x fs n h.1 g.1
      ∙ ap (λ k. payload_frames id k (length (x ∷ fs))) h.0))

length-concat_pcm :
    (id : ℕ) (fs : List Frame)
    → All (IsGenerated id) fs
    → length (concat_pcm fs) ≡ length fs * frame_bytes
unfolding concat_pcm
length-concat_pcm id [] g = omega arith
length-concat_pcm id (f ∷ fs) g = omega (
  arith,
  length-append f.payload (concat_pcm fs),
  ap length g.0,
  (frame_payload_range id f.seq).0,
  length-concat_pcm id fs g.1,
)

payload_frames-range :
    (id oldest newest count : ℕ)
    → newest + 1 ≡ oldest + count
    → 0 < count
    → payload_frames id oldest count ≡ concat_payload id oldest newest
unfolding concat_payload
payload_frames-range id oldest newest count e h =
    if_cases (λ b. payload_frames id oldest count ≡ b) (ltb newest oldest)
      (λ x. absurd (ground (arith, x, e, h)))
      (λ x. ap (payload_frames id oldest) (ground (arith, x, e)))

body-concat_payload :
    {F : Type 0}
    → (id : ℕ) (r : Request F) (n : ℕ) → Run r.oldest.seq r.others n
    → All (IsGenerated id) (batch_of r)
    → body_of r ≡ concat_payload id r.oldest.seq (newest_of r).seq
body-concat_payload id r n h g =
    let (last, range) = Run-range r.oldest r.others n h in
    concat_pcm-payload_frames id r.oldest r.others n h g
    ∙ payload_frames-range id r.oldest.seq (newest_of r).seq (length (batch_of r))
        (omega (arith, last, range)) (omega arith)

module _ {F : Type 0} where
  -- The same fields, on the other side of the wire; the float may have changed within the tolerance.
  abbrev pub infer_read : Server.InferResponse F → InferResponse F
  infer_read x = record {
    rms = x.rms;
    zero_crossings = x.zero_crossings;
    checksum = x.checksum;
    samples = x.samples;
    transcript = x.transcript;
    audio_bytes = x.audio_bytes;
  }

  abbrev pub partial_read : F → PartialMessage F → Client.PartialMessage F
  partial_read rms p = record {
    oldest_frame_seq = p.oldest_frame_seq;
    newest_frame_seq = p.newest_frame_seq;
    frames = p.frames;
    rms = rms;
    zero_crossings = p.zero_crossings;
    checksum = p.checksum;
    samples = p.samples;
    transcript = p.transcript;
    audio_bytes = p.audio_bytes;
    cpu_passes = p.cpu_passes;
    model_delay_ms = p.model_delay_ms;
    flush_lateness_ms = p.flush_lateness_ms;
    inflight_model_jobs = p.inflight_model_jobs;
  }

module _ {F : Type 0} (fl : Float64 F) where
  -- For any batch of consecutive generated frames.
  honest_partial :
      (extract : Extract) (limit id default_passes : ℕ) (status_message : ℕ → String)
      (context : AppContext) (r : Request F) (n now buffered : ℕ) (rms : F)
      → context.cpu_passes < 2 ^ 32
      → 0 < r.oldest.seq
      → Run r.oldest.seq r.others n
      → All (IsGenerated id) (batch_of r)
      → length (batch_of r) ≤ max_verify_frames
      → ExtractsUpTo limit extract
      → length (batch_of r) * frame_bytes ≤ limit
      → rms_matches fl rms
          (expected_stub fl id r.oldest.seq (newest_of r).seq context.cpu_passes).rms
        ≡ true
      → (x : Server.InferResponse F) × (infer fl extract default_passes (record {
        header = some (decimal context.cpu_passes);
        body = body_of r;
        slot_acquired = true;
        task_ended = true;
      })
          ≡ ok x)
        × (p : PartialMessage F) × (request_partial fl status_message context r now buffered
              (responded 200 (ok (infer_read x)))
            ≡ ok p)
        × (verify_partial fl id
              (partial_read rms p)
              (record { cpu_passes = context.cpu_passes; model_delay_ms = context.model_delay_ms })
            ≡ [])
  unfolding request_partial on_success new_partial compute_stub expected_stub
  honest_partial extract limit id default_passes status_message context r n now buffered rms small
        pos consecutive generated bounded extracts fits close =
      let body = body_of r in
      let size = length-concat_pcm id (batch_of r) generated in
      let (last, range) = Run-range r.oldest r.others n consecutive in
      let same = body-concat_payload id r n consecutive generated in
      (
        respond fl (compute_stub fl body context.cpu_passes),
        infer-respond fl extract limit default_passes context.cpu_passes body extracts
            (omega (arith, size, fits)) small (omega (arith, size)),
        _,
        refl,
        (verify_partial-nil_iff fl id _ _).1 (record {
          positive = pos;
          ordered = omega (arith, range, last);
          frames = omega (arith, range, last);
          audio_bytes = size;
          cpu_passes = refl;
          model_delay_ms = refl;
          bounded = bounded;
          values = record {
            checksum = ap (λ b. (compute_stub fl b context.cpu_passes).checksum) same;
            zero_crossings = ap (λ b. (compute_stub fl b context.cpu_passes).zero_crossings) same;
            samples = ap (λ b. (compute_stub fl b context.cpu_passes).samples) same;
            rms = close;
            transcript = ap (λ b. (compute_stub fl b context.cpu_passes).transcript) same;
          };
        }),
      )

  -- An honest pipeline is never accused. Take any connection whose binary messages are, in order, the frames
  -- of one session of the load generator, after any steps of its two tasks, and any request that its flush
  -- loop then has in flight, of at most 30000 frames and within the limit of the inference server on bodies
  -- (3276 frames, at the default of 2 MiB). If JSON keeps the ranges of messages and the `f64` that
  -- arrives is within the tolerance of the stub's, then the inference server, when it has a slot and its
  -- task ends, answers the request, passes header included, with a result; from this the gateway makes a
  -- partial; and the load generator's verification of the partial, as that session's and with the gateway's
  -- settings, finds nothing.
  pub honest_run :
      {T : Type 0}
      → (json : Json F T) (range_of : T → ℕ × ℕ) (status_message : ℕ → String)
        (context : AppContext) (extract : Extract) (limit id default_passes : ℕ)
        (es : List (Event F)) (r : Request F) (now buffered : ℕ) (rms : F)
      → Readable json range_of
      → context.cpu_passes < 2 ^ 32
      → DeliversAll fl json status_message context range_of id new_conn es
      → (run fl json status_message context es new_conn).flusher ≡ requesting r
      → length (batch_of r) ≤ max_verify_frames
      → ExtractsUpTo limit extract
      → length (batch_of r) * frame_bytes ≤ limit
      → rms_matches fl rms
          (expected_stub fl id r.oldest.seq (newest_of r).seq context.cpu_passes).rms
        ≡ true
      → (x : Server.InferResponse F) × (infer fl extract default_passes (record {
        header = some (decimal context.cpu_passes);
        body = body_of r;
        slot_acquired = true;
        task_ended = true;
      })
          ≡ ok x)
        × (p : PartialMessage F) × (request_partial fl status_message context r now buffered
              (responded 200 (ok (infer_read x)))
            ≡ ok p)
        × (verify_partial fl id
              (partial_read rms p)
              (record { cpu_passes = context.cpu_passes; model_delay_ms = context.model_delay_ms })
            ≡ [])
  honest_run json range_of status_message context extract limit id default_passes es r now buffered
        rms read small delivered flying bounded extracts fits close =
      let (pos, consecutive) =
        run_requesting fl json status_message context range_of read es r flying in
      let held =
        run-Held fl json status_message context range_of id es new_conn delivered (tt, tt) in
      honest_partial extract limit id default_passes status_message context r (newest_of r).seq now
        buffered rms small pos consecutive
        (subst (λ f. All (IsGenerated id) (inflight range_of f)) flying held.0) bounded extracts
        fits close
