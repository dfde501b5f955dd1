-- ===== src/Loadgen/Driver/System.antt =====
-- loadgen/rust/src/main.rs: all sessions and the verifier thread, interleaved. A step is one message of one
-- session, or one job of the verifier. A session's task ends with its first message that is not
-- `InboundState::Open`.
pub mod Verdict
use websocket_stt_bench.Common.{ℕ, Bool, true, false, Option, List, [], ◌∷◌, ◌==◌, if◌then◌else◌}
use websocket_stt_bench.Common.Float.{Float64}
use websocket_stt_bench.Loadgen.Protocol.{ServerMessage}
use websocket_stt_bench.Loadgen.Verify.{ExpectedConfig}
use websocket_stt_bench.Loadgen.Driver.Correctness.{new_correctness}
use websocket_stt_bench.Loadgen.Driver.Receive.{
  VerifyJob, World, SessionCheck, new_check, Session, Arrival, Handled, InboundState, open_session,
  closed_session, session_error, process_inbound, verify_job,
}

pub record System (F : Type 0) : Type 0 where
  pub world : World F
  pub checks : ℕ → SessionCheck
  pub ended : ℕ → Bool

pub data Happening (T : Type 0) : Type 0 where
  arrives : Session → (sent_times : List ℕ) → Arrival T → Happening T
  verifies : Happening T

abbrev pub update : {A : Type 0} → (ℕ → A) → ℕ → A → ℕ → A
update f i a j = if j == i then a else f j

abbrev pub has_ended : InboundState → Bool
has_ended open_session = false
has_ended closed_session = true
has_ended session_error = true

module _ {F T : Type 0} (fl : Float64 F) (from_str : T → Option (ServerMessage F)) where
  -- The state of a run with these settings, before its first message.
  unfoldable pub new_system : ExpectedConfig → ℕ → System F
  unfolding new_correctness
  new_system expected verify_every = record {
    world = record {
      correctness = new_correctness expected verify_every;
      inference_errors = 0;
      error_details = record { counts = []; samples = [] };
      queue = [];
      verifier_alive = true;
      samples = [];
    };
    checks = λ i. new_check;
    ended = λ i. false;
  }

  abbrev pub settle : System F → Session → Handled F → System F
  settle y s h = record {
    world = h.world;
    checks = update y.checks s.id h.check;
    ended = update y.ended s.id (has_ended h.state);
  }

  abbrev pub pop_job : List (VerifyJob F) → World F → World F
  pop_job [] w = w
  pop_job (job ∷ rest) w = record w { correctness = verify_job fl w.correctness job; queue = rest }

  unfoldable pub happen : System F → Happening T → System F
  unfolding process_inbound verify_job
  happen y (arrives s sent_times a) =
      if y.ended s.id
      then y
      else settle y s (process_inbound fl from_str s y.world (y.checks s.id) sent_times a)
  happen y verifies = record y { world = pop_job y.world.queue y.world }

  unfoldable pub happen_all : System F → List (Happening T) → System F
  unfolding happen
  happen_all y [] = y
  happen_all y (h ∷ rest) = happen_all (happen y h) rest
