-- ===== src/Gateway/Producer/Runs.antt =====
-- producer.rs: `admission_runs`, the run lengths of the segment numbers of a batch.
--
-- The source extends the last run in place; the model carries it along the rest of the numbers.
pub mod Lengths
use trackone.Prelude.{ℕ, ◌+◌, Bool, true, false, List, [], ◌∷◌, ◌==◌}
use trackone.Prelude.Outcome.{Outcome, done, failed, ◌>>=◌}
use trackone.Gateway.Producer.{AdmissionRun, ProducerError, counter_overflow, checked_add, ok_or}

-- The runs, with `run` open in front.
unfoldable pub runs_from : AdmissionRun → List ℕ → Outcome ProducerError (List AdmissionRun)
runs_from run [] = done (run ∷ [])
runs_from run (number ∷ numbers) = elim (run.segment_number == number) [
  | true ↦ do
    record_count ← ok_or (checked_add run.record_count 1) (counter_overflow "admission run")
    runs_from (record { segment_number = run.segment_number; record_count = record_count }) numbers
  | false ↦ do
    runs ← runs_from (record { segment_number = number; record_count = 1 }) numbers
    done (run ∷ runs)
]

unfoldable pub admission_runs : List ℕ → Outcome ProducerError (List AdmissionRun)
unfolding runs_from
admission_runs [] = done []
admission_runs (number ∷ numbers) =
    runs_from (record { segment_number = number; record_count = 1 }) numbers
