-- ===== src/Gateway/Producer/Deltas.antt =====
-- producer.rs: `record_deltas`, where each admitted record of a batch has gone.
use trackone.Prelude.{
  ℕ, ◌+◌, ◌-◌, Bool, true, false, ◌&&◌, ◌||◌, not, List, [], ◌∷◌, map, length, ltb, ◌==◌,
  if◌then◌else◌,
}
use trackone.Prelude.Outcome.{Outcome, done, failed, ◌>>=◌}
use trackone.Prelude.Text.{bytes_eq}
use trackone.Ledger.Hash.{Bytes}
use trackone.Gateway.Producer.{
  ProducerState, SealedSegment, RecordDestination, to_open, to_sealed, AdmittedRecordDelta,
  ProducerError, counter_overflow, concurrent_writer, checked_add, ok_or, count_u64,
}
use trackone.Gateway.Producer.Construct.{no_records}

-- `slice::starts_with`.
unfoldable pub starts_with : List Bytes → List Bytes → Bool
starts_with records [] = true
starts_with [] (p ∷ ps) = false
starts_with (r ∷ rs) (p ∷ ps) = bytes_eq r p && starts_with rs ps

unfoldable pub any_starts_with : List SealedSegment → List Bytes → Bool
unfolding starts_with
any_starts_with [] prefix = false
any_starts_with (g ∷ gs) prefix = starts_with g.records prefix || any_starts_with gs prefix

unfoldable pub contains : List ℕ → ℕ → Bool
contains [] n = false
contains (x ∷ xs) n = x == n || contains xs n

unfoldable pub count_of : List ℕ → ℕ → ℕ
count_of [] n = 0
count_of (x ∷ xs) n = (if x == n then 1 else 0) + count_of xs n

-- The map of the next ordinals; a missing entry is 0 (`or_default`).
abbrev pub Ordinals : Type 0
Ordinals = List (ℕ × ℕ)

unfoldable pub ordinal_of : Ordinals → ℕ → ℕ
ordinal_of [] number = 0
ordinal_of ((k, v) ∷ entries) number = if k == number then v else ordinal_of entries number

unfoldable pub set_ordinal : Ordinals → ℕ → ℕ → Ordinals
set_ordinal entries number ordinal = (number, ordinal) ∷ entries

abbrev delta : Bytes → RecordDestination → AdmittedRecordDelta
delta record_cbor destination = record { record_cbor = record_cbor; destination = destination }

-- The loop over the records and their numbers (`zip` ends with the shorter list).
unfoldable pub place_records :
    List ℕ → Ordinals → ℕ → List Bytes → List ℕ → Outcome ProducerError (List AdmittedRecordDelta)
unfolding contains ordinal_of set_ordinal
place_records sealed_numbers ordinals open_ordinal [] numbers = done []
place_records sealed_numbers ordinals open_ordinal (r ∷ rs) [] = done []
place_records sealed_numbers ordinals open_ordinal (r ∷ rs) (number ∷ numbers) =
    elim (contains sealed_numbers number) [
      | true ↦ do
        let ordinal = ordinal_of ordinals number
        next ← ok_or (checked_add ordinal 1) (counter_overflow "sealed record")
        deltas ←
            place_records sealed_numbers (set_ordinal ordinals number next) open_ordinal rs numbers
        done (delta r (to_sealed number ordinal) ∷ deltas)
      | false ↦ do
        next ← ok_or (checked_add open_ordinal 1) (counter_overflow "open record")
        deltas ← place_records sealed_numbers ordinals next rs numbers
        done (delta r (to_open open_ordinal) ∷ deltas)
    ]

abbrev pub number_of : SealedSegment → ℕ
number_of g = g.segment_number

unfoldable pub first_ordinals : ProducerState → List SealedSegment → Outcome ProducerError Ordinals
unfolding any_starts_with
first_ordinals previous sealed =
    let records = previous.open_interval.records in
    if not (no_records records) && any_starts_with sealed records
    then (do
      count ← count_u64 (length records) "sealed record"
      done ((previous.next_segment_number, count) ∷ []))
    else done []

unfoldable pub record_deltas :
    ProducerState
    → ProducerState
    → List SealedSegment
    → List Bytes
    → List ℕ
    → Outcome ProducerError (List AdmittedRecordDelta)
unfolding first_ordinals count_of place_records
record_deltas previous next sealed records segment_numbers = do
  ordinals ← first_ordinals previous sealed
  let admitted_open_count = count_of segment_numbers next.next_segment_number
  existing_open_count ←
      if ltb (length next.open_interval.records) admitted_open_count
      then failed concurrent_writer
      else done (length next.open_interval.records - admitted_open_count)
  open_ordinal ← count_u64 existing_open_count "open record"
  place_records (map number_of sealed) ordinals open_ordinal records segment_numbers
