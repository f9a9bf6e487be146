-- ===== src/Gateway/Producer/Runs/Lengths.antt =====
-- producer.rs: the runs of `admission_runs` and the numbers they stand for.
use trackone.Prelude.{
  ℕ, zero, suc, ◌+◌, ◌^◌, ◌<◌, ◌≡◌, ◌≢◌, refl, sym, ap, ◌∙◌, arith, inl, inr, List, [], ◌∷◌, ◌++◌,
  length, replicate, ◌==◌, Bool-cases, ==→eq, not_==→ne,
}
use native.Mathlib.Numerals.{add-one}
use trackone.Prelude.Outcome.{done}
use trackone.Gateway.Producer.{AdmissionRun}
use trackone.Gateway.Producer.Counters.{checked_add-fits}
use trackone.Gateway.Producer.Runs.{runs_from, admission_runs}

-- The numbers that some runs stand for.
abbrev pub expand : List AdmissionRun → List ℕ
expand [] = []
expand (run ∷ runs) = replicate run.record_count run.segment_number ++ expand runs

abbrev pub Differs : AdmissionRun → List AdmissionRun → Type 0
Differs run [] = Unit {0}
Differs run (next ∷ runs) = run.segment_number ≢ next.segment_number

-- Runs that are not empty and cannot be joined.
abbrev pub AreMaximal : List AdmissionRun → Type 0
AreMaximal [] = Unit {0}
AreMaximal (run ∷ runs) = (0 < run.record_count) × (Differs run runs × AreMaximal runs)

replicate-append : (n a : ℕ) (xs : List ℕ) → replicate n a ++ (a ∷ xs) ≡ a ∷ (replicate n a ++ xs)
replicate-append zero a xs = refl
replicate-append (suc n) a xs = ap (◌∷◌ a) (replicate-append n a xs)

-- The runs from an open run on.
record Encoding (run : AdmissionRun) (numbers : List ℕ) : Type 0 where
  first : AdmissionRun
  rest : List AdmissionRun
  result : runs_from run numbers ≡ done (first ∷ rest)
  number : first.segment_number ≡ run.segment_number
  whole : expand (first ∷ rest) ≡ replicate run.record_count run.segment_number ++ numbers
  maximal : AreMaximal (first ∷ rest)

runs_from_complete :
    (run : AdmissionRun) (numbers : List ℕ)
    → 0 < run.record_count
    → run.record_count + length numbers < 2 ^ 64
    → Encoding run numbers
unfolding runs_from
runs_from_complete run [] pos small = record {
  first = run;
  rest = [];
  result = refl;
  number = refl;
  whole = refl;
  maximal = (pos, (tt, tt));
}
runs_from_complete run (n ∷ ns) pos small = elim (Bool-cases (run.segment_number == n)) [
  | inl same ↦
      let longer : AdmissionRun = record {
        segment_number = run.segment_number;
        record_count = run.record_count + 1;
      } in
      let r = runs_from_complete longer ns (omega arith) (omega arith) in
      record {
        first = r.first;
        rest = r.rest;
        result = rw (same, runs_from, checked_add-fits run.record_count 1 (omega arith)) r.result;
        number = r.number;
        whole = r.whole ∙ grown run.record_count run.segment_number n ns (==→eq _ _ same);
        maximal = r.maximal;
      }
  | inr other ↦
      let r =
        runs_from_complete (record { segment_number = n; record_count = 1 }) ns (omega arith)
          (omega arith) in
      record {
        first = run;
        rest = r.first ∷ r.rest;
        result = rw (other, runs_from, r.result) refl;
        number = refl;
        whole = ap (◌++◌ (replicate run.record_count run.segment_number)) r.whole;
        maximal = (pos, (λ e. not_==→ne _ _ other (e ∙ r.number), r.maximal));
      }
]
  where
    grown :
        (c a n : ℕ) (ns : List ℕ) → a ≡ n → replicate (c + 1) a ++ ns ≡ replicate c a ++ (n ∷ ns)
    grown c a n ns e = rw (sym e, add-one) (sym (replicate-append c a ns))

-- The runs of fewer than 2^64 segment numbers are their run-length encoding: written out they are
-- the numbers again, none is empty, and neighbours have different numbers.
pub admission_runs_lengths :
    (numbers : List ℕ)
    → length numbers < 2 ^ 64
    → (runs : List AdmissionRun) × (admission_runs numbers ≡ done runs)
      × (expand runs ≡ numbers)
      × AreMaximal runs
unfolding admission_runs
admission_runs_lengths [] small = ([], refl, refl, tt)
admission_runs_lengths (n ∷ ns) small =
    let r =
      runs_from_complete (record { segment_number = n; record_count = 1 }) ns (omega arith)
        (omega arith) in
    (r.first ∷ r.rest, r.result, r.whole, r.maximal)
