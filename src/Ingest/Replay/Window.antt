-- ===== src/Ingest/Replay/Window.antt =====
-- crates/trackone-ingest/src/replay.rs: the window's invariant, and what each call admits.
use trackone.Prelude.{
  ℕ, ◌+◌, ◌-◌, ◌<◌, ◌≤◌, ◌≡◌, refl, ◌∙◌, Bool, true, false, ◌&&◌, not, Option, none, some, List, [],
  ltb, leb, ==_refl, ==→eq, sym, Option-cases, ltb→lt, if◌then◌else◌, Bool-cases, inl, inr, arith,
}
use mathlib.Core.Path.{subst}
use trackone.Ingest.RejectReason.{Admission, accept, reject, duplicate, out_of_window}
use trackone.Ingest.Replay.{
  ReplayWindow, insert, contains, retain_from, check_against, check_and_update,
}
use trackone.Ingest.Replay.Counters.{
  IsAscending, insert-IsAscending, retain_from-IsAscending, contains-insert, contains-retain_from,
}

-- Every counter of the list lies in the window of `size` below `highest`.
abbrev pub AllInWindow : ℕ → ℕ → List ℕ → Type 0
AllInWindow size highest fcs =
    (fc : ℕ) → contains fc fcs ≡ true → (highest ≤ fc + size) × (fc ≤ highest)

-- The high-water mark is one of the counters, and all of them lie in the window below it.
abbrev pub IsBelow : ℕ → Option ℕ → List ℕ → Type 0
IsBelow size none fcs = fcs ≡ []
IsBelow size (some highest) fcs = (contains highest fcs ≡ true) × AllInWindow size highest fcs

-- A well-formed window.
abbrev pub IsWindow : ReplayWindow → Type 0
IsWindow w = IsAscending w.seen × IsBelow w.window_size w.highest_fc_seen w.seen

-- The code's condition, for a counter below or above the high-water mark.
abbrev pub is_near : ℕ → ℕ → ℕ → Bool
is_near size highest fc = leb highest (fc + size) && leb fc (highest + size)

abbrev pub is_fresh : ReplayWindow → ℕ → Bool
is_fresh w fc = elim w.highest_fc_seen [
  | none ↦ true
  | some highest ↦ not (contains fc w.seen) && is_near w.window_size highest fc
]

-- The reason for which a counter that is not fresh is refused.
abbrev pub refusal : ReplayWindow → ℕ → Admission (Unit {0})
refusal w fc = if contains fc w.seen then reject duplicate else reject out_of_window

check_against_verdict :
    (w : ReplayWindow) (highest fc : ℕ)
    → (check_against w highest fc).1 ≡ (
        if not (contains fc w.seen) && is_near w.window_size highest fc
        then accept tt
        else refusal w fc)
unfolding check_against
check_against_verdict w highest fc = ground arith

-- The state after an accepted counter, and the same state after a refused one.
pub check_against_refused :
    (w : ReplayWindow) (highest fc : ℕ)
    → (not (contains fc w.seen) && is_near w.window_size highest fc) ≡ false
    → (check_against w highest fc).0 ≡ w
unfolding check_against
check_against_refused w highest fc h = ground arith

abbrev pub moved_up : ReplayWindow → ℕ → ReplayWindow
moved_up w fc = record w {
  highest_fc_seen = some fc;
  seen = insert fc (retain_from (fc - w.window_size) w.seen);
}

abbrev pub filled_in : ReplayWindow → ℕ → ReplayWindow
filled_in w fc = record w { seen = insert fc w.seen }

pub check_against_above :
    (w : ReplayWindow) (highest fc : ℕ)
    → (not (contains fc w.seen) && is_near w.window_size highest fc) ≡ true
    → ltb highest fc ≡ true
    → check_against w highest fc ≡ (moved_up w fc, accept tt)
unfolding check_against
check_against_above w highest fc h above = ground arith

pub check_against_below :
    (w : ReplayWindow) (highest fc : ℕ)
    → (not (contains fc w.seen) && is_near w.window_size highest fc) ≡ true
    → ltb highest fc ≡ false
    → check_against w highest fc ≡ (filled_in w fc, accept tt)
unfolding check_against
check_against_below w highest fc h below = ground arith

moved_up-IsWindow :
    (w : ReplayWindow) (highest fc : ℕ)
    → w.highest_fc_seen ≡ some highest
    → IsWindow w
    → highest < fc
    → IsWindow (moved_up w fc)
moved_up-IsWindow w highest fc e (up, below) above =
    let lower : ℕ = fc - w.window_size in
    let kept : List ℕ = retain_from lower w.seen in
    let b : IsBelow w.window_size (some highest) w.seen =
      subst (λ o. IsBelow w.window_size o w.seen) e below in
    (
      insert-IsAscending fc kept (retain_from-IsAscending lower w.seen up),
      (
        ground (arith, contains-insert fc fc kept, ==_refl fc),
        λ y m. ground (
          arith,
          contains-insert y fc kept,
          contains-retain_from y lower w.seen,
          b.1 y,
          ==→eq y fc,
        ),
      ),
    )

pub not_in_empty : (y : ℕ) {xs : List ℕ} → xs ≡ [] → contains y xs ≡ false
unfolding contains
not_in_empty y e = rw e refl

filled_in-IsWindow :
    (w : ReplayWindow) (highest fc : ℕ)
    → w.highest_fc_seen ≡ some highest
    → IsWindow w
    → is_near w.window_size highest fc ≡ true
    → ltb highest fc ≡ false
    → IsWindow (filled_in w fc)
filled_in-IsWindow w highest fc e (up, below) near under =
    let b : IsBelow w.window_size (some highest) w.seen =
      subst (λ o. IsBelow w.window_size o w.seen) e below in
    (
      insert-IsAscending fc w.seen up,
      subst (λ o. IsBelow w.window_size o (insert fc w.seen)) (sym e)
          (
            ground (arith, contains-insert highest fc w.seen, b.0),
            λ y m. ground (arith, contains-insert y fc w.seen, b.1 y, ==→eq y fc),
          ),
    )

first-IsWindow :
    (w : ReplayWindow) (fc : ℕ)
    → w.highest_fc_seen ≡ none
    → IsWindow w
    → IsWindow (record w { highest_fc_seen = some fc; seen = insert fc w.seen })
first-IsWindow w fc e (up, below) =
    let empty : w.seen ≡ [] = subst (λ o. IsBelow w.window_size o w.seen) e below in
    (
      insert-IsAscending fc w.seen up,
      (
        ground (arith, contains-insert fc fc w.seen, ==_refl fc),
        λ y m. ground (arith, contains-insert y fc w.seen, ==→eq y fc, not_in_empty y empty),
      ),
    )

check_against-IsWindow :
    (w : ReplayWindow) (highest fc : ℕ)
    → w.highest_fc_seen ≡ some highest
    → IsWindow w
    → IsWindow (check_against w highest fc).0
check_against-IsWindow w highest fc e h =
    elim (Bool-cases (not (contains fc w.seen) && is_near w.window_size highest fc)) [
      | inl fresh ↦ elim (Bool-cases (ltb highest fc)) [
        | inl above ↦
            rw (check_against_above w highest fc fresh above)
              (moved_up-IsWindow w highest fc e h (ltb→lt highest fc above))
        | inr below ↦
            rw (check_against_below w highest fc fresh below)
              (filled_in-IsWindow w highest fc e h (ground arith) below)
      ]
      | inr stale ↦ rw (check_against_refused w highest fc stale) h
    ]

pub check_and_update-first :
    (w : ReplayWindow) (fc : ℕ)
    → w.highest_fc_seen ≡ none
    → check_and_update w fc
      ≡ (record w { highest_fc_seen = some fc; seen = insert fc w.seen }, accept tt)
unfolding check_and_update
check_and_update-first w fc e = ground (arith, e)

pub check_and_update-next :
    (w : ReplayWindow) (highest fc : ℕ)
    → w.highest_fc_seen ≡ some highest
    → check_and_update w fc ≡ check_against w highest fc
unfolding check_and_update
check_and_update-next w highest fc e = ground (arith, e)

-- Every call on a well-formed window leaves one: the counters ascending, the high-water mark among
-- them, and all of them in the window below it; or none of either.
pub check_and_update-IsWindow :
    (w : ReplayWindow) (fc : ℕ) → IsWindow w → IsWindow (check_and_update w fc).0
check_and_update-IsWindow w fc h = elim (Option-cases w.highest_fc_seen) [
  | inl e ↦ rw (check_and_update-first w fc e) (first-IsWindow w fc e h)
  | inr (highest, e) ↦
      rw (check_and_update-next w highest fc e) (check_against-IsWindow w highest fc e h)
]

-- A counter is admitted exactly where there is no high-water mark, or where it is unseen and at most
-- the window's size away from the mark; else it is a duplicate when it is seen, and out of the window
-- when it is not.
pub check_and_update_verdict :
    (w : ReplayWindow) (fc : ℕ)
    → (check_and_update w fc).1 ≡ (if is_fresh w fc then accept tt else refusal w fc)
check_and_update_verdict w fc = elim (Option-cases w.highest_fc_seen) [
  | inl e ↦ ground (arith, check_and_update-first w fc e)
  | inr (highest, e) ↦
      ground (arith, check_and_update-next w highest fc e, check_against_verdict w highest fc)
]

-- A counter that is seen, or too far from the high-water mark, leaves the window as it was.
pub check_and_update_refused :
    (w : ReplayWindow) (fc : ℕ) → is_fresh w fc ≡ false → (check_and_update w fc).0 ≡ w
check_and_update_refused w fc stale = elim (Option-cases w.highest_fc_seen) [
  | inl e ↦ ground (arith, e)
  | inr (highest, e) ↦
      rw (check_and_update-next w highest fc e)
        (check_against_refused w highest fc (ground (arith, e)))
]

-- The state after an admitted counter, by how the counter stands to the high-water mark.
pub after_admitted :
    (P : ReplayWindow → Type 0) (w : ReplayWindow) (fc : ℕ)
    → is_fresh w fc ≡ true
    → (w.highest_fc_seen ≡ none
        → P (record w { highest_fc_seen = some fc; seen = insert fc w.seen }))
    → ((highest : ℕ) → w.highest_fc_seen ≡ some highest → ltb highest fc ≡ true → P (moved_up w fc))
    → ((highest : ℕ)
        → w.highest_fc_seen ≡ some highest
        → ltb highest fc ≡ false
        → P (filled_in w fc))
    → P (check_and_update w fc).0
after_admitted P w fc fresh first above below =
    let P0 : ReplayWindow × Admission (Unit {0}) → Type 0 = λ r. P r.0 in
    elim (Option-cases w.highest_fc_seen) [
      | inl e ↦ subst P0 (sym (check_and_update-first w fc e)) (first e)
      | inr (highest, e) ↦
          let near : (not (contains fc w.seen) && is_near w.window_size highest fc) ≡ true =
            ground (arith, e) in
          elim (Bool-cases (ltb highest fc)) [
            | inl up ↦
                subst P0
                  (sym (
                    check_and_update-next w highest fc e
                    ∙ check_against_above w highest fc near up))
                  (above highest e up)
            | inr down ↦
                subst P0
                  (sym (
                    check_and_update-next w highest fc e
                    ∙ check_against_below w highest fc near down))
                  (below highest e down)
          ]
    ]
