-- ===== src/Ingest/Replay/Once.antt =====
-- crates/trackone-ingest/src/replay.rs: the counters admitted over the life of a window.
use trackone.Prelude.{
  ℕ, ◌+◌, ◌-◌, ◌≡◌, ◌∙◌, ap, sym, refl, Bool, true, false, ◌||◌, none, some, List, [], ◌∷◌, ltb,
  ◌==◌, ==_refl, ==→eq, Bool-cases, Option-cases, inl, inr, arith,
}
use mathlib.Core.Path.{subst}
use trackone.Ingest.RejectReason.{accept, reject}
use trackone.Ingest.Replay.{ReplayWindow, is_blank, contains, retain_from, check_and_update}
use trackone.Ingest.Replay.Counters.{contains-insert, contains-retain_from}
use trackone.Ingest.Replay.Durable.{reopen, reopen_same}
use trackone.Ingest.Replay.Window.{
  IsWindow, IsBelow, not_in_empty, is_fresh, moved_up, filled_in, after_admitted,
  check_and_update_verdict, check_and_update_refused, check_and_update-IsWindow,
}

-- A counter that is seen, or that lies below the window.
abbrev spent : ReplayWindow → ℕ → Bool
spent w fc =
    contains fc w.seen
    || elim w.highest_fc_seen [ none ↦ false | some highest ↦ ltb (fc + w.window_size) highest ]

spent-not_fresh :
    (w : ReplayWindow) (fc : ℕ) → IsWindow w → spent w fc ≡ true → is_fresh w fc ≡ false
spent-not_fresh w fc h s = elim (Option-cases w.highest_fc_seen) [
  | inl e ↦
      let empty : w.seen ≡ [] = subst (λ o. IsBelow w.window_size o w.seen) e h.1 in
      ground (arith, e, not_in_empty fc empty)
  | inr (highest, e) ↦ ground (arith, e)
]

spent-moved_up :
    (w : ReplayWindow) (highest fc x : ℕ)
    → w.highest_fc_seen ≡ some highest
    → ltb highest fc ≡ true
    → spent w x ≡ true
    → spent (moved_up w fc) x ≡ true
spent-moved_up w highest fc x e above s = ground (
  arith,
  e,
  contains-insert x fc (retain_from (fc - w.window_size) w.seen),
  contains-retain_from x (fc - w.window_size) w.seen,
)

spent-filled_in : (w : ReplayWindow) (fc x : ℕ) → spent w x ≡ true → spent (filled_in w fc) x ≡ true
spent-filled_in w fc x s = ground (arith, contains-insert x fc w.seen)

spent-check_and_update :
    (w : ReplayWindow) (fc x : ℕ)
    → IsWindow w
    → spent w x ≡ true
    → spent (check_and_update w fc).0 x ≡ true
spent-check_and_update w fc x h s = elim (Bool-cases (is_fresh w fc)) [
  | inl fresh ↦
      after_admitted (λ v. spent v x ≡ true) w fc fresh
        (λ e.
          let empty : w.seen ≡ [] = subst (λ o. IsBelow w.window_size o w.seen) e h.1 in
          ground (arith, e, not_in_empty x empty))
        (λ highest e above. spent-moved_up w highest fc x e above s)
        (λ highest e below. spent-filled_in w fc x s)
  | inr stale ↦ subst (λ v. spent v x ≡ true) (sym (check_and_update_refused w fc stale)) s
]

admitted-spent :
    (w : ReplayWindow) (fc : ℕ) → is_fresh w fc ≡ true → spent (check_and_update w fc).0 fc ≡ true
admitted-spent w fc fresh =
    after_admitted (λ v. spent v fc ≡ true) w fc fresh
      (λ e. ground (arith, contains-insert fc fc w.seen, ==_refl fc))
      (λ highest e above.
        ground (arith, contains-insert fc fc (retain_from (fc - w.window_size) w.seen), ==_refl fc))
      (λ highest e below. ground (arith, contains-insert fc fc w.seen, ==_refl fc))

-- What happens to a window: a frame's counter is presented, or the process starts again from the
-- snapshot that it left.
pub data Event : Type 0 where
  presented : ℕ → Event
  restarted : Event

-- The counters that are admitted, in order; a window that cannot be restored admits none.
unfoldable pub admitted : List ℕ → ReplayWindow → List Event → List ℕ
unfolding check_and_update
admitted namespace w [] = []
admitted namespace w (presented fc ∷ events) =
    let rest = admitted namespace (check_and_update w fc).0 events in
    elim (check_and_update w fc).1 [ accept done ↦ fc ∷ rest | reject reason ↦ rest ]
admitted namespace w (restarted ∷ events) = elim (reopen namespace w) [
  | accept v ↦ admitted namespace v events
  | reject reason ↦ []
]

-- A list in which no counter stands twice.
unfoldable pub IsOnce : List ℕ → Type 0
unfolding contains
IsOnce [] = Unit {0}
IsOnce (fc ∷ fcs) = (contains fc fcs ≡ false) × IsOnce fcs

check_and_update-window_size :
    (w : ReplayWindow) (fc : ℕ) → (check_and_update w fc).0.window_size ≡ w.window_size
check_and_update-window_size w fc = elim (Bool-cases (is_fresh w fc)) [
  | inl fresh ↦
      after_admitted (λ v. v.window_size ≡ w.window_size) w fc fresh (λ e. refl)
        (λ highest e above. refl) (λ highest e below. refl)
  | inr stale ↦ ap (λ v. v.window_size) (check_and_update_refused w fc stale)
]

module _ (namespace : List ℕ) (named : is_blank namespace ≡ false) where
  admitted-fresh :
      (w : ReplayWindow) (fc : ℕ) (events : List Event)
      → is_fresh w fc ≡ true
      → admitted namespace w (presented fc ∷ events)
        ≡ fc ∷ admitted namespace (check_and_update w fc).0 events
  unfolding admitted
  admitted-fresh w fc events fresh = ground (arith, check_and_update_verdict w fc)

  admitted-stale :
      (w : ReplayWindow) (fc : ℕ) (events : List Event)
      → is_fresh w fc ≡ false
      → admitted namespace w (presented fc ∷ events) ≡ admitted namespace w events
  unfolding admitted
  admitted-stale w fc events stale =
      let same : (check_and_update w fc).0 ≡ w = check_and_update_refused w fc stale in
      let rest : admitted namespace (check_and_update w fc).0 events ≡ admitted namespace w events =
        ap (λ v. admitted namespace v events) same in
      ground (arith, check_and_update_verdict w fc, rest)

  admitted-restarted :
      (w : ReplayWindow) (events : List Event)
      → IsWindow w
      → (w.window_size == 0) ≡ false
      → admitted namespace w (restarted ∷ events) ≡ admitted namespace w events
  unfolding admitted
  admitted-restarted w events h p =
      ap
        (λ o. elim o as (λ r. List ℕ) [
          | accept v ↦ admitted namespace v events
          | reject reason ↦ []
        ])
        (reopen_same namespace w named p h)

  still_positive :
      (w : ReplayWindow) (fc : ℕ)
      → (w.window_size == 0) ≡ false
      → ((check_and_update w fc).0.window_size == 0) ≡ false
  still_positive w fc p = ground (arith, check_and_update-window_size w fc)

  admitted-not_spent :
      (w : ReplayWindow) (events : List Event) (x : ℕ)
      → IsWindow w
      → (w.window_size == 0) ≡ false
      → spent w x ≡ true
      → contains x (admitted namespace w events) ≡ false
  unfolding admitted contains
  admitted-not_spent w [] x h p s = refl
  admitted-not_spent w (presented fc ∷ events) x h p s = elim (Bool-cases (is_fresh w fc)) [
    | inl fresh ↦
        let later : contains x (admitted namespace (check_and_update w fc).0 events) ≡ false =
          admitted-not_spent (check_and_update w fc).0 events x (check_and_update-IsWindow w fc h)
            (still_positive w fc p) (spent-check_and_update w fc x h s) in
        let other : (x == fc) ≡ false = elim (Bool-cases (x == fc)) [
          | inl same ↦
              let clash : true ≡ false =
                sym fresh ∙ ap (is_fresh w) (sym (==→eq x fc same)) ∙ spent-not_fresh w x h s in
              cc clash
          | inr other ↦ other
        ] in
        ground (arith, admitted-fresh w fc events fresh, later, other)
    | inr stale ↦
        ap (contains x) (admitted-stale w fc events stale) ∙ admitted-not_spent w events x h p s
  ]
  admitted-not_spent w (restarted ∷ events) x h p s =
      ap (contains x) (admitted-restarted w events h p) ∙ admitted-not_spent w events x h p s

  -- Whatever counters are presented to a well-formed window of positive size, in whatever order and
  -- with the process restarted from its snapshot at any moments, under a namespace that is not blank,
  -- no counter is admitted twice.
  pub admitted-IsOnce :
      (w : ReplayWindow) (events : List Event)
      → IsWindow w
      → (w.window_size == 0) ≡ false
      → IsOnce (admitted namespace w events)
  unfolding IsOnce admitted
  admitted-IsOnce w [] h p = tt
  admitted-IsOnce w (presented fc ∷ events) h p = elim (Bool-cases (is_fresh w fc)) [
    | inl fresh ↦
        let next : ReplayWindow = (check_and_update w fc).0 in
        let kept : IsWindow next = check_and_update-IsWindow w fc h in
        let positive : (next.window_size == 0) ≡ false = still_positive w fc p in
        subst IsOnce (sym (admitted-fresh w fc events fresh)) (
          admitted-not_spent next events fc kept positive (admitted-spent w fc fresh),
          admitted-IsOnce next events kept positive,
        )
    | inr stale ↦
        subst IsOnce (sym (admitted-stale w fc events stale)) (admitted-IsOnce w events h p)
  ]
  admitted-IsOnce w (restarted ∷ events) h p =
      subst IsOnce (sym (admitted-restarted w events h p)) (admitted-IsOnce w events h p)
