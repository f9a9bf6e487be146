-- ===== src/Ingest/Replay/Durable.antt =====
-- crates/trackone-ingest/src/replay.rs: the snapshot that a process leaves, and its restoration.
use trackone.Prelude.{
  ℕ, ◌-◌, ◌≤◌, ◌≡◌, refl, ap, true, false, Option, none, some, List, [], ◌∷◌, ◌==◌, ==_refl, ==→eq,
  Bool-cases, inl, inr, arith,
}
use trackone.Prelude.Text.{bytes_eq, bytes_eq_refl, bytes_eq→eq}
use mathlib.Core.Path.{subst}
use trackone.Ingest.RejectReason.{Admission, accept, reject}
use trackone.Ingest.Replay.{
  ReplayWindow, ReplayWindowSnapshot, insert, contains, collect, any_outside, restored, is_blank,
  from_snapshot, snapshot,
}
use trackone.Ingest.Replay.Counters.{
  IsAscending, insert-IsAscending, insert_member, contains-insert, collect-ascending,
  contains-collect, collect-IsAscending,
}
use trackone.Ingest.Replay.Window.{IsWindow, IsBelow}

-- What a process leaves behind, opened by the next one.
abbrev pub reopen : List ℕ → ReplayWindow → Admission ReplayWindow
reopen namespace w = elim (snapshot w namespace) [
  | accept s ↦ from_snapshot namespace s
  | reject r ↦ reject r
]

any_outside_within :
    (lower highest : ℕ) (fcs : List ℕ)
    → ((fc : ℕ) → contains fc fcs ≡ true → (lower ≤ fc) × (fc ≤ highest))
    → any_outside lower highest fcs ≡ false
unfolding any_outside contains
any_outside_within lower highest [] h = refl
any_outside_within lower highest (fc ∷ fcs) h =
    ground (
      arith,
      h fc,
      ==_refl fc,
      any_outside_within lower highest fcs (λ x m. h x (ground (arith, m))),
    )

within_any_outside :
    (lower highest : ℕ) (fcs : List ℕ)
    → any_outside lower highest fcs ≡ false
    → (fc : ℕ) → contains fc fcs ≡ true
    → (lower ≤ fc) × (fc ≤ highest)
unfolding any_outside contains
within_any_outside lower highest [] h x m = cc m
within_any_outside lower highest (fc ∷ fcs) h x m =
    ground (arith, ==→eq x fc, within_any_outside lower highest fcs (ground arith) x)

accept-injective : {w v : ReplayWindow} → accept w ≡ accept v → w ≡ v
accept-injective {w = w} e = ap (λ r. elim r [ accept x ↦ x | reject r ↦ w ]) e

-- What a restored window keeps of the snapshot.
abbrev pub Keeps : ℕ → Option ℕ → List ℕ → ReplayWindow → Type 0
Keeps size o fcs w =
    IsWindow w
    × (w.window_size ≡ size)
    × (w.highest_fc_seen ≡ o)
    × ((fc : ℕ) → contains fc fcs ≡ true → contains fc w.seen ≡ true)

restored-Keeps :
    (size : ℕ) (o : Option ℕ) (fcs : List ℕ) (w : ReplayWindow)
    → IsAscending fcs
    → restored size o fcs ≡ accept w
    → Keeps size o fcs w
unfolding restored
restored-Keeps size none [] w up e =
    subst (Keeps size none []) (accept-injective e) (((up, refl), refl, refl, λ fc m. m))
restored-Keeps size none (x ∷ xs) w up e = cc e
restored-Keeps size (some h) fcs w up e =
    elim (Bool-cases (any_outside (h - size) h (insert h fcs))) [
      | inl bad ↦ cc (rw bad at e)
      | inr good ↦
          let within : (fc : ℕ) → contains fc (insert h fcs) ≡ true → ((h - size) ≤ fc) × (fc ≤ h) =
            within_any_outside (h - size) h (insert h fcs) good in
          subst (Keeps size (some h) fcs) (accept-injective (rw good at e)) (
            (
              insert-IsAscending h fcs up,
              (
                ground (arith, contains-insert h h fcs, ==_refl h),
                λ fc m. (omega (arith, (within fc m).0), (within fc m).1),
              ),
            ),
            refl,
            refl,
            λ fc m. ground (arith, contains-insert fc h fcs),
          )
    ]

restored-same :
    (size : ℕ) (o : Option ℕ) (fcs : List ℕ)
    → IsAscending fcs
    → IsBelow size o fcs
    → restored size o fcs ≡ accept (record { window_size = size; highest_fc_seen = o; seen = fcs })
unfolding restored
restored-same size none [] up h = refl
restored-same size none (x ∷ xs) up h = cc h
restored-same size (some highest) fcs up h =
    let same : insert highest fcs ≡ fcs = insert_member highest fcs up h.0 in
    rw
      (
        same,
        any_outside_within (highest - size) highest fcs
            (λ fc m. (omega (arith, (h.1 fc m).0), (h.1 fc m).1)),
      )
      refl

-- An accepted snapshot carries the expected namespace, and gives a well-formed window of the
-- snapshot's size and high-water mark that forgets none of the snapshot's counters.
pub from_snapshot-Keeps :
    (namespace : List ℕ) (s : ReplayWindowSnapshot) (w : ReplayWindow)
    → from_snapshot namespace s ≡ accept w
    → Keeps s.snapshot_window_size s.snapshot_highest_fc_seen s.seen_fcs w
      × (s.namespace ≡ namespace)
unfolding from_snapshot
from_snapshot-Keeps namespace s w e =
    let opened : restored s.snapshot_window_size s.snapshot_highest_fc_seen (collect s.seen_fcs)
        ≡ accept w =
      ground (arith, e) in
    let same : bytes_eq s.namespace namespace ≡ true = ground (arith, e) in
    let keeps : Keeps s.snapshot_window_size s.snapshot_highest_fc_seen (collect s.seen_fcs) w =
      restored-Keeps _ _ _ w (collect-IsAscending s.seen_fcs) opened in
    (
      (
        keeps.0,
        keeps.1,
        keeps.2,
        λ fc m. keeps.3 fc (ground (arith, contains-collect fc s.seen_fcs)),
      ),
      bytes_eq→eq s.namespace namespace same,
    )

-- A well-formed window of positive size, left in a snapshot under a namespace that is not blank and
-- opened under the same namespace, is the same window.
pub reopen_same :
    (namespace : List ℕ) (w : ReplayWindow)
    → is_blank namespace ≡ false
    → (w.window_size == 0) ≡ false
    → IsWindow w
    → reopen namespace w ≡ accept w
unfolding from_snapshot snapshot
reopen_same namespace w named positive h = ground (
  arith,
  bytes_eq_refl namespace,
  collect-ascending w.seen h.0,
  restored-same w.window_size w.highest_fc_seen w.seen h.0 h.1,
)
