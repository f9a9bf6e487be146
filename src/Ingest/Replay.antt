-- ===== src/Ingest/Replay.antt =====
-- crates/trackone-ingest/src/replay.rs: the replay window and its durable snapshot.
--
-- The `BTreeSet` of counters is its ascending list. A namespace is the list of its characters.
pub mod Counters
pub mod Window
pub mod Once
pub mod Durable
use trackone.Prelude.{
  ℕ, zero, suc, ◌+◌, ◌-◌, Bool, true, false, ◌&&◌, ◌||◌, not, Option, none, some, List, [], ◌∷◌,
  ltb, leb, ◌==◌, if◌then◌else◌,
}
use trackone.Prelude.Text.{bytes_eq}
use trackone.Ingest.RejectReason.{
  RejectReason, Admission, accept, reject, duplicate, out_of_window, continuity_break,
  replay_namespace_empty, replay_namespace_mismatch,
}

pub record ReplayWindow : Type 0 where
  pub window_size : ℕ
  pub highest_fc_seen : Option ℕ
  pub seen : List ℕ

pub record ReplayWindowSnapshot : Type 0 where
  pub version : ℕ
  pub namespace : List ℕ
  pub snapshot_window_size : ℕ
  pub snapshot_highest_fc_seen : Option ℕ
  pub seen_fcs : List ℕ

-- `BTreeSet::insert`, `contains`, `collect` and `retain`.
unfoldable pub insert : ℕ → List ℕ → List ℕ
insert fc [] = fc ∷ []
insert fc (x ∷ xs) =
    let rest = insert fc xs in
    if ltb fc x then fc ∷ x ∷ xs else if fc == x then x ∷ xs else x ∷ rest

unfoldable pub contains : ℕ → List ℕ → Bool
contains fc [] = false
contains fc (x ∷ xs) = fc == x || contains fc xs

unfoldable pub collect : List ℕ → List ℕ
unfolding insert
collect [] = []
collect (x ∷ xs) = insert x (collect xs)

unfoldable pub retain_from : ℕ → List ℕ → List ℕ
retain_from lower [] = []
retain_from lower (x ∷ xs) = if leb lower x then x ∷ retain_from lower xs else retain_from lower xs

-- `char::is_whitespace`: Unicode's White_Space.
is_whitespace : ℕ → Bool
is_whitespace c =
    (leb 9 c && leb c 13)
    || c == 32
    || c == 0x85
    || c == 0xa0
    || c == 0x1680
    || (leb 0x2000 c && leb c 0x200a)
    || c == 0x2028
    || c == 0x2029
    || c == 0x202f
    || c == 0x205f
    || c == 0x3000

-- `trim().is_empty()`.
unfoldable pub is_blank : List ℕ → Bool
unfolding is_whitespace
is_blank [] = true
is_blank (c ∷ cs) = is_whitespace c && is_blank cs

unfoldable pub new : ℕ → Option ℕ → ReplayWindow
new window_size none = record { window_size = window_size; highest_fc_seen = none; seen = [] }
new window_size (some fc) = record {
  window_size = window_size;
  highest_fc_seen = some fc;
  seen = fc ∷ [];
}

-- `any(|fc| *fc < lower || *fc > highest)`.
pub any_outside : ℕ → ℕ → List ℕ → Bool
any_outside lower highest [] = false
any_outside lower highest (fc ∷ fcs) =
    (ltb fc lower || ltb highest fc) || any_outside lower highest fcs

-- The state that a snapshot describes, and the checks of its counters.
pub restored : ℕ → Option ℕ → List ℕ → Admission ReplayWindow
unfolding insert any_outside
restored window_size none [] =
    accept (record { window_size = window_size; highest_fc_seen = none; seen = [] })
restored window_size none (x ∷ xs) = reject continuity_break
restored window_size (some highest) fcs =
    let seen = insert highest fcs in
    if any_outside (highest - window_size) highest seen
    then reject continuity_break
    else accept (record { window_size = window_size; highest_fc_seen = some highest; seen = seen })

unfoldable pub from_snapshot : List ℕ → ReplayWindowSnapshot → Admission ReplayWindow
unfolding restored
from_snapshot expected_namespace s =
    if is_blank expected_namespace || is_blank s.namespace
    then reject replay_namespace_empty
    else if not (bytes_eq s.namespace expected_namespace)
    then reject replay_namespace_mismatch
    else if not (s.version == 1) || s.snapshot_window_size == 0
    then reject continuity_break
    else restored s.snapshot_window_size s.snapshot_highest_fc_seen (collect s.seen_fcs)

unfoldable pub snapshot : ReplayWindow → List ℕ → Admission ReplayWindowSnapshot
snapshot w namespace =
    if is_blank namespace
    then reject replay_namespace_empty
    else accept (record {
      version = 1;
      namespace = namespace;
      snapshot_window_size = w.window_size;
      snapshot_highest_fc_seen = w.highest_fc_seen;
      seen_fcs = w.seen;
    })

-- The rounds behind `let Some(highest)`, with the window that the call leaves.
pub check_against : ReplayWindow → ℕ → ℕ → ReplayWindow × Admission (Unit {0})
unfolding insert contains retain_from
check_against w highest fc =
    if contains fc w.seen
    then (w, reject duplicate)
    else if ltb fc highest && ltb w.window_size (highest - fc)
    then (w, reject out_of_window)
    else if ltb highest fc && ltb w.window_size (fc - highest)
    then (w, reject out_of_window)
    else if ltb highest fc
    then (
      record w {
        highest_fc_seen = some fc;
        seen = insert fc (retain_from (fc - w.window_size) w.seen);
      },
      accept tt,
    )
    else (record w { seen = insert fc w.seen }, accept tt)

unfoldable pub check_and_update : ReplayWindow → ℕ → ReplayWindow × Admission (Unit {0})
unfolding check_against insert
check_and_update w fc = elim w.highest_fc_seen [
  | none ↦ (record w { highest_fc_seen = some fc; seen = insert fc w.seen }, accept tt)
  | some highest ↦ check_against w highest fc
]
