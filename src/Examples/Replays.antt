-- ===== src/Examples/Replays.antt =====
-- A replay window of four counters, its snapshot, and a sequence of presentations and restarts.
use trackone.Prelude.{ℕ, ◌≡◌, refl, arith, false, some, List, [], ◌∷◌, if◌then◌else◌, ==→eq}
use trackone.Prelude.Text.{codes}
use trackone.Ingest.RejectReason.{accept}
use trackone.Ingest.Replay.{
  ReplayWindow, ReplayWindowSnapshot, check_and_update, contains, collect, is_blank, snapshot,
  from_snapshot,
}
use trackone.Ingest.Replay.Counters.{IsAscending}
use trackone.Ingest.Replay.Window.{
  IsWindow, is_fresh, refusal, check_and_update-IsWindow, check_and_update_verdict,
  check_and_update_refused,
}
use trackone.Ingest.Replay.Durable.{Keeps, reopen, reopen_same, from_snapshot-Keeps}
use trackone.Ingest.Replay.Once.{Event, presented, restarted, admitted, IsOnce, admitted-IsOnce}

-- 10 and 8 are seen.
abbrev window : ReplayWindow
window = record { window_size = 4; highest_fc_seen = some 10; seen = 8 ∷ 10 ∷ [] }

abbrev site : List ℕ
site = codes "site"

window-IsWindow : IsWindow window
unfolding IsAscending contains
window-IsWindow = (
  ((λ y m. ground (arith, ==→eq y 10)), ((λ y m. cc m), tt)),
  (refl, λ fc m. ground (arith, ==→eq fc 8, ==→eq fc 10)),
)

check_and_update-IsWindow_example : IsWindow (check_and_update window 12).0
check_and_update-IsWindow_example = check_and_update-IsWindow window 12 window-IsWindow

check_and_update_verdict_example :
    (check_and_update window 8).1 ≡ (if is_fresh window 8 then accept tt else refusal window 8)
check_and_update_verdict_example = check_and_update_verdict window 8

window_stale : is_fresh window 8 ≡ false
unfolding contains
window_stale = refl

check_and_update_refused_example : (check_and_update window 8).0 ≡ window
check_and_update_refused_example = check_and_update_refused window 8 window_stale

site_named : is_blank site ≡ false
unfolding is_blank
site_named = refl

reopen_same_example : reopen site window ≡ accept window
reopen_same_example = reopen_same site window site_named refl window-IsWindow

abbrev left_behind : ReplayWindowSnapshot
left_behind = record {
  version = 1;
  namespace = site;
  snapshot_window_size = 4;
  snapshot_highest_fc_seen = some 10;
  seen_fcs = 10 ∷ 8 ∷ 10 ∷ [];
}

left_behind_restored : from_snapshot site left_behind ≡ accept window
unfolding from_snapshot is_blank collect
left_behind_restored = refl

from_snapshot-Keeps_example : Keeps 4 (some 10) (10 ∷ 8 ∷ 10 ∷ []) window × (site ≡ site)
from_snapshot-Keeps_example = from_snapshot-Keeps site left_behind window left_behind_restored

-- 9 is presented again after the window has moved, and after a restart.
abbrev events : List Event
events =
    presented 9
    ∷ presented 9
    ∷ restarted
    ∷ presented 13
    ∷ presented 9
    ∷ presented 8
    ∷ presented 11
    ∷ []

admitted-IsOnce_example : IsOnce (admitted site window events)
admitted-IsOnce_example = admitted-IsOnce site site_named window events window-IsWindow refl

-- The counters of the sequence that are admitted.
admitted-events : admitted site window events ≡ 9 ∷ 13 ∷ 11 ∷ []
unfolding admitted snapshot is_blank from_snapshot collect
admitted-events = refl
