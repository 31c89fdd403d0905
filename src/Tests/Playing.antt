-- ===== src/Tests/Playing.antt =====
-- The playback buffer.
use open_broadcast_intercom.Base.{ℕ, ◌+◌, ◌≡◌, List, [], ◌∷◌, length, arith}
use open_broadcast_intercom.Playback.{PlaybackBuffer, new}
use open_broadcast_intercom.Playback.Queue.{IsValid, queue, new-IsValid}
use open_broadcast_intercom.Playback.View.{view}
use open_broadcast_intercom.Playback.Run.{
  Call, pushes, pops, run, view_run, fed, run_refines, run_counts,
}

abbrev small : PlaybackBuffer ℕ
small = new 4 2

abbrev calls : List (Call ℕ)
calls = pushes (1 ∷ 2 ∷ 3 ∷ []) 1 ∷ pops ∷ pushes (4 ∷ 5 ∷ 6 ∷ []) 1 ∷ pops ∷ []

run_refines_example :
    ((run calls small).0 ≡ (view_run calls (view small)).0)
    × (view (run calls small).1 ≡ (view_run calls (view small)).1)
    × IsValid (run calls small).1
run_refines_example = run_refines calls small (new-IsValid 4 2)

run_counts_example :
    length (run calls small).0
      + length (queue (run calls small).1)
      + (run calls small).1.dropped_samples
    ≡ fed calls + length (queue small) + small.dropped_samples
unfolding new
run_counts_example = run_counts calls small (new-IsValid 4 2) (ground arith)
