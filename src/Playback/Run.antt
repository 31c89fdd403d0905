-- ===== src/Playback/Run.antt =====
-- Any sequence of calls on a playback buffer, against the abstract queue.
use open_broadcast_intercom.Base.{
  ℕ, ◌+◌, ◌-◌, max, ◌≡◌, refl, Option, none, some, List, [], ◌∷◌, ◌++◌, arith, length,
  length-append, length-drop,
}
use open_broadcast_intercom.Playback.{PlaybackBuffer, set_channels, push_frame, pop_sample}
use open_broadcast_intercom.Playback.Queue.{
  IsValid, queue, push_frame-IsValid, pop-IsValid, set_channels-IsValid,
}
use open_broadcast_intercom.Playback.View.{
  View, view, relayout, enqueue, dequeue, view-push_frame, view-pop, view-set_channels,
}

pub data Call (A : Type 0) : Type 0 where
  pushes : List A → ℕ → Call A
  pops : Call A
  lays_out : ℕ → Call A

module _ {A : Type 0} where
  abbrev pub heard : Option A → List A
  heard none = []
  heard (some a) = a ∷ []

  -- one call: the sample that it plays, if any, and the buffer afterwards
  unfoldable pub step : PlaybackBuffer A → Call A → List A × PlaybackBuffer A
  step b (pushes xs channels) = ([], push_frame xs channels b)
  step b pops = let (sample, b') = pop_sample b in (heard sample, b')
  step b (lays_out channels) = ([], set_channels channels b)

  unfoldable pub run : List (Call A) → PlaybackBuffer A → List A × PlaybackBuffer A
  run [] b = ([], b)
  run (c ∷ cs) b =
      let (played, b') = step b c in let (rest, b'') = run cs b' in (played ++ rest, b'')

  unfoldable pub view_step : View A → Call A → List A × View A
  view_step v (pushes xs channels) = ([], enqueue xs (relayout channels v))
  view_step v pops = let (sample, v') = dequeue v in (heard sample, v')
  view_step v (lays_out channels) = ([], relayout channels v)

  unfoldable pub view_run : List (Call A) → View A → List A × View A
  view_run [] v = ([], v)
  view_run (c ∷ cs) v =
      let (played, v') = view_step v c in let (rest, v'') = view_run cs v' in (played ++ rest, v'')

  step-IsValid : (b : PlaybackBuffer A) (c : Call A) → IsValid b → IsValid (step b c).1
  unfolding step
  step-IsValid b (pushes xs channels) v = push_frame-IsValid xs channels b v
  step-IsValid b pops v = pop-IsValid b v
  step-IsValid b (lays_out channels) v = set_channels-IsValid channels b v

  step_refines :
      (b : PlaybackBuffer A) (c : Call A)
      → IsValid b
      → ((step b c).0 ≡ (view_step (view b) c).0) × (view (step b c).1 ≡ (view_step (view b) c).1)
  unfolding step view_step
  step_refines b (pushes xs channels) v = (refl, view-push_frame xs channels b)
  step_refines b pops v = ground (arith, view-pop b v)
  step_refines b (lays_out channels) v = (refl, view-set_channels channels b)

  -- From a valid buffer, any sequence of calls plays the samples that the abstract queue plays and
  -- ends in a valid buffer whose queue, playing state and counters are those of the abstract queue.
  pub run_refines :
      (cs : List (Call A)) (b : PlaybackBuffer A)
      → IsValid b
      → ((run cs b).0 ≡ (view_run cs (view b)).0)
        × (view (run cs b).1 ≡ (view_run cs (view b)).1)
        × IsValid (run cs b).1
  unfolding run view_run
  run_refines [] b v = (refl, refl, v)
  run_refines (c ∷ cs) b v =
      ground (arith, step_refines b c v, run_refines cs (step b c).1 (step-IsValid b c v))

  -- every frame has the given layout, and no call changes it
  abbrev pub KeepsLayout : ℕ → List (Call A) → Type 0
  KeepsLayout n [] = Unit {0}
  KeepsLayout n (pushes xs channels ∷ cs) = (max channels 1 ≡ n) × KeepsLayout n cs
  KeepsLayout n (pops ∷ cs) = KeepsLayout n cs
  KeepsLayout n (lays_out channels ∷ cs) = (max channels 1 ≡ n) × KeepsLayout n cs

  -- the number of samples that are pushed
  abbrev pub fed : List (Call A) → ℕ
  fed [] = 0
  fed (pushes xs channels ∷ cs) = length xs + fed cs
  fed (_ ∷ cs) = fed cs

  relayout_same :
      (channels : ℕ) (v : View A) → max channels 1 ≡ v.channels → relayout channels v ≡ v
  unfolding relayout
  relayout_same channels v h = ground arith

  channels-enqueue : (xs : List A) (v : View A) → (enqueue xs v).channels ≡ v.channels
  unfolding enqueue
  channels-enqueue xs v = refl

  enqueue_counts :
      (xs : List A) (v : View A)
      → length (enqueue xs v).pending + (enqueue xs v).dropped
        ≡ length v.pending + v.dropped + length xs
  unfolding enqueue
  enqueue_counts xs v = omega (
    arith,
    length-append v.pending xs,
    length-drop (length (v.pending ++ xs) - v.capacity) (v.pending ++ xs),
  )

  dequeue_counts :
      (v : View A)
      → (length (heard (dequeue v).0) + length (dequeue v).1.pending ≡ length v.pending)
        × ((dequeue v).1.dropped ≡ v.dropped)
        × ((dequeue v).1.channels ≡ v.channels)
  unfolding dequeue
  dequeue_counts v = go v.pending refl
    where
      go :
          (xs : List A)
          → v.pending ≡ xs
          → (length (heard (dequeue v).0) + length (dequeue v).1.pending ≡ length v.pending)
            × ((dequeue v).1.dropped ≡ v.dropped)
            × ((dequeue v).1.channels ≡ v.channels)
      go [] e = ground arith
      go (x ∷ xs) e = ground arith

  view_run_counts :
      (cs : List (Call A)) (v : View A)
      → KeepsLayout v.channels cs
      → length (view_run cs v).0 + length (view_run cs v).1.pending + (view_run cs v).1.dropped
        ≡ fed cs + length v.pending + v.dropped
  unfolding view_run view_step
  view_run_counts [] v k = omega arith
  view_run_counts (pushes xs channels ∷ cs) v k = rw (relayout_same channels v k.0) (
      omega (
        arith,
        enqueue_counts xs v,
        view_run_counts cs (enqueue xs v) (rw (channels-enqueue xs v) k.1),
      ))
  view_run_counts (pops ∷ cs) v k = omega (
    arith,
    dequeue_counts v,
    length-append (heard (dequeue v).0) (view_run cs (dequeue v).1).0,
    view_run_counts cs (dequeue v).1 (rw ((dequeue_counts v).2) k),
  )
  view_run_counts (lays_out channels ∷ cs) v k =
      rw (relayout_same channels v k.0) (view_run_counts cs v k.1)

  -- From a valid buffer, and while the layout stays, no sample is lost unaccounted for: what a buffer played, still holds
  -- and counted as dropped are the samples that it held, had counted and was given.
  pub run_counts :
      (cs : List (Call A)) (b : PlaybackBuffer A)
      → IsValid b
      → KeepsLayout b.channels cs
      → length (run cs b).0 + length (queue (run cs b).1) + (run cs b).1.dropped_samples
        ≡ fed cs + length (queue b) + b.dropped_samples
  unfolding view
  run_counts cs b v k = ground (arith, run_refines cs b v, view_run_counts cs (view b) k)
