-- ===== src/Playback/View.antt =====
-- The abstract playback queue, and that the buffer implements it operation by operation.
use open_broadcast_intercom.Base.{
  ℕ, ◌+◌, ◌-◌, max, ◌≡◌, refl, ap, ◌∙◌, Bool, true, ◌||◌, Option, none, some, List, [], ◌∷◌, ◌++◌,
  arith, ltb, leb, ◌==◌, nat_eq, if◌then◌else◌, length, drop, length-drop,
}
use open_broadcast_intercom.Playback.{
  PlaybackBuffer, clear, compact_consumed, set_channels, append_bounded, push_frame, read_sample,
  pop_sample,
}
use open_broadcast_intercom.Playback.Queue.{IsValid, queue, at_reader, compact_read, last_samples}

-- What a player can observe: the samples to come, oldest first, whether it plays, and the counters.
pub record View (A : Type 0) : Type 0 where
  pub pending : List A
  pub channels : ℕ
  pub playing : Bool
  pub capacity : ℕ
  pub prebuffer : ℕ
  pub underflows : ℕ
  pub overflows : ℕ
  pub dropped : ℕ

module _ {A : Type 0} where
  unfoldable pub view : PlaybackBuffer A → View A
  view b = record {
    pending = queue b;
    channels = b.channels;
    playing = b.started;
    capacity = b.capacity;
    prebuffer = b.prebuffer_samples;
    underflows = b.underflows;
    overflows = b.overflows;
    dropped = b.dropped_samples;
  }

  -- Silence starts again at every change of the layout.
  unfoldable pub relayout : ℕ → View A → View A
  relayout channels v =
      if v.channels == max channels 1
      then v
      else record v { pending = []; playing = v.prebuffer == 0; channels = max channels 1 }

  -- The newest samples are kept, as many as fit.
  unfoldable pub enqueue : List A → View A → View A
  enqueue xs v =
      let all = v.pending ++ xs in
      record v {
        pending = last_samples v.capacity all;
        overflows = v.overflows + (if ltb v.capacity (length all) then 1 else 0);
        dropped = v.dropped + (length all - v.capacity);
      }

  unfoldable pub serve : List A → View A → Option A × View A
  serve [] v = (none, record v { underflows = v.underflows + 1; playing = v.prebuffer == 0 })
  serve (a ∷ rest) v = (some a, record v { pending = rest; playing = true })

  -- Nothing is played before the prebuffer is full; then the oldest sample is.
  unfoldable pub dequeue : View A → Option A × View A
  unfolding serve
  dequeue v =
      if v.playing || leb v.prebuffer (length v.pending) then serve v.pending v else (none, v)

  drop_zero : (n : ℕ) (xs : List A) → n ≡ 0 → drop n xs ≡ xs
  drop_zero n xs h = rw h refl

  pub view-set_channels :
      (channels : ℕ) (b : PlaybackBuffer A)
      → view (set_channels channels b) ≡ relayout channels (view b)
  unfolding view set_channels clear relayout
  view-set_channels channels b = ground arith

  view-compact : (b : PlaybackBuffer A) → view (compact_consumed b) ≡ view b
  unfolding view compact_consumed
  view-compact b = ground (arith, drop_zero b.read b.samples)

  view-append :
      (xs : List A) (b : PlaybackBuffer A)
      → b.read ≡ 0
      → view (append_bounded xs b) ≡ enqueue xs (view b)
  unfolding view append_bounded enqueue
  view-append xs b r = ground (
    arith,
    drop_zero b.read b.samples r,
    drop_zero (length (b.samples ++ xs) - b.capacity) (b.samples ++ xs),
    drop_zero b.read (drop (length (b.samples ++ xs) - b.capacity) (b.samples ++ xs)),
    drop_zero b.read (b.samples ++ xs),
  )

  -- `push_frame` clears the queue if the layout changes, and then appends, keeping the newest
  -- samples within the capacity and counting what it drops.
  pub view-push_frame :
      (xs : List A) (channels : ℕ) (b : PlaybackBuffer A)
      → view (push_frame xs channels b) ≡ enqueue xs (relayout channels (view b))
  unfolding push_frame
  view-push_frame xs channels b =
      view-append xs _ (compact_read (set_channels channels b))
      ∙ ap (enqueue xs) (view-compact (set_channels channels b) ∙ view-set_channels channels b)

  -- `pop_sample` returns what the abstract queue does, and leaves what it leaves.
  pub view-pop :
      (b : PlaybackBuffer A)
      → IsValid b
      → ((pop_sample b).0 ≡ (dequeue (view b)).0) × (view (pop_sample b).1 ≡ (dequeue (view b)).1)
  unfolding view pop_sample dequeue read_sample
  view-pop b v = ground (arith, at_reader b.read b.samples, length-drop b.read b.samples)
