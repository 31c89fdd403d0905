-- ===== src/Playback.antt =====
-- clients/core/src/lib.rs: `PlaybackBuffer`, the jitter buffer between the network and the sound
-- card. The counters are `u64`s that do not reach their bound; a sample is of any type.
pub mod Queue
pub mod View
pub mod Run
use open_broadcast_intercom.Base.{
  ℕ, suc, ◌+◌, ◌-◌, max, Bool, true, false, not, Option, none, some, List, [], ◌∷◌, ◌++◌, ltb, ◌==◌,
  nat_eq, if◌then◌else◌, length, get_elem?, drop,
}

pub record PlaybackBuffer {ℓ} (A : Type ℓ) : Type ℓ where
  pub samples : List A
  pub read : ℕ
  pub capacity : ℕ
  pub prebuffer_samples : ℕ
  pub channels : ℕ
  pub started : Bool
  pub underflows : ℕ
  pub overflows : ℕ
  pub dropped_samples : ℕ

pub record PlaybackStats : Type 0 where
  pub available_samples : ℕ
  pub capacity_samples : ℕ
  pub prebuffer_samples : ℕ
  pub channels : ℕ
  pub started : Bool
  pub underflows : ℕ
  pub overflows : ℕ
  pub dropped_samples : ℕ

module _ {ℓ} {A : Type ℓ} where
  unfoldable pub new : ℕ → ℕ → PlaybackBuffer A
  new capacity prebuffer_samples = record {
    samples = [];
    read = 0;
    capacity = capacity;
    prebuffer_samples = prebuffer_samples;
    channels = 1;
    started = prebuffer_samples == 0;
    underflows = 0;
    overflows = 0;
    dropped_samples = 0;
  }

  unfoldable pub clear : PlaybackBuffer A → PlaybackBuffer A
  clear b = record b { samples = []; read = 0; started = b.prebuffer_samples == 0 }

  unfoldable pub compact_consumed : PlaybackBuffer A → PlaybackBuffer A
  compact_consumed b =
      if ltb 0 b.read then record b { samples = drop b.read b.samples; read = 0 } else b

  unfoldable pub set_channels : ℕ → PlaybackBuffer A → PlaybackBuffer A
  unfolding clear
  set_channels channels b =
      if not (b.channels == max channels 1)
      then record (clear b) { channels = max channels 1 }
      else b

  -- the end of `push_frame`: append, and drop the oldest samples beyond the capacity
  unfoldable pub append_bounded : List A → PlaybackBuffer A → PlaybackBuffer A
  append_bounded samples b =
      let all = b.samples ++ samples in
      let excess = length all - b.capacity in
      if ltb b.capacity (length all)
      then record b {
        samples = drop excess all;
        overflows = b.overflows + 1;
        dropped_samples = b.dropped_samples + excess;
      }
      else record b { samples = all }

  unfoldable pub push_frame : List A → ℕ → PlaybackBuffer A → PlaybackBuffer A
  push_frame samples channels b =
      append_bounded samples (compact_consumed (set_channels channels b))

  unfoldable pub push : List A → PlaybackBuffer A → PlaybackBuffer A
  unfolding push_frame
  push samples b = push_frame samples 1 b

  unfoldable pub available_samples : PlaybackBuffer A → ℕ
  available_samples b = length b.samples - b.read

  -- the part of `pop_sample` behind the prebuffer test
  unfoldable pub read_sample : PlaybackBuffer A → Option A × PlaybackBuffer A
  read_sample b = elim (get_elem? b.samples b.read) [
    | some sample ↦ (some sample, record b { read = b.read + 1 })
    | none ↦ (none, record b { underflows = b.underflows + 1; started = b.prebuffer_samples == 0 })
  ]

  unfoldable pub pop_sample : PlaybackBuffer A → Option A × PlaybackBuffer A
  unfolding available_samples
  pop_sample b =
      if b.started
      then read_sample b
      else if ltb (available_samples b) b.prebuffer_samples
      then (none, b)
      else read_sample (record b { started = true })

  unfoldable pub pop : PlaybackBuffer A → Option A × PlaybackBuffer A
  unfolding pop_sample
  pop b = pop_sample b

  -- one sample for both sides
  duplicate : Option A × PlaybackBuffer A → Option (A × A) × PlaybackBuffer A
  duplicate (none, b) = (none, b)
  duplicate (some sample, b) = (some (sample, sample), b)

  -- `unwrap_or(left)`
  or_left : A → Option A × PlaybackBuffer A → Option (A × A) × PlaybackBuffer A
  or_left left (none, b) = (some (left, left), b)
  or_left left (some right, b) = (some (left, right), b)

  pair_up : Option A × PlaybackBuffer A → Option (A × A) × PlaybackBuffer A
  unfolding or_left pop_sample
  pair_up (none, b) = (none, b)
  pair_up (some left, b) = or_left left (pop_sample b)

  unfoldable pub pop_stereo : PlaybackBuffer A → Option (A × A) × PlaybackBuffer A
  unfolding pop_sample duplicate pair_up
  pop_stereo b = if b.channels == 2 then pair_up (pop_sample b) else duplicate (pop_sample b)

  unfoldable pub stats : PlaybackBuffer A → PlaybackStats
  unfolding available_samples
  stats b = record {
    available_samples = available_samples b;
    capacity_samples = b.capacity;
    prebuffer_samples = b.prebuffer_samples;
    channels = b.channels;
    started = b.started;
    underflows = b.underflows;
    overflows = b.overflows;
    dropped_samples = b.dropped_samples;
  }
