-- ===== src/Playback/Queue.antt =====
-- A playback buffer seen as the queue of the samples that were not read yet.
use open_broadcast_intercom.Base.{
  ℕ, zero, suc, ◌+◌, ◌-◌, ◌≤◌, ◌<◌, ◌≡◌, refl, ◌⊎◌, inl, inr, true, none, some, List, [], ◌∷◌, ◌++◌,
  arith, nat_eq, length, get_elem?, drop, length-drop,
}
use open_broadcast_intercom.Playback.{
  PlaybackBuffer, new, clear, compact_consumed, set_channels, append_bounded, push_frame,
  available_samples, read_sample, pop_sample,
}

-- The reader is inside the buffer, which is within its capacity, and there is a channel.
pub record IsValid {ℓ} {A : Type ℓ} (b : PlaybackBuffer A) : Type ℓ where
  pub within : b.read ≤ length b.samples
  pub bounded : length b.samples ≤ b.capacity
  pub some_channel : 0 < b.channels
  pub no_prebuffer : b.prebuffer_samples ≡ 0 → b.started ≡ true

module _ {ℓ} {A : Type ℓ} where
  -- the samples that are still to be played, oldest first
  abbrev pub queue : PlaybackBuffer A → List A
  queue b = drop b.read b.samples

  -- The last `n` samples of a list.
  abbrev pub last_samples : ℕ → List A → List A
  last_samples n xs = drop (length xs - n) xs

  pub new-IsValid : (capacity prebuffer : ℕ) → IsValid (new {A = A} capacity prebuffer)
  unfolding new
  new-IsValid capacity prebuffer = ground arith

  pub available-length : (b : PlaybackBuffer A) → available_samples b ≡ length (queue b)
  unfolding available_samples
  available-length b = omega (arith, length-drop b.read b.samples)

  pub set_channels-IsValid :
      (channels : ℕ) (b : PlaybackBuffer A) → IsValid b → IsValid (set_channels channels b)
  unfolding set_channels clear
  set_channels-IsValid channels b v = ground arith

  compact-IsValid : (b : PlaybackBuffer A) → IsValid b → IsValid (compact_consumed b)
  unfolding compact_consumed
  compact-IsValid b v = ground (arith, length-drop b.read b.samples)

  append-IsValid :
      (xs : List A) (b : PlaybackBuffer A) → b.read ≡ 0 → IsValid b → IsValid (append_bounded xs b)
  unfolding append_bounded
  append-IsValid xs b r v =
      ground (arith, length-drop (length (b.samples ++ xs) - b.capacity) (b.samples ++ xs))

  pub compact_read : (b : PlaybackBuffer A) → (compact_consumed b).read ≡ 0
  unfolding compact_consumed
  compact_read b = ground arith

  -- A push of any frame in any layout keeps a valid buffer valid.
  pub push_frame-IsValid :
      (xs : List A) (channels : ℕ) (b : PlaybackBuffer A)
      → IsValid b
      → IsValid (push_frame xs channels b)
  unfolding push_frame
  push_frame-IsValid xs channels b v =
      append-IsValid xs _ (compact_read (set_channels channels b))
        (compact-IsValid _ (set_channels-IsValid channels b v))

  -- What stands at the reader is the head of the queue.
  pub at_reader :
      (n : ℕ) (xs : List A)
      → ((drop n xs ≡ []) × (get_elem? xs n ≡ none))
        ⊎ ((a : A) × (drop n xs ≡ a ∷ drop (n + 1) xs)
            × (get_elem? xs n ≡ some a)
            × (n + 1 ≤ length xs))
  at_reader zero [] = inl (refl, refl)
  at_reader zero (x ∷ xs) = inr (x, ground arith, refl, omega arith)
  at_reader (suc n) [] = inl (refl, refl)
  at_reader (suc n) (x ∷ xs) = elim (at_reader n xs) [
    | inl e ↦ inl e
    | inr (a, e, f, g) ↦ inr (a, ground arith, f, omega arith)
  ]

  pub pop-IsValid : (b : PlaybackBuffer A) → IsValid b → IsValid (pop_sample b).1
  unfolding pop_sample read_sample
  pop-IsValid b v = ground (arith, at_reader b.read b.samples)
