-- ===== src/Server/Emergency/Rights.antt =====
-- Who receives an emergency, and the bounds of its gain.
use open_broadcast_intercom.Base.{
  ℕ, ◌≡◌, ◌∙◌, inl, inr, Bool, true, false, not, ◌&&◌, none, some, List, ◌==◌, nat_eq, arith,
  filter, contains, contains-filter, Bool-cases,
}
use open_broadcast_intercom.Base.Map
use open_broadcast_intercom.Base.Map.{Map, contains-keys, contains_key-get}
use open_broadcast_intercom.Base.Sorted.{
  nat_ord, mem, mem-sorted_unique, IsStrict, sorted_unique-IsStrict,
}
use open_broadcast_intercom.Control.{EmergencyTarget, all, users, channels}
use open_broadcast_intercom.Server.Gains.{Gains}
use open_broadcast_intercom.Server.State.{Session, RuntimeEmergency}
use open_broadcast_intercom.Server.Emergency.{
  listens_to, listening, emergency_recipients_for_sessions, normalize_duck_gain,
}

module _ {F : Type 0} where
  -- the target means a user with this session
  abbrev pub means : EmergencyTarget → ℕ → Session F → Bool
  means all u session = true
  means (users us) u session = contains us u
  means (channels cs) u session = listens_to cs session

  abbrev pub receives : RuntimeEmergency F → Map (Session F) → ℕ → Bool
  receives emergency sessions u = elim (Map.get sessions u) [
    | none ↦ false
    | some session ↦ not (u == emergency.source) && means emergency.target u session
  ]

  others_in :
      (source : ℕ) (sessions : Map (Session F)) (test : ℕ → Bool) (u : ℕ)
      → contains (filter (λ v. not (v == source) && test v) (Map.keys sessions)) u
        ≡ (Map.contains_key sessions u && (not (u == source) && test u))
  others_in source sessions test u = ground (
    arith,
    contains-filter (λ v. not (v == source) && test v) (Map.keys sessions) u,
    contains-keys sessions u,
  )

  all_others :
      (source : ℕ) (sessions : Map (Session F)) (u : ℕ)
      → contains (filter (λ v. not (v == source)) (Map.keys sessions)) u
        ≡ (Map.contains_key sessions u && not (u == source))
  all_others source sessions u = ground (
    arith,
    contains-filter (λ v. not (v == source)) (Map.keys sessions) u,
    contains-keys sessions u,
  )

  named_others :
      (source : ℕ) (sessions : Map (Session F)) (us : List ℕ) (u : ℕ)
      → contains (filter (λ v. not (v == source) && Map.contains_key sessions v) us) u
        ≡ (Map.contains_key sessions u && (not (u == source) && contains us u))
  named_others source sessions us u =
      ground (arith, contains-filter (λ v. not (v == source) && Map.contains_key sessions v) us u)

  -- The recipients of an emergency, in ascending order and each once, are exactly the users other
  -- than its source who have a session and whom the target means: everyone, the users it names, or
  -- those who listen to one of the channels it names.
  pub emergency_exact :
      (emergency : RuntimeEmergency F) (sessions : Map (Session F))
      → IsStrict nat_ord (emergency_recipients_for_sessions emergency sessions)
        × ((u : ℕ)
            → mem nat_ord (emergency_recipients_for_sessions emergency sessions) u
              ≡ receives emergency sessions u)
  unfolding emergency_recipients_for_sessions
  emergency_exact emergency sessions = (
    sorted_unique-IsStrict nat_ord _,
    λ u. mem-sorted_unique nat_ord _ u ∙ exact emergency.target u,
  )
    where
      exact :
          (target : EmergencyTarget) (u : ℕ)
          → mem nat_ord
              (elim target [
                | all ↦ filter (λ v. not (v == emergency.source)) (Map.keys sessions)
                | users us ↦
                    filter (λ v. not (v == emergency.source) && Map.contains_key sessions v) us
                | channels cs ↦
                    filter
                      (λ v. not (v == emergency.source) && listening sessions cs v)
                      (Map.keys sessions)
              ])
              u
            ≡ elim (Map.get sessions u) [
              | none ↦ false
              | some session ↦ not (u == emergency.source) && means target u session
            ]
      exact all u =
          ground (arith, all_others emergency.source sessions u, contains_key-get sessions u)
      exact (users us) u =
          ground (arith, named_others emergency.source sessions us u, contains_key-get sessions u)
      exact (channels cs) u = ground (
        arith,
        others_in emergency.source sessions (listening sessions cs) u,
        contains_key-get sessions u,
      )

module _ (g : Gains) where
  open g use {F, zero, one, is_finite, le}

  -- A gain that the server stores is finite and between zero and one, whatever number it was sent.
  pub normalize_duck_gain-bounds :
      (gain : F)
      → (is_finite (normalize_duck_gain g gain) ≡ true)
        × (le zero (normalize_duck_gain g gain) ≡ true)
        × (le (normalize_duck_gain g gain) one ≡ true)
  unfolding normalize_duck_gain
  normalize_duck_gain-bounds gain = elim (Bool-cases (is_finite gain)) [
    | inl e ↦ rw e (g.clamp_finite gain zero one g.zero-finite g.one-finite g.zero-le-one e)
    | inr e ↦ rw e (g.duck-finite, g.zero-le-duck, g.duck-le-one)
  ]
