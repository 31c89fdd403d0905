-- ===== src/Server/Presses/Turns.antt =====
-- A talk button over a sequence of events.
use open_broadcast_intercom.Base.{
  ℕ, ◌+◌, ◌%◌, ◌≡◌, refl, ◌∙◌, inl, inr, Bool, true, false, not, ◌&&◌, List, [], ◌∷◌, String,
  string_eq, ◌==◌, nat_eq, if◌then◌else◌, contains, contains-set_insert, contains-set_remove,
  beq_refl, arith, Bool-cases,
}
use open_broadcast_intercom.Control.{TalkButtonConfig, TalkButtonMode, momentary, latching}
use open_broadcast_intercom.Server.State.{Session}
use open_broadcast_intercom.Server.Presses.{now_active, press_session}

abbrev pub one_if : Bool → ℕ
one_if true = 1
one_if false = 0

-- Events are presses and releases, oldest first. How many are presses:
abbrev pub presses : List Bool → ℕ
presses [] = 0
presses (pressed ∷ events) = one_if pressed + presses events

-- whether the button is held after the last one
abbrev pub held : Bool → List Bool → Bool
held was [] = was
held was (pressed ∷ events) = held pressed events

-- how often they change what is held
abbrev pub changes : Bool → List Bool → ℕ
changes was [] = 0
changes was (pressed ∷ events) =
    one_if (if was then not pressed else pressed) + changes pressed events

-- A momentary button is active while it is held, a latching one after an odd number of presses if it
-- was not before.
abbrev pub active_after : TalkButtonMode → List Bool → Bool → Bool
active_after momentary events was = held was events
active_after latching events was = if presses events % 2 == 0 then was else not was

-- how often the button turns on or off
abbrev pub turns : TalkButtonMode → List Bool → Bool → ℕ
turns momentary events was = changes was events
turns latching events was = presses events

odd_suc : (n : ℕ) → ((1 + n) % 2 == 0) ≡ not (n % 2 == 0)
odd_suc n = ground arith

active_after-next :
    (mode : TalkButtonMode) (pressed : Bool) (events : List Bool) (was : Bool)
    → active_after mode (pressed ∷ events) was
      ≡ active_after mode events (now_active mode was pressed)
active_after-next momentary pressed events was = refl
active_after-next latching true events true = ground (arith, odd_suc (presses events))
active_after-next latching true events false = ground (arith, odd_suc (presses events))
active_after-next latching false events was = ground arith

turns-next :
    (mode : TalkButtonMode) (pressed : Bool) (events : List Bool) (was : Bool)
    → turns mode (pressed ∷ events) was
      ≡ one_if (not was && now_active mode was pressed)
        + one_if (was && not (now_active mode was pressed))
        + turns mode events (now_active mode was pressed)
turns-next momentary true events true = omega arith
turns-next momentary true events false = omega arith
turns-next momentary false events true = omega arith
turns-next momentary false events false = omega arith
turns-next latching true events true = omega arith
turns-next latching true events false = omega arith
turns-next latching false events true = omega arith
turns-next latching false events false = omega arith

beq_comm : (a b : String) → (a == b) ≡ (b == a)
beq_comm a b = elim (Bool-cases (a == b)) [
  | inl e ↦ rw ((string_eq.beq_iff a b).0 e) refl
  | inr e ↦ elim (Bool-cases (b == a)) [
    | inl d ↦ rw ((string_eq.beq_iff b a).0 d) refl
    | inr d ↦ rw (e, d) refl
  ]
]

own_state :
    (active : String → Bool) (other id : String)
    → active other ≡ (if other == id then active id else active other)
own_state active other id = elim (Bool-cases (other == id)) [
  | inl e ↦ rw ((string_eq.beq_iff other id).0 e, beq_refl id) refl
  | inr e ↦ rw e refl
]

own_state_after :
    (mode : TalkButtonMode) (active : String → Bool) (other id : String)
    → active other ≡ (if other == id then active_after mode [] (active id) else active other)
own_state_after momentary active other id = own_state active other id
own_state_after latching active other id = own_state active other id

none_yet : (mode : TalkButtonMode) (was : Bool) → 0 ≡ turns mode [] was
none_yet momentary was = refl
none_yet latching was = refl

same_still :
    (mode : TalkButtonMode) (was : Bool) → one_if was + 0 ≡ one_if (active_after mode [] was) + 0
same_still momentary was = refl
same_still latching was = refl

module _ {F : Type 0} where
  -- the session after the events, with how often the button became active and inactive
  unfoldable pub press_all : TalkButtonConfig → ℕ → List Bool → Session F → (ℕ × ℕ) × Session F
  press_all button now [] session = ((0, 0), session)
  press_all button now (pressed ∷ events) session =
      let (press, next) = press_session session button button.id pressed now in
      let (counts, last) = press_all button now events next in
      ((one_if press.became_active + counts.0, one_if press.became_inactive + counts.1), last)

  press-active :
      (button : TalkButtonConfig) (now : ℕ) (pressed : Bool) (session : Session F) (other : String)
      → contains (press_session session button button.id pressed now).1.active_buttons other ≡ (
          if other == button.id
          then now_active button.mode (contains session.active_buttons button.id) pressed
          else contains session.active_buttons other)
  unfolding press_session
  press-active button now pressed session other =
      elim (Bool-cases
        (now_active button.mode (contains session.active_buttons button.id) pressed)) [
          | inl e ↦ rw e (
              contains-set_insert session.active_buttons button.id other
              ∙ ground (arith, beq_comm button.id other))
          | inr e ↦ rw e (contains-set_remove session.active_buttons button.id other)
        ]

  press-flags :
      (button : TalkButtonConfig) (now : ℕ) (pressed : Bool) (session : Session F)
      → let was = contains session.active_buttons button.id in
        let is_active = now_active button.mode was pressed in
        let press = (press_session session button button.id pressed now).0 in
        (press.became_active ≡ (not was && is_active))
        × (press.became_inactive ≡ (was && not is_active))
  unfolding press_session
  press-flags button now pressed session = (refl, refl)

  -- After any sequence of presses and releases of a talk button, a momentary button is active if the
  -- last of them was a press, and as before if there was none; a latching one is as before after an
  -- even number of presses, and the opposite after an odd one. No other button changes. The number of
  -- times that it became active or inactive is, for a momentary button, how often presses and
  -- releases change over, from the state before on, and for a latching one the number of presses; and
  -- the two counts differ as the states before and after do.
  pub presses_exact :
      (button : TalkButtonConfig) (now : ℕ) (events : List Bool) (session : Session F)
      (other : String)
      → let ((starts, stops), last) = press_all button now events session in
        let was = contains session.active_buttons button.id in
        (contains last.active_buttons other ≡ (
          if other == button.id
          then active_after button.mode events was
          else contains session.active_buttons other))
        × (starts + stops ≡ turns button.mode events was)
        × (one_if was + starts ≡ one_if (active_after button.mode events was) + stops)
  unfolding press_all
  presses_exact button now [] session other = (
    own_state_after button.mode (contains session.active_buttons) other button.id,
    none_yet button.mode (contains session.active_buttons button.id),
    same_still button.mode (contains session.active_buttons button.id),
  )
  presses_exact button now (pressed ∷ events) session other =
      let was = contains session.active_buttons button.id in
      let next = (press_session session button button.id pressed now).1 in
      let own : contains next.active_buttons button.id
          ≡ now_active button.mode (contains session.active_buttons button.id) pressed =
        press-active button now pressed session button.id ∙ rw (beq_refl button.id) refl in
      let rest = presses_exact button now events next other in
      (
        rest.0
            ∙ ground (
              arith,
              own,
              press-active button now pressed session other,
              active_after-next button.mode pressed events was,
            ),
        ground (
          arith,
          rest.1,
          own,
          press-flags button now pressed session,
          turns-next button.mode pressed events was,
        ),
        ground (
          arith,
          rest.2,
          own,
          press-flags button now pressed session,
          active_after-next button.mode pressed events was,
        ),
      )
