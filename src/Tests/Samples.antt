-- ===== src/Tests/Samples.antt =====
-- A server with three clients, and gains in hundredths.
use open_broadcast_intercom.Base.{
  ℕ, ◌≡◌, refl, Bool, true, false, none, some, [], ◌∷◌, arith, leb, ltb, if◌then◌else◌,
}
use open_broadcast_intercom.Base.Map.{Map}
use open_broadcast_intercom.Control.{
  TalkButtonConfig, momentary, transmit, user, open_mic, channels,
}
use open_broadcast_intercom.Server.Gains.{Gains}
use open_broadcast_intercom.Server.State.{
  Session, ServerState, RuntimeAlert, RuntimeEmergency, new_session,
}

abbrev pub clamp : ℕ → ℕ → ℕ → ℕ
clamp x lo hi = if ltb x lo then lo else if ltb hi x then hi else x

abbrev pub is_finite : ℕ → Bool
is_finite x = ltb x 1_000

pub clamp_finite :
    (x lo hi : ℕ)
    → is_finite lo ≡ true
    → is_finite hi ≡ true
    → leb lo hi ≡ true
    → is_finite x ≡ true
    → (is_finite (clamp x lo hi) ≡ true)
      × (leb lo (clamp x lo hi) ≡ true)
      × (leb (clamp x lo hi) hi ≡ true)
clamp_finite x lo hi a b c d = ground arith

pub clamp_inside : (x lo hi : ℕ) → leb lo x ≡ true → leb x hi ≡ true → clamp x lo hi ≡ x
clamp_inside x lo hi a b = ground arith

-- gains in hundredths, where 1,000 and more stand for what is not finite
abbrev pub hundredths : Gains
hundredths = record {
  F = ℕ;
  zero = 0;
  one = 100;
  default_duck = 25;
  is_finite = is_finite;
  le = leb;
  clamp = clamp;
  zero-finite = refl;
  one-finite = refl;
  duck-finite = refl;
  zero-le-one = refl;
  zero-le-duck = refl;
  duck-le-one = refl;
  clamp_finite = clamp_finite;
  clamp_inside = clamp_inside;
}

abbrev pub stage_button : TalkButtonConfig
stage_button = record {
  id = "stage";
  label = "Stage";
  color = none;
  mode = momentary;
  actions = transmit (4 ∷ []) (3 ∷ []) true ∷ [];
}

-- the first client talks on channel 7, holds a button, and calls the second
abbrev pub director : Session ℕ
director = record (new_session hundredths 5) {
  listen_channels = 7 ∷ [];
  tx_channels = 7 ∷ [];
  talk_mode = open_mic;
  buttons = stage_button ∷ [];
  active_buttons = "stage" ∷ [];
  active_direct_calls = (2, false) ∷ [];
}

abbrev pub camera : Session ℕ
camera = record (new_session hundredths 6) { listen_channels = 7 ∷ 8 ∷ [] }

abbrev pub sound : Session ℕ
sound = record (new_session hundredths 7) { listen_channels = 8 ∷ [] }

abbrev pub clients : Map (Session ℕ)
clients = (1, director) ∷ (2, camera) ∷ (3, sound) ∷ []

abbrev pub call_to_stage : RuntimeAlert
call_to_stage = record {
  id = 0;
  sender = 1;
  target = user 2;
  message = none;
  created_at_ms = 4;
  recipients = record { user_id = 2; acked_at_ms = none } ∷ [];
  cancelled = false;
  cancelled_at_ms = none;
}

abbrev pub fire : RuntimeEmergency ℕ
fire = record { source = 1; target = channels (8 ∷ []); duck_gain = 10; mute_others = true }

abbrev pub show : ServerState ℕ
show = record {
  sessions = clients;
  control_clients = (1, true) ∷ (2, true) ∷ (3, false) ∷ [];
  alerts = call_to_stage ∷ [];
  emergency = some fire;
  next_alert_id = 1;
  pushed = [];
}
