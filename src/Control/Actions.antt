-- ===== src/Control/Actions.antt =====
-- What the actions of talk buttons transmit to, as the loops of server and clients collect it.
use open_broadcast_intercom.Base.{ℕ, Bool, List, [], ◌∷◌, ◌++◌, String, string_eq, filter, contains}
use open_broadcast_intercom.Control.{
  TalkButtonConfig, TalkButtonAction, transmit, alert, apply_preset, set_talk_mode, route_edit,
}

abbrev pub with_duck : List ℕ → Bool → List (ℕ × Bool)
with_duck [] duck = []
with_duck (user ∷ users) duck = (user, duck) ∷ with_duck users duck

-- the users of the `Transmit` actions, each with its `duck`
unfoldable pub transmit_users : List TalkButtonAction → List (ℕ × Bool)
transmit_users [] = []
transmit_users (transmit channels users duck ∷ actions) =
    with_duck users duck ++ transmit_users actions
transmit_users (alert targets message ∷ actions) = transmit_users actions
transmit_users (apply_preset preset_id ∷ actions) = transmit_users actions
transmit_users (set_talk_mode users mode ∷ actions) = transmit_users actions
transmit_users (route_edit edit ∷ actions) = transmit_users actions

abbrev pub users_of : List (ℕ × Bool) → List ℕ
users_of [] = []
users_of ((user, duck) ∷ users) = user ∷ users_of users

abbrev pub button_targets : List TalkButtonConfig → List ℕ
button_targets [] = []
button_targets (button ∷ buttons) =
    users_of (transmit_users button.actions) ++ button_targets buttons

-- the channels of the `Transmit` actions
unfoldable pub transmit_channels : List TalkButtonAction → List ℕ
transmit_channels [] = []
transmit_channels (transmit channels users duck ∷ actions) = channels ++ transmit_channels actions
transmit_channels (alert targets message ∷ actions) = transmit_channels actions
transmit_channels (apply_preset preset_id ∷ actions) = transmit_channels actions
transmit_channels (set_talk_mode users mode ∷ actions) = transmit_channels actions
transmit_channels (route_edit edit ∷ actions) = transmit_channels actions

abbrev pub button_channels : List TalkButtonConfig → List ℕ
button_channels [] = []
button_channels (button ∷ buttons) = transmit_channels button.actions ++ button_channels buttons

-- the buttons that are active
abbrev pub pressed : List String → List TalkButtonConfig → List TalkButtonConfig
pressed active buttons = filter (λ button. contains active button.id) buttons
