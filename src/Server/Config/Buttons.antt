-- ===== src/Server/Config/Buttons.antt =====
-- The normal form of talk buttons.
use Prim.Native.Char.{code}
use open_broadcast_intercom.Base.{
  ℕ, suc, ◌+◌, ◌-◌, ◌*◌, Bool, true, false, not, ◌&&◌, ◌||◌, Option, none, some, List, String, ◌==◌,
  nat_eq, string_eq, leb, ltb, nat_beq, if◌then◌else◌, filter, map,
}
use open_broadcast_intercom.Base.Sorted.{nat_ord, sorted_unique}
use open_broadcast_intercom.Base.Stable.{sort_by, dedup_by}
use open_broadcast_intercom.Base.Text.{string_le}
use open_broadcast_intercom.Base.Trim.{trim, is_empty, non_empty_trim}
use open_broadcast_intercom.Control.{
  AlertTarget, user, listeners, TalkButtonAction, transmit, alert, apply_preset, set_talk_mode,
  route_edit, TalkButtonConfig,
}
use open_broadcast_intercom.Control.Same.{alert_target_beq}
use open_broadcast_intercom.Server.Emergency.{sorted_unique_users}

-- `str::parse::<u16>`: an optional `+`, then decimal digits of a number below 65,536
parse_digits : ℕ → String → Option ℕ
parse_digits value String.[] = some value
parse_digits value (String.◌∷◌ c s) =
    let next = value * 10 + (code c - 48) in
    let rest = parse_digits next s in
    if leb 48 (code c) && leb (code c) 57 && leb next 65_535 then rest else none

parse_unsigned : String → Option ℕ
unfolding parse_digits
parse_unsigned String.[] = none
parse_unsigned (String.◌∷◌ c s) = parse_digits 0 (String.◌∷◌ c s)

unfoldable pub parse_u16 : String → Option ℕ
unfolding parse_unsigned
parse_u16 String.[] = none
parse_u16 (String.◌∷◌ c s) =
    if nat_beq (code c) b'+' then parse_unsigned s else parse_unsigned (String.◌∷◌ c s)

-- `compare_button_ids`: that the first does not compare as greater
unfoldable pub button_id_le : String → String → Bool
unfolding parse_u16
button_id_le left right = elim (parse_u16 left) [
  | some a ↦ elim (parse_u16 right) [ some b ↦ leb a b | none ↦ true ]
  | none ↦ elim (parse_u16 right) [ some b ↦ false | none ↦ string_le left right ]
]

unfoldable pub all_hex : String → Bool
all_hex String.[] = true
all_hex (String.◌∷◌ c s) =
    let n = code c in
    ((leb 48 n && leb n 57) || (leb 65 n && leb n 70) || (leb 97 n && leb n 102)) && all_hex s

chars : String → ℕ
chars String.[] = 0
chars (String.◌∷◌ c s) = suc (chars s)

-- `is_hex_button_color`; a text of hexadecimal digits has as many bytes as characters
unfoldable pub is_hex_button_color : String → Bool
unfolding chars all_hex
is_hex_button_color String.[] = false
is_hex_button_color (String.◌∷◌ c s) =
    nat_beq (code c) b'#' && (nat_beq (chars s) 3 || nat_beq (chars s) 6) && all_hex s

-- `normalize_button_color`
unfoldable pub normalize_button_color : Option String → Option String
normalize_button_color none = none
normalize_button_color (some color) =
    let trimmed = trim color in if is_hex_button_color trimmed then some trimmed else none

-- `normalize_optional_message`
unfoldable pub normalize_optional_message : Option String → Option String
normalize_optional_message none = none
normalize_optional_message (some message) = non_empty_trim message

-- `sorted_unique_channels`
abbrev pub sorted_unique_channels : List ℕ → List ℕ
sorted_unique_channels channels = sorted_unique nat_ord channels

abbrev pub is_assignable : AlertTarget → Bool
is_assignable (user id) = ltb 0 id
is_assignable (listeners id) = true

abbrev pub alert_target_le : AlertTarget → AlertTarget → Bool
alert_target_le (user a) (user b) = leb a b
alert_target_le (user a) (listeners b) = true
alert_target_le (listeners a) (user b) = false
alert_target_le (listeners a) (listeners b) = leb a b

-- `sorted_unique_alert_targets`
unfoldable pub sorted_unique_alert_targets : List AlertTarget → List AlertTarget
sorted_unique_alert_targets targets =
    dedup_by alert_target_beq (sort_by alert_target_le (filter is_assignable targets))

-- one action of `normalize_button_actions`
unfoldable pub normalize_button_action : TalkButtonAction → TalkButtonAction
normalize_button_action (transmit channels users duck) =
    transmit (sorted_unique_channels channels) (sorted_unique_users users) duck
normalize_button_action (alert targets message) =
    alert (sorted_unique_alert_targets targets) (normalize_optional_message message)
normalize_button_action (apply_preset preset_id) = apply_preset (trim preset_id)
normalize_button_action (set_talk_mode users mode) = set_talk_mode (sorted_unique_users users) mode
normalize_button_action (route_edit edit) = route_edit record {
  users = sorted_unique_users edit.users;
  listen_add = sorted_unique_channels edit.listen_add;
  listen_remove = sorted_unique_channels edit.listen_remove;
  listen_toggle = sorted_unique_channels edit.listen_toggle;
  tx_add = sorted_unique_channels edit.tx_add;
  tx_remove = sorted_unique_channels edit.tx_remove;
  tx_toggle = sorted_unique_channels edit.tx_toggle;
}

unfoldable pub normalize_button : TalkButtonConfig → TalkButtonConfig
normalize_button button =
    let id = trim button.id in
    let label = trim button.label in
    record button {
      id = id;
      label = if is_empty label then id else label;
      color = normalize_button_color button.color;
      actions = map normalize_button_action button.actions;
    }

abbrev pub has_id : TalkButtonConfig → Bool
has_id button = not (is_empty (trim button.id))

-- `normalize_button_configs`
unfoldable pub normalize_button_configs : List TalkButtonConfig → List TalkButtonConfig
normalize_button_configs buttons =
    dedup_by (λ (a b : TalkButtonConfig). a.id == b.id)
      (sort_by (λ (a b : TalkButtonConfig). button_id_le a.id b.id)
        (map normalize_button (filter has_id buttons)))
