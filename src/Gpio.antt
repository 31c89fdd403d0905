-- ===== src/Gpio.antt =====
-- clients/pi-gpio/src/main.rs: buttons on the pins of a Raspberry Pi, which post to a client's local
-- API. An endpoint is the list of the bytes of its path. The files of the pins and the connection are
-- left out: what was read is an argument, and what is posted is a result. A read or a post that fails
-- ends the program.
pub mod Debounce
use Prim.Native.Char.{code}
use open_broadcast_intercom.Base.{
  ℕ, ◌+◌, ◌-◌, ◌*◌, ◌/◌, ◌%◌, Bool, true, false, not, ◌&&◌, ◌||◌, List, [], ◌∷◌, ◌++◌, String, ltb,
  leb, nat_beq, str_eq, if◌then◌else◌, Result, ok, err, ◌>>=◌,
}
use open_broadcast_intercom.Base.Trim.{trim, is_empty}
use open_broadcast_intercom.Control.Same.{bool_beq}

pub data ButtonMode : Type 0 where
  momentary latching : ButtonMode

pub data ButtonAction : Type 0 where
  regular_talk : ButtonAction
  talk_button : String → ButtonAction

pub record GpioButton : Type 0 where
  pub name : String
  pub gpio : ℕ
  pub active_low : Bool
  pub mode : ButtonMode
  pub action : ButtonAction

pub record GpioConfig : Type 0 where
  pub debounce_ms : ℕ
  pub poll_ms : ℕ
  pub buttons : List GpioButton

-- `GpioConfig::default`
abbrev pub default_config : GpioConfig
default_config = record {
  debounce_ms = 30;
  poll_ms = 20;
  buttons =
      record {
        name = "regular-talk";
        gpio = 17;
        active_low = true;
        mode = momentary;
        action = regular_talk;
      }
      ∷ record {
        name = "director";
        gpio = 27;
        active_low = true;
        mode = momentary;
        action = talk_button "director";
      }
      ∷ [];
}

-- The messages of `validate_config`.
pub data GpioError : Type 0 where
  no_buttons empty_name no_button_id : GpioError

-- the checks of one button
unfoldable pub validate_button : GpioButton → Result GpioError (Unit {0})
validate_button button =
    if is_empty (trim button.name) then err empty_name else elim button.action [
      | regular_talk ↦ ok tt
      | talk_button id ↦ if is_empty (trim id) then err no_button_id else ok tt
    ]

unfoldable pub validate_buttons : List GpioButton → Result GpioError (Unit {0})
unfolding validate_button
validate_buttons [] = ok tt
validate_buttons (button ∷ buttons) =
    let rest = validate_buttons buttons in validate_button button >>= (λ _. rest)

-- `validate_config`
unfoldable pub validate_config : GpioConfig → Result GpioError (Unit {0})
unfolding validate_buttons
validate_config config = elim config.buttons [
  | [] ↦ err no_buttons
  | button ∷ buttons ↦ validate_buttons (button ∷ buttons)
]

-- the end of `read_gpio_pressed`, from the text of the pin's file
unfoldable pub read_gpio_pressed : GpioButton → String → Bool
read_gpio_pressed button value =
    let high = str_eq (trim value) "1" in if button.active_low then not high else high

-- `value.bytes()`: the bytes of UTF-8
utf8 : ℕ → List ℕ
utf8 n =
    if ltb n 0x80
    then n ∷ []
    else if ltb n 0x800
    then (0xC0 + n / 64) ∷ (0x80 + n % 64) ∷ []
    else if ltb n 0x1_0000
    then (0xE0 + n / 4_096) ∷ (0x80 + n / 64 % 64) ∷ (0x80 + n % 64) ∷ []
    else (0xF0 + n / 262_144)
      ∷ (0x80 + n / 4_096 % 64)
      ∷ (0x80 + n / 64 % 64)
      ∷ (0x80 + n % 64)
      ∷ []

unfoldable pub bytes : String → List ℕ
unfolding utf8
bytes String.[] = []
bytes (String.◌∷◌ c s) = utf8 (code c) ++ bytes s

-- a digit of `{:02X}`
abbrev pub hex_digit : ℕ → ℕ
hex_digit n = if ltb n 10 then 48 + n else 55 + n

-- a byte that stands for itself
unfoldable pub is_unreserved : ℕ → Bool
is_unreserved b =
    (leb 65 b && leb b 90)
    || (leb 97 b && leb b 122)
    || (leb 48 b && leb b 57)
    || nat_beq b b'-'
    || nat_beq b b'_'
    || nat_beq b b'.'
    || nat_beq b b'~'

unfoldable pub encode_bytes : List ℕ → List ℕ
unfolding is_unreserved
encode_bytes [] = []
encode_bytes (b ∷ bs) =
    (if is_unreserved b then b ∷ [] else b'%' ∷ hex_digit (b / 16) ∷ hex_digit (b % 16) ∷ [])
    ++ encode_bytes bs

-- `encode_path_segment`
unfoldable pub encode_path_segment : String → List ℕ
unfolding bytes encode_bytes
encode_path_segment value = encode_bytes (bytes value)

abbrev pub button_path : String → String → List ℕ
button_path id event = bytes "/buttons/" ++ encode_path_segment id ++ bytes event

-- `endpoints_for_event`
unfoldable pub endpoints_for_event : GpioButton → Bool → List (List ℕ)
unfolding bytes encode_path_segment
endpoints_for_event button pressed = elim button.action [
  | regular_talk ↦ elim button.mode [
    | momentary ↦ (if pressed then bytes "/talk/down" else bytes "/talk/up") ∷ []
    | latching ↦ if pressed then bytes "/talk/toggle" ∷ [] else []
  ]
  | talk_button id ↦ elim button.mode [
    | momentary ↦ (if pressed then button_path id "/down" else button_path id "/up") ∷ []
    | latching ↦ if pressed then button_path id "/toggle" ∷ [] else []
  ]
]

pub record ButtonRuntime : Type 0 where
  pub config : GpioButton
  pub stable_pressed : Bool
  pub candidate_pressed : Bool
  pub candidate_since : ℕ

-- the state of a button before the loop
unfoldable pub start_button : GpioButton → ℕ → Bool → ButtonRuntime
start_button button now pressed = record {
  config = button;
  stable_pressed = pressed;
  candidate_pressed = pressed;
  candidate_since = now;
}

-- the body of `run_loop` for one button, with the endpoints that it posts to
unfoldable pub poll_button : ℕ → ButtonRuntime → ℕ → Bool → List (List ℕ) × ButtonRuntime
poll_button debounce button now pressed =
    if not (bool_beq pressed button.candidate_pressed)
    then ([], record button { candidate_pressed = pressed; candidate_since = now })
    else if not (bool_beq pressed button.stable_pressed)
        && leb debounce (now - button.candidate_since)
    then (endpoints_for_event button.config pressed, record button { stable_pressed = pressed })
    else ([], button)

-- the rounds of `run_loop` for one button, at the times and with the levels that are read
unfoldable pub run_button : ℕ → ButtonRuntime → List (ℕ × Bool) → List (List ℕ) × ButtonRuntime
unfolding poll_button
run_button debounce button [] = ([], button)
run_button debounce button ((now, pressed) ∷ readings) =
    let (posted, button') = poll_button debounce button now pressed in
    let (later, after) = run_button debounce button' readings in (posted ++ later, after)
