-- ===== src/Base/Trim.antt =====
-- `str::trim`, with the white space of Unicode.
use Prim.Native.Char.{Char, code}
use Prim.Native.String.{String}
use mathlib.Core.Path.{◌≡◌, refl, ap, ◌∙◌}
use mathlib.Core.Logic.{inl, inr}
use mathlib.Core.Bool.{Bool, true, false, ◌||◌, ◌&&◌}
use mathlib.Core.Option.{Option, none, some}
use native.Mathlib.Omega.{arith}
use open_broadcast_intercom.Base.Tests.{leb, nat_beq, if◌then◌else◌, Bool-cases}

unfoldable pub is_whitespace : Char → Bool
is_whitespace c =
    let n = code c in
    (leb 9 n && leb n 13)
    || nat_beq n 32
    || nat_beq n 0x85
    || nat_beq n 0xA0
    || nat_beq n 0x1680
    || (leb 0x2000 n && leb n 0x200A)
    || nat_beq n 0x2028
    || nat_beq n 0x2029
    || nat_beq n 0x202F
    || nat_beq n 0x205F
    || nat_beq n 0x3000

unfoldable pub is_empty : String → Bool
is_empty String.[] = true
is_empty (String.◌∷◌ c s) = false

unfoldable pub trim_start : String → String
trim_start String.[] = String.[]
trim_start (String.◌∷◌ c s) =
    let rest = trim_start s in if is_whitespace c then rest else String.◌∷◌ c s

unfoldable pub trim_end : String → String
trim_end String.[] = String.[]
trim_end (String.◌∷◌ c s) =
    let rest = trim_end s in
    if is_whitespace c && is_empty rest then String.[] else String.◌∷◌ c rest

unfoldable pub trim : String → String
unfolding trim_start trim_end
trim s = trim_end (trim_start s)

-- `trim` as a filter: the trimmed text, unless nothing is left
unfoldable pub non_empty_trim : String → Option String
non_empty_trim s = let t = trim s in if is_empty t then none else some t

-- no white space at the start
starts_clean : String → Bool
starts_clean String.[] = true
starts_clean (String.◌∷◌ c s) = elim (is_whitespace c) [ true ↦ false | false ↦ true ]

trim_start-clean : (s : String) → starts_clean (trim_start s) ≡ true
unfolding trim_start starts_clean
trim_start-clean String.[] = refl
trim_start-clean (String.◌∷◌ c s) = ground (arith, trim_start-clean s)

trim_start_same : (s : String) → starts_clean s ≡ true → trim_start s ≡ s
unfolding trim_start starts_clean
trim_start_same String.[] h = refl
trim_start_same (String.◌∷◌ c s) h = ground arith

trim_end-clean : (s : String) → starts_clean s ≡ true → starts_clean (trim_end s) ≡ true
unfolding trim_end starts_clean
trim_end-clean String.[] h = refl
trim_end-clean (String.◌∷◌ c s) h = ground arith

trim_end_twice : (s : String) → trim_end (trim_end s) ≡ trim_end s
unfolding trim_end
trim_end_twice String.[] = refl
trim_end_twice (String.◌∷◌ c s) = elim (Bool-cases (is_whitespace c && is_empty (trim_end s))) [
  | inl h ↦ rw (h, trim_end) refl
  | inr h ↦ rw (h, trim_end) (rw (trim_end_twice s) (rw h refl))
]

-- Trimming a trimmed text changes nothing.
pub trim_twice : (s : String) → trim (trim s) ≡ trim s
unfolding trim
trim_twice s =
    ap trim_end (trim_start_same _ (trim_end-clean _ (trim_start-clean s)))
    ∙ trim_end_twice (trim_start s)
