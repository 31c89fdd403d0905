-- ===== src/Base/Text.antt =====
-- The order of `String`, by which the program sorts identifiers: the bytes of UTF-8 compare as the
-- code points do.
use Prim.Native.Char.{code}
use Prim.Native.String.{String}
use mathlib.Core.Path.{◌≡◌, refl, ap₂}
use mathlib.Core.Bool.{Bool, true, false}
use native.Mathlib.Omega.{arith}
use text.Mathlib.Text.{◌==◌ as str_eq}
use text.Mathlib.TextEquality.{eq_iff, Char-path}
use open_broadcast_intercom.Base.Tests.{ltb, nat_beq, if◌then◌else◌}
use open_broadcast_intercom.Base.Sorted.{Ord, IsLinear}

unfoldable pub string_le : String → String → Bool
string_le String.[] t = true
string_le (String.◌∷◌ c s) String.[] = false
string_le (String.◌∷◌ c s) (String.◌∷◌ d t) =
    let rest = string_le s t in
    if ltb (code c) (code d) then true else if nat_beq (code c) (code d) then rest else false

string_le-total : (s t : String) → string_le s t ≡ false → string_le t s ≡ true
unfolding string_le
string_le-total String.[] t h = ground arith
string_le-total (String.◌∷◌ c s) String.[] h = refl
string_le-total (String.◌∷◌ c s) (String.◌∷◌ d t) h = ground (arith, string_le-total s t)

string_le_trans :
    (s t u : String) → string_le s t ≡ true → string_le t u ≡ true → string_le s u ≡ true
unfolding string_le
string_le_trans String.[] t u h k = refl
string_le_trans (String.◌∷◌ c s) String.[] u h k = ground arith
string_le_trans (String.◌∷◌ c s) (String.◌∷◌ d t) String.[] h k = ground arith
string_le_trans (String.◌∷◌ c s) (String.◌∷◌ d t) (String.◌∷◌ e u) h k =
    ground (arith, string_le_trans s t u)

string_le-antisym : (s t : String) → string_le s t ≡ true → string_le t s ≡ true → s ≡ t
unfolding string_le
string_le-antisym String.[] String.[] h k = refl
string_le-antisym String.[] (String.◌∷◌ d t) h k = ground arith
string_le-antisym (String.◌∷◌ c s) String.[] h k = ground arith
string_le-antisym (String.◌∷◌ c s) (String.◌∷◌ d t) h k =
    ap₂ String.◌∷◌ (Char-path c d (ground arith))
      (string_le-antisym s t (ground arith) (ground arith))

pub string_le-IsLinear : IsLinear string_le
string_le-IsLinear = record {
  total = string_le-total;
  trans = string_le_trans;
  antisym = string_le-antisym;
}

abbrev pub string_ord : Ord String
string_ord = record { le = string_le; beq = str_eq; beq_iff = eq_iff; linear = string_le-IsLinear }
