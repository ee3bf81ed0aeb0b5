-- ===== src/Prelude/Strings.antt =====
-- Go strings as lists of Unicode code points, and what the program uses of package `strings`.
use Prim.Native.Nat.{ℕ, ◌+◌}
use Prim.Native.Char.{code}
use Prim.Native.String.{String}
use mathlib.Core.Path.{◌≡◌, refl}
use mathlib.Core.Logic.{◌↔◌}
use mathlib.Core.Bool.{Bool, true, false, ◌&&◌, ◌||◌}
use mathlib.Core.Option.{Option, none, some}
use mathlib.Core.List.{List, [], ◌∷◌, ◌++◌}
use native.Mathlib.Omega.{arith}
use go_blueprint.Prelude.Tests.{if◌then◌else◌, ◌==◌, leb, ltb}
use go_blueprint.Prelude.Lists.{is_empty}

abbrev pub Text : Type 0
Text = List ℕ

-- The code points of a literal.
abbrev pub codes : String → Text
codes String.[] = []
codes (String.◌∷◌ c s) = code c ∷ codes s

-- `s == t`.
unfoldable pub text_eq : Text → Text → Bool
text_eq [] [] = true
text_eq [] (d ∷ t) = false
text_eq (c ∷ s) [] = false
text_eq (c ∷ s) (d ∷ t) = c == d && text_eq s t

pub text_eq_iff : (s t : Text) → (text_eq s t ≡ true) ↔ (s ≡ t)
unfolding text_eq
text_eq_iff [] [] = ground arith
text_eq_iff [] (d ∷ t) = ground arith
text_eq_iff (c ∷ s) [] = ground arith
text_eq_iff (c ∷ s) (d ∷ t) = ground (arith, text_eq_iff s t)

pub text_eq_refl : (s : Text) → text_eq s s ≡ true
text_eq_refl s = (text_eq_iff s s).1 refl

pub text_eq_sym : (s t : Text) → text_eq s t ≡ false → text_eq t s ≡ false
unfolding text_eq
text_eq_sym [] [] h = h
text_eq_sym [] (d ∷ t) h = refl
text_eq_sym (c ∷ s) [] h = refl
text_eq_sym (c ∷ s) (d ∷ t) h = ground (arith, h, text_eq_sym s t)

-- unicode.IsSpace, in full.
abbrev pub is_space : ℕ → Bool
is_space r =
    (leb 9 r && leb r 13)
    || r == 0x20
    || r == 0x85
    || r == 0xa0
    || r == 0x1680
    || (leb 0x2000 r && leb r 0x200a)
    || r == 0x2028
    || r == 0x2029
    || r == 0x202f
    || r == 0x205f
    || r == 0x3000

-- strings.TrimLeftFunc and strings.TrimRightFunc with unicode.IsSpace, and strings.TrimSpace.
unfoldable pub trim_left : Text → Text
trim_left [] = []
trim_left (r ∷ s) = if is_space r then trim_left s else r ∷ s

unfoldable pub cons_unless_blank : ℕ → Text → Text
cons_unless_blank r [] = if is_space r then [] else r ∷ []
cons_unless_blank r (q ∷ s) = r ∷ q ∷ s

unfoldable pub trim_right : Text → Text
unfolding cons_unless_blank
trim_right [] = []
trim_right (r ∷ s) = cons_unless_blank r (trim_right s)

unfoldable pub trim_space : Text → Text
unfolding trim_left trim_right
trim_space s = trim_right (trim_left s)

-- unicode.ToLower: exact below 128; `fold` is the table of package `unicode` for the other runes.
unfoldable pub lower_rune : (ℕ → ℕ) → ℕ → ℕ
lower_rune fold r = if ltb r 128 then (if leb b'A' r && leb r b'Z' then r + 32 else r) else fold r

-- strings.ToLower.
unfoldable pub to_lower : (ℕ → ℕ) → Text → Text
unfolding lower_rune
to_lower fold [] = []
to_lower fold (r ∷ s) = lower_rune fold r ∷ to_lower fold s

pub is_empty-to_lower : (fold : ℕ → ℕ) (s : Text) → is_empty (to_lower fold s) ≡ is_empty s
unfolding to_lower
is_empty-to_lower fold [] = refl
is_empty-to_lower fold (r ∷ s) = refl

-- strings.CutPrefix, `none` where it answers false; strings.HasPrefix.
unfoldable pub cut_prefix : Text → Text → Option Text
cut_prefix s [] = some s
cut_prefix [] (d ∷ p) = none
cut_prefix (c ∷ s) (d ∷ p) = if c == d then cut_prefix s p else none

unfoldable pub has_prefix : Text → Text → Bool
unfolding cut_prefix
has_prefix s p = elim (cut_prefix s p) [ none ↦ false | some rest ↦ true ]

-- `cut_prefix` answers exactly the texts that begin with the prefix.
pub cut_prefix_iff : (s p t : Text) → (cut_prefix s p ≡ some t) ↔ (s ≡ p ++ t)
unfolding cut_prefix
cut_prefix_iff s [] t = ground arith
cut_prefix_iff [] (d ∷ p) t = ground arith
cut_prefix_iff (c ∷ s) (d ∷ p) t = ground (arith, cut_prefix_iff s p t)
