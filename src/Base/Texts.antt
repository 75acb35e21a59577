-- ===== src/Base/Texts.antt =====
-- What the program uses of Go's package strings, on native texts.
use Prim.Native.Nat.{ℕ, Ordering}
use Prim.Native.Char.{code}
use Prim.Native.String.{String, compare}
use mathlib.Core.Path.{◌≡◌, refl}
use mathlib.Core.List.{List, [], ◌∷◌}
use text.Mathlib.TextPositions.{eq_refl}
use mathlib.Core.Bool.{Bool, true, false, ◌&&◌, ◌||◌}
use text.Mathlib.Text.{◌==◌, starts_with}
use openwrt_rmm.Base.Tests.{if◌then◌else◌, leb, eqb}

-- unicode.IsSpace, which strings.TrimSpace cuts.
unfoldable pub is_space : ℕ → Bool
is_space c =
    (leb 9 c && leb c 13)
    || eqb c 32
    || eqb c 0x85
    || eqb c 0xA0
    || eqb c 0x1680
    || (leb 0x2000 c && leb c 0x200A)
    || eqb c 0x2028
    || eqb c 0x2029
    || eqb c 0x202F
    || eqb c 0x205F
    || eqb c 0x3000

unfoldable pub trim_left : String → String
unfolding is_space
trim_left String.[] = String.[]
trim_left (String.◌∷◌ c s) =
    let rest = trim_left s in if is_space (code c) then rest else String.◌∷◌ c s

unfoldable pub trim_right : String → String
unfolding is_space
trim_right String.[] = String.[]
trim_right (String.◌∷◌ c s) =
    let rest = trim_right s in
    if (rest == "") && is_space (code c) then String.[] else String.◌∷◌ c rest

-- strings.TrimSpace
unfoldable pub trim_space : String → String
unfolding trim_left trim_right
trim_space s = trim_right (trim_left s)

-- strings.Contains
unfoldable pub contains_text : String → String → Bool
contains_text String.[] part = part == ""
contains_text (String.◌∷◌ c s) part = starts_with (String.◌∷◌ c s) part || contains_text s part

-- Go's `<=` on strings, which compares bytes.
abbrev pub text_le : String → String → Bool
text_le a b = elim (compare a b) [ Ordering.gt ↦ false | _ ↦ true ]

-- slices.Compact on a sorted list of texts.
unfoldable pub compact_texts : List String → List String
compact_texts [] = []
compact_texts (x ∷ []) = x ∷ []
compact_texts (x ∷ y ∷ xs) = let rest = compact_texts (y ∷ xs) in if x == y then rest else x ∷ rest

-- slices.Equal on texts
unfoldable pub equal_texts : List String → List String → Bool
equal_texts [] [] = true
equal_texts (x ∷ xs) (y ∷ ys) = (x == y) && equal_texts xs ys
equal_texts _ _ = false

pub equal_texts_refl : (xs : List String) → equal_texts xs xs ≡ true
unfolding equal_texts
equal_texts_refl [] = refl
equal_texts_refl (x ∷ xs) = rw (eq_refl x) (equal_texts_refl xs)
