-- ===== src/Text.antt =====
-- Go strings as lists of bytes: equality is that of lists, `<` is bytewise, and what the program
-- uses of the package strings is defined here. `trim_space` takes Unicode white space in its UTF-8
-- encodings, as strings.TrimSpace does.
pub mod Order
pub mod Print
pub mod Split
pub mod Decimal
pub mod Trimmed
use Prim.Native.Char.{code}
use Prim.Native.String.{String}
use ngd_ngg_scheduling.Base.{
  ℕ, zero, suc, ◌≡◌, refl, Bool, true, false, ◌&&◌, ◌||◌, List, [], ◌∷◌, ◌++◌, reverse, Option,
  none, some, ltb, leb, nat_eq, if◌then◌else◌, Eq, list_Eq, ℕ_eq,
}

abbrev pub Text : Type 0
Text = List ℕ

instance abbrev pub text_Eq : Eq Text
text_Eq = list_Eq ⦃e = ℕ_eq⦄

-- A literal of the source. All literals are ASCII, where code points are bytes.
abbrev pub lit : String → Text
lit String.[] = []
lit (String.◌∷◌ c s) = code c ∷ lit s

-- `a < b`
unfoldable pub text_lt : Text → Text → Bool
text_lt s [] = false
text_lt [] (y ∷ t) = true
text_lt (x ∷ s) (y ∷ t) = ltb x y || (nat_eq x y && text_lt s t)

abbrev pub is_empty : Text → Bool
is_empty [] = true
is_empty (x ∷ s) = false

-- strings.HasPrefix
unfoldable pub has_prefix : Text → Text → Bool
has_prefix s [] = true
has_prefix [] (y ∷ p) = false
has_prefix (x ∷ s) (y ∷ p) = nat_eq x y && has_prefix s p

abbrev ascii_space : ℕ → Bool
ascii_space b = nat_eq b 0x20 || (leb 0x09 b && leb b 0x0d)

-- The last byte of a white space character that begins with 0xe1, 0xe2 or 0xe3.
abbrev long_space : ℕ → ℕ → ℕ → Bool
long_space a b c =
    (nat_eq a 0xe1 && (nat_eq b 0x9a && nat_eq c 0x80))
    || ((nat_eq a 0xe2
          && (nat_eq b 0x80
              && ((leb 0x80 c && leb c 0x8a)
                  || (nat_eq c 0xa8 || (nat_eq c 0xa9 || nat_eq c 0xaf)))))
        || ((nat_eq a 0xe2 && (nat_eq b 0x81 && nat_eq c 0x9f))
            || (nat_eq a 0xe3 && (nat_eq b 0x80 && nat_eq c 0x80))))

abbrev short_space : ℕ → ℕ → Bool
short_space a b = nat_eq a 0xc2 && (nat_eq b 0x85 || nat_eq b 0xa0)

-- How many bytes the white space at the start of a text takes after its first; `none`: there is none.
unfoldable pub space_at : Text → Option ℕ
space_at [] = none
space_at (a ∷ []) = if ascii_space a then some 0 else none
space_at (a ∷ b ∷ []) = if ascii_space a then some 0 else if short_space a b then some 1 else none
space_at (a ∷ b ∷ c ∷ s) =
    if ascii_space a
    then some 0
    else if short_space a b
    then some 1
    else if long_space a b c
    then some 2
    else none

-- The same at the end of a text that is read backwards.
unfoldable pub space_back : Text → Option ℕ
space_back [] = none
space_back (a ∷ []) = if ascii_space a then some 0 else none
space_back (b ∷ a ∷ []) = if ascii_space b then some 0 else if short_space a b then some 1 else none
space_back (c ∷ b ∷ a ∷ s) =
    if ascii_space c
    then some 0
    else if short_space b c
    then some 1
    else if long_space a b c
    then some 2
    else none

-- Drops white space from the front; the number counts the bytes of a character still to drop.
unfoldable pub trim_front : (Text → Option ℕ) → ℕ → Text → Text
trim_front at k [] = []
trim_front at (suc k) (b ∷ s) = trim_front at k s
trim_front at zero (b ∷ s) = elim (at (b ∷ s)) [ none ↦ b ∷ s | some k ↦ trim_front at k s ]

-- strings.TrimSpace
unfoldable pub trim_space : Text → Text
unfolding trim_front space_at space_back
trim_space s = reverse (trim_front space_back 0 (reverse (trim_front space_at 0 s)))

-- strings.ToLower and strings.EqualFold, which stand on the Unicode tables.
pub record Folding : Type 0 where
  pub to_lower : Text → Text
  pub equal_fold : Text → Text → Bool
