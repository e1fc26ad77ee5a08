-- ===== src/Prelude/Texts.antt =====
-- Go strings: lists of bytes, with what the program uses of `strings`, `encoding/hex` and
-- `path/filepath` (on Unix).
use Prim.Native.Nat.{ℕ, zero, suc, compare, Ordering}
use Prim.Native.Char.{code}
use Prim.Native.String.{String}
use mathlib.Core.Path.{◌≡◌, refl}
use mathlib.Core.Bool.{Bool, true, false, ◌&&◌, ◌||◌, not}
use mathlib.Core.List.{List, [], ◌∷◌, reverse}
use native.Mathlib.Decide.{ℕ_discrete}
use frame_tv_art_manager.Prelude.Tests.{leb, ◌==◌, if◌then◌else◌, holds}
use frame_tv_art_manager.Prelude.Lists.{length, drop}

abbrev pub Text : Type 0
Text = List ℕ

unfoldable pub Text-discrete : Discrete Text
Text-discrete = hlevel ℕ_discrete

-- The bytes of an ASCII literal.
abbrev pub codes : String → Text
codes String.[] = []
codes (String.◌∷◌ c s) = code c ∷ codes s

infix 50 ◌=ₜ◌
abbrev pub ◌=ₜ◌ : Text → Text → Bool
s =ₜ t = holds (Text-discrete s t)

abbrev pub is_empty : Text → Bool
is_empty [] = true
is_empty (x ∷ s) = false

-- `strings.Compare`: bytewise.
unfoldable pub text_compare : Text → Text → Ordering
text_compare [] [] = Ordering.eq
text_compare [] (y ∷ t) = Ordering.lt
text_compare (x ∷ s) [] = Ordering.gt
text_compare (x ∷ s) (y ∷ t) = elim (compare x y) [
  | Ordering.lt ↦ Ordering.lt
  | Ordering.eq ↦ text_compare s t
  | Ordering.gt ↦ Ordering.gt
]

-- The bytes of the white-space character that a text begins with: 0 if it begins with another.
space_width : Text → ℕ
space_width [] = 0
space_width (a ∷ s) = if (leb 9 a && leb a 13) || a == 32 then 1 else wide a s
  where
    wide3 : ℕ → ℕ → Text → ℕ
    wide3 a b [] = 0
    wide3 a b (c ∷ s) =
        if a == 0xe1 && b == 0x9a && c == 0x80
          || a == 0xe2
            && b == 0x80
            && (leb 0x80 c && leb c 0x8a || c == 0xa8 || c == 0xa9 || c == 0xaf)
          || a == 0xe2 && b == 0x81 && c == 0x9f
          || a == 0xe3 && b == 0x80 && c == 0x80
        then 3
        else 0

    wide : ℕ → Text → ℕ
    wide a [] = 0
    wide a (b ∷ s) = if a == 0xc2 && (b == 0x85 || b == 0xa0) then 2 else wide3 a b s

-- The same for the character that a text ends with, over the reversed text.
last_space_width : Text → ℕ
last_space_width [] = 0
last_space_width (c ∷ s) = if (leb 9 c && leb c 13) || c == 32 then 1 else wide c s
  where
    wide3 : ℕ → ℕ → Text → ℕ
    wide3 c b [] = 0
    wide3 c b (a ∷ s) =
        if a == 0xe1 && b == 0x9a && c == 0x80
          || a == 0xe2
            && b == 0x80
            && (leb 0x80 c && leb c 0x8a || c == 0xa8 || c == 0xa9 || c == 0xaf)
          || a == 0xe2 && b == 0x81 && c == 0x9f
          || a == 0xe3 && b == 0x80 && c == 0x80
        then 3
        else 0

    wide : ℕ → Text → ℕ
    wide c [] = 0
    wide c (b ∷ s) = if b == 0xc2 && (c == 0x85 || c == 0xa0) then 2 else wide3 c b s

trim_by : (Text → ℕ) → ℕ → Text → Text
trim_by width zero s = s
trim_by width (suc n) s = elim (width s) [ zero ↦ s | suc w ↦ trim_by width n (drop (suc w) s) ]

-- `strings.TrimSpace`.
unfoldable pub trim_space : Text → Text
unfolding trim_by space_width last_space_width
trim_space s =
    let t = trim_by space_width (length s) s in
    reverse (trim_by last_space_width (length t) (reverse t))

abbrev pub is_blank : Text → Bool
is_blank s = is_empty (trim_space s)

abbrev pub is_trimmed : Text → Bool
is_trimmed s = s =ₜ trim_space s

take_while : (ℕ → Bool) → Text → Text
take_while p [] = []
take_while p (x ∷ s) = if p x then x ∷ take_while p s else []

drop_while : (ℕ → Bool) → Text → Text
drop_while p [] = []
drop_while p (x ∷ s) = if p x then drop_while p s else x ∷ s

-- `filepath.Base`.
unfoldable pub base : Text → Text
unfolding take_while drop_while
base [] = codes "."
base (x ∷ s) =
    let tail = drop_while (λ c. c == b'/') (reverse (x ∷ s)) in
    let name = reverse (take_while (λ c. not (c == b'/')) tail) in
    if is_empty name then codes "/" else name

-- `filepath.IsAbs`.
abbrev pub is_abs : Text → Bool
is_abs [] = false
is_abs (x ∷ s) = x == b'/'

extension_from : Text → Text → Text
extension_from seen [] = []
extension_from seen (c ∷ rest) =
    if c == b'/' then [] else if c == b'.' then c ∷ seen else extension_from (c ∷ seen) rest

-- `filepath.Ext`: from the last dot of the last element.
unfoldable pub extension : Text → Text
unfolding extension_from
extension s = extension_from [] (reverse s)

trim_both : trim_space (codes " \t art 1\n") ≡ codes "art 1"
unfolding trim_space
trim_both = refl

trim_wide : trim_space (0xc2 ∷ 0xa0 ∷ b'x' ∷ 0xe2 ∷ 0x80 ∷ 0x8a ∷ []) ≡ codes "x"
unfolding trim_space
trim_wide = refl

base_of_path : base (codes "/art/a.jpg/") ≡ codes "a.jpg"
unfolding base
base_of_path = refl

extension_of_name : extension (codes "a.b.jpg") ≡ codes ".jpg"
unfolding extension
extension_of_name = refl
