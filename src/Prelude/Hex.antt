-- ===== src/Prelude/Hex.antt =====
-- `encoding/hex`, and the digests that the program writes with it.
use Prim.Native.Nat.{ℕ, ◌+◌, ◌-◌, ◌*◌, ◌/◌, ◌%◌, ◌<◌}
use mathlib.Core.Path.{◌≡◌, refl, ap, sym, subst}
use mathlib.Core.Bool.{Bool, true, false, ◌&&◌}
use mathlib.Core.Option.{Option, none, some}
use mathlib.Core.List.{List, [], ◌∷◌, map}
use native.Mathlib.Omega.{arith}
use frame_tv_art_manager.Prelude.Tests.{
  ltb, leb, ◌==◌, if◌then◌else◌, holds_of, holds-true, Bool-cases, and_parts,
}
use mathlib.Core.Logic.{◌↔◌, inl, inr}
use frame_tv_art_manager.Prelude.Lists.{length}
use frame_tv_art_manager.Prelude.Every.{All}
use frame_tv_art_manager.Prelude.Texts.{Text, ◌=ₜ◌, Text-discrete}

-- The text of a number below 16.
unfoldable pub hex_digit : ℕ → ℕ
hex_digit n = if ltb n 10 then 48 + n else 87 + n

unfoldable pub from_hex : ℕ → Option ℕ
from_hex c =
    if leb b'0' c && leb c b'9'
    then some (c - 48)
    else if leb b'a' c && leb c b'f'
    then some (c - 87)
    else if leb b'A' c && leb c b'F'
    then some (c - 55)
    else none

-- `hex.EncodeToString`.
unfoldable pub hex_encode : List ℕ → Text
hex_encode [] = []
hex_encode (b ∷ bs) = hex_digit (b / 16) ∷ hex_digit (b % 16) ∷ hex_encode bs

hex_pair : Option ℕ → Option ℕ → Option (List ℕ) → Option (List ℕ)
hex_pair (some a) (some b) (some bs) = some ((16 * a + b) ∷ bs)
hex_pair _ _ _ = none

-- `hex.DecodeString`: `none` where it returns an error.
unfoldable pub hex_decode : Text → Option (List ℕ)
unfolding hex_pair
hex_decode [] = some []
hex_decode (c ∷ []) = none
hex_decode (c ∷ d ∷ s) = hex_pair (from_hex c) (from_hex d) (hex_decode s)

lower : ℕ → ℕ
lower c = if leb b'A' c && leb c b'Z' then c + 32 else c

-- `strings.ToLower` on ASCII, which is what the program gives it here: `hex_decode` has passed.
unfoldable pub to_lower : Text → Text
unfolding lower
to_lower = map lower

abbrev has_digest_size : Option (List ℕ) → Bool
has_digest_size none = false
has_digest_size (some bytes) = length bytes == 32

-- `validDigest`.
unfoldable pub valid_digest : Text → Bool
unfolding to_lower
valid_digest value = has_digest_size (hex_decode value) && value =ₜ to_lower value

-- What the program holds as `[sha256.Size]byte`.
pub record IsDigest (bytes : List ℕ) : Type 0 where
  pub size : length bytes ≡ 32
  pub bytewise : All (λ b. b < 256) bytes

from_hex-hex_digit : (n : ℕ) → n < 16 → from_hex (hex_digit n) ≡ some n
unfolding from_hex hex_digit
from_hex-hex_digit n h = ground arith

hex_pair_digits :
    (b : ℕ) (bs : List ℕ)
    → b < 256
    → hex_pair (from_hex (hex_digit (b / 16))) (from_hex (hex_digit (b % 16))) (some bs)
      ≡ some (b ∷ bs)
unfolding hex_pair
hex_pair_digits b bs h =
    rw (from_hex-hex_digit (b / 16) (omega arith), from_hex-hex_digit (b % 16) (omega arith))
      (ap (λ (n : ℕ). some (n ∷ bs)) (omega arith))

pub hex_decode-hex_encode :
    (bs : List ℕ) → All (λ b. b < 256) bs → hex_decode (hex_encode bs) ≡ some bs
unfolding hex_decode hex_encode
hex_decode-hex_encode [] h = refl
hex_decode-hex_encode (b ∷ bs) h = rw (hex_decode-hex_encode bs h.1) (hex_pair_digits b bs h.0)

lower-hex_digit : (n : ℕ) → n < 16 → lower (hex_digit n) ≡ hex_digit n
unfolding lower hex_digit
lower-hex_digit n h = ground arith

to_lower-hex_encode :
    (bs : List ℕ) → All (λ b. b < 256) bs → to_lower (hex_encode bs) ≡ hex_encode bs
unfolding to_lower hex_encode
to_lower-hex_encode [] h = refl
to_lower-hex_encode (b ∷ bs) h = cc (
  lower-hex_digit (b / 16) (omega arith),
  lower-hex_digit (b % 16) (omega arith),
  to_lower-hex_encode bs h.1,
)

-- The text of every digest is a valid digest.
pub valid_digest-hex_encode : (bs : List ℕ) → IsDigest bs → valid_digest (hex_encode bs) ≡ true
unfolding valid_digest
valid_digest-hex_encode bs d =
    rw (hex_decode-hex_encode bs d.bytewise, to_lower-hex_encode bs d.bytewise)
      (ground (arith, d.size, holds_of (Text-discrete (hex_encode bs) (hex_encode bs)) refl))

-- Different digests have different texts.
pub hex_encode_injective :
    (ds bs : List ℕ) → IsDigest ds → IsDigest bs → hex_encode ds ≡ hex_encode bs → ds ≡ bs
hex_encode_injective ds bs da db e =
    cc (hex_decode-hex_encode ds da.bytewise, hex_decode-hex_encode bs db.bytewise)

from_hex-hex_digit_eq : (c n : ℕ) → from_hex c ≡ some n → lower c ≡ c → (n < 16) × (hex_digit n ≡ c)
unfolding from_hex lower hex_digit
from_hex-hex_digit_eq c n e l = elim (Bool-cases (leb b'0' c && leb c b'9')) [
  | inl d ↦ (ground arith, ground arith)
  | inr d ↦ elim (Bool-cases (leb b'a' c && leb c b'f')) [
    | inl a ↦ (ground arith, ground arith)
    | inr a ↦ (ground arith, ground arith)
  ]
]

-- The text of a list of bytes.
abbrev IsText : Text → List ℕ → Type 0
IsText t bs = All (λ b. b < 256) bs × (hex_encode bs ≡ t)

hex_pair-IsText :
    (c d : ℕ) (s : Text) (a b : Option ℕ) (rest : Option (List ℕ)) (bs : List ℕ)
    → from_hex c ≡ a
    → from_hex d ≡ b
    → hex_pair a b rest ≡ some bs
    → lower c ≡ c
    → lower d ≡ d
    → ((more : List ℕ) → rest ≡ some more → IsText s more)
    → IsText (c ∷ d ∷ s) bs
unfolding hex_pair hex_encode
hex_pair-IsText c d s none b rest bs p q e l m f = absurd (ground arith)
hex_pair-IsText c d s (some a) none rest bs p q e l m f = absurd (ground arith)
hex_pair-IsText c d s (some a) (some b) none bs p q e l m f = absurd (ground arith)
hex_pair-IsText c d s (some a) (some b) (some more) bs p q e l m f =
    let k = from_hex-hex_digit_eq c a p l in
    let j = from_hex-hex_digit_eq d b q m in
    let r = f more refl in
    let first : (16 * a + b) / 16 ≡ a = omega (arith, k.0, j.0) in
    let second : (16 * a + b) % 16 ≡ b = omega (arith, k.0, j.0) in
    let whole : (16 * a + b) ∷ more ≡ bs = ground arith in
    subst (IsText (c ∷ d ∷ s)) whole
      ((omega (arith, k.0, j.0), r.0), rw (first, second) (cc (k.1, j.1, r.1)))

hex_decode-IsText : (t : Text) (bs : List ℕ) → hex_decode t ≡ some bs → to_lower t ≡ t → IsText t bs
unfolding hex_decode to_lower hex_encode
hex_decode-IsText [] bs e l = let q : [] ≡ bs = ground arith in subst (IsText []) q (tt, refl)
hex_decode-IsText (c ∷ []) bs e l = absurd (ground arith)
hex_decode-IsText (c ∷ d ∷ s) bs e l =
    hex_pair-IsText c d s (from_hex c) (from_hex d) (hex_decode s) bs refl refl e (ground arith)
      (ground arith) (λ more q. hex_decode-IsText s more q (ground arith))

-- The text that `hex.EncodeToString` makes of a digest.
abbrev pub IsDigestText : Text → Type 0
IsDigestText t = (bs : List ℕ) × IsDigest bs × (hex_encode bs ≡ t)

sized-IsDigestText :
    (t : Text) (decoded : Option (List ℕ))
    → hex_decode t ≡ decoded
    → has_digest_size decoded ≡ true
    → to_lower t ≡ t
    → IsDigestText t
sized-IsDigestText t none e n l = absurd (ground arith)
sized-IsDigestText t (some bs) e n l =
    let k = hex_decode-IsText t bs e l in (bs, record { size = ground arith; bytewise = k.0 }, k.1)

-- A text passes `validDigest` exactly if it is the hexadecimal text of 32 bytes, in lower case.
pub valid_digest-IsDigestText : (t : Text) → (valid_digest t ≡ true) ↔ IsDigestText t
unfolding valid_digest
valid_digest-IsDigestText t = (
  λ h.
      let k = and_parts (has_digest_size (hex_decode t)) (t =ₜ to_lower t) h in
      sized-IsDigestText t (hex_decode t) refl k.0
        (sym (holds-true (Text-discrete t (to_lower t)) k.1)),
  λ k. subst (λ x. valid_digest x ≡ true) k.2 (valid_digest-hex_encode k.0 k.1),
)
