-- ===== src/DeviceId/Luhn.antt =====
-- lib/protocol/luhn.go, and `luhnify`, `unluhnify`, `chunkify`, `unchunkify` and `untypeoify` of
-- lib/protocol/deviceid.go.
pub mod Check
pub mod RoundTrip
use vidsync_app.Base.{
  ℕ, zero, suc, ◌+◌, ◌-◌, ◌*◌, ◌/◌, ◌%◌, ◌≡◌, refl, Bool, true, false, ◌&&◌, List, [], ◌∷◌, ◌++◌,
  Option, none, some, ltb, leb, ◌==◌, if◌then◌else◌, length, get_elem?, take, drop,
}
use vidsync_app.DeviceId.Text.{Bytes, codes, replace_all, remove_all}

-- Go's `error`, and a panic.
pub data Failure : Type 0 where
  bad_digit bad_length bad_check_digit bad_base32 panic : Failure

-- A pair of a value and an error of which one is nil.
pub data Returned {ℓ} (V : Type ℓ) : Type ℓ where
  ok : (value : V) → Returned V
  err : (failure : Failure) → Returned V

-- `if err != nil { return ..., err }` between two calls.
infixl 5 ◌>>=◌
abbrev pub ◌>>=◌ {ℓ κ} :
    {V : Type ℓ} {W : Type κ} (first : Returned V) (next : V → Returned W) → Returned W
first >>= next = elim first [ ok value ↦ next value | err failure ↦ err failure ]

abbrev pub luhn_base32 : Bytes
luhn_base32 = codes "ABCDEFGHIJKLMNOPQRSTUVWXYZ234567"

-- `none` is the code's -1.
unfoldable pub codepoint32 : ℕ → Option ℕ
codepoint32 b =
    if leb b'A' b && leb b b'Z'
    then some (b - b'A')
    else if leb b'2' b && leb b b'7'
    then some (b + 26 - b'2')
    else none

-- The addend of a digit: the two base-32 digits of the product, added.
unfoldable pub addend : ℕ → ℕ → ℕ
addend factor codepoint = factor * codepoint / 32 + factor * codepoint % 32

abbrev pub next_factor : ℕ → ℕ
next_factor factor = if factor == 2 then 1 else 2

-- The loop of `luhn32`.
unfoldable pub luhn_sum : ℕ → ℕ → Bytes → Returned ℕ
luhn_sum factor sum [] = ok sum
luhn_sum factor sum (c ∷ s) = elim (codepoint32 c) [
  | none ↦ err bad_digit
  | some p ↦ luhn_sum (next_factor factor) (sum + addend factor p) s
]

-- `luhnBase32[i]`.
unfoldable pub digit32 : ℕ → ℕ
digit32 i = elim (get_elem? luhn_base32 i) [ none ↦ 0 | some c ↦ c ]

unfoldable pub check_digit : ℕ → ℕ
check_digit sum = digit32 ((32 - sum % 32) % 32)

unfoldable pub luhn32 : Bytes → Returned ℕ
luhn32 s = do sum ← luhn_sum 1 0 s; ok (check_digit sum)

-- The rounds of `luhnify`, on groups of 13 bytes.
unfoldable pub luhnify_groups : ℕ → Bytes → Returned Bytes
luhnify_groups zero s = ok []
luhnify_groups (suc n) s = do
  l ← luhn32 (take 13 s)
  rest ← luhnify_groups n (drop 13 s)
  ok (take 13 s ++ l ∷ rest)

-- A text of another length is a panic of the code.
unfoldable pub luhnify : Bytes → Returned Bytes
unfolding luhnify_groups
luhnify s = if length s == 52 then luhnify_groups 4 s else err panic

-- `s[(i+1)*14-1] != byte(l)`.
abbrev pub check_at : Bytes → ℕ → Bool
check_at s l = elim (get_elem? s 13) [ none ↦ false | some c ↦ c == l ]

unfoldable pub unluhnify_groups : ℕ → Bytes → Returned Bytes
unluhnify_groups zero s = ok []
unluhnify_groups (suc n) s = do
  l ← luhn32 (take 13 s)
  (if check_at s l
      then (do rest ← unluhnify_groups n (drop 14 s); ok (take 13 s ++ rest))
      else err bad_check_digit)

unfoldable pub unluhnify : Bytes → Returned Bytes
unfolding unluhnify_groups
unluhnify s = if length s == 56 then unluhnify_groups 4 s else err bad_length

-- The rounds of `chunkify` behind the first group.
unfoldable pub chunkify_groups : ℕ → Bytes → Bytes
chunkify_groups zero s = []
chunkify_groups (suc n) s = b'-' ∷ (take 7 s ++ chunkify_groups n (drop 7 s))

-- With no whole group of 7 the code makes a slice of length -1, which panics.
unfoldable pub chunkify : Bytes → Returned Bytes
unfolding chunkify_groups
chunkify s =
    let chunks = length s / 7 in
    if chunks == 0 then err panic else ok (take 7 s ++ chunkify_groups (chunks - 1) (drop 7 s))

unfoldable pub unchunkify : Bytes → Bytes
unfolding remove_all
unchunkify s = remove_all b' ' (remove_all b'-' s)

unfoldable pub untypeoify : Bytes → Bytes
unfolding replace_all
untypeoify s = replace_all b'8' b'B' (replace_all b'1' b'I' (replace_all b'0' b'O' s))
