-- ===== src/Upgrade.antt =====
-- lib/upgrade/upgrade_common.go: which of two versions of the program is newer. A version is its
-- bytes.
mod Tests
pub mod Order
pub mod Same
use vidsync_app.Base.{
  ℕ, zero, suc, ◌+◌, ◌-◌, ◌*◌, ◌^◌, Bool, true, false, not, ◌&&◌, ◌||◌, List, [], ◌∷◌, Option, none,
  some, map, ltb, leb, ◌==◌, if◌then◌else◌, length, ℤ, pos, negsuc, ltb_ℤ, eqb_ℤ,
}
use vidsync_app.DeviceId.Text.{Bytes}

pub data Relation : Type 0 where
  major_older older equal newer major_newer : Relation

-- What `strconv.Atoi` returns: a number, or the value 0 with a syntax error, or the nearest `int`
-- with a range error.
pub record Atoi : Type 0 where
  pub value : ℤ
  pub failed : Bool

abbrev is_digit : ℕ → Bool
is_digit c = leb b'0' c && leb c b'9'

-- What `strconv.ParseUint` finds: a number of 64 bits, something that is no digit, or too many
-- digits. It stops at the first of these.
pub data Scan : Type 0 where
  digits : ℕ → Scan
  bad_syntax out_of_range : Scan

abbrev scan : ℕ → Bytes → Scan
scan acc [] = digits acc
scan acc (c ∷ s) =
    let n = acc * 10 + (c - b'0') in
    let rest = scan n s in
    if not (is_digit c) then bad_syntax else if ltb n (2 ^ 64) then rest else out_of_range

abbrev int_limit : ℕ
int_limit = 2 ^ 63

-- The nearest `int` to a number outside its range.
abbrev clamped : Bool → Atoi
clamped true = record { value = negsuc (int_limit - 1); failed = true }
clamped false = record { value = pos (int_limit - 1); failed = true }

abbrev with_sign : Bool → ℕ → Atoi
with_sign true n =
    if ltb int_limit n
    then clamped true
    else record { value = if n == 0 then pos 0 else negsuc (n - 1); failed = false }
with_sign false n =
    if ltb n int_limit then record { value = pos n; failed = false } else clamped false

-- The digits behind the sign.
abbrev signed_number : Bool → Bytes → Atoi
signed_number minus [] = record { value = pos 0; failed = true }
signed_number minus (c ∷ s) = elim (scan 0 (c ∷ s)) [
  | digits n ↦ with_sign minus n
  | bad_syntax ↦ record { value = pos 0; failed = true }
  | out_of_range ↦ clamped minus
]

unfoldable pub atoi : Bytes → Atoi
atoi [] = record { value = pos 0; failed = true }
atoi (c ∷ s) =
    if c == b'-'
    then signed_number true s
    else if c == b'+'
    then signed_number false s
    else signed_number false (c ∷ s)

abbrev prepend : ℕ → List Bytes → List Bytes
prepend c [] = (c ∷ []) ∷ []
prepend c (w ∷ ws) = (c ∷ w) ∷ ws

-- `strings.Split`, for a separator of one byte.
unfoldable pub split : Bytes → ℕ → List Bytes
split [] sep = [] ∷ []
split (c ∷ s) sep = let rest = split s sep in if c == sep then [] ∷ rest else prepend c rest

-- `strings.SplitN(s, sep, 2)`: what stands before the first separator, and behind it.
unfoldable pub split_two : Bytes → ℕ → Bytes × Option Bytes
split_two [] sep = ([], none)
split_two (c ∷ s) sep =
    let (before, behind) = split_two s sep in
    if c == sep then ([], some s) else (c ∷ before, behind)

-- A part of a prerelease, an `int` or a `string`.
pub data Part : Type 0 where
  number : ℤ → Part
  text : Bytes → Part

unfoldable pub prerelease_part : Bytes → Part
prerelease_part s = if (atoi s).failed then text s else number (atoi s).value

abbrev strip_v : Bytes → Bytes
strip_v [] = []
strip_v (c ∷ s) = if c == b'v' || c == b'V' then s else c ∷ s

abbrev optional_parts : Option Bytes → List Part
optional_parts none = []
optional_parts (some s) = map prerelease_part (split s b'.')

unfoldable pub version_parts : Bytes → List ℤ × List Part
version_parts v =
    let (release, prerelease) = split_two (split_two (strip_v v) b'+').0 b'-' in
    (map (λ s. (atoi s).value) (split release b'.'), optional_parts prerelease)

-- What the first loop returns where a number is smaller, or larger. The first number is the major
-- version, of which 0 and 1 count as the same.
unfoldable pub older_by : Bool → ℤ → ℤ → Relation
older_by false a b = older
older_by true a b = if eqb_ℤ a (pos 0) && eqb_ℤ b (pos 1) then older else major_older

unfoldable pub newer_by : Bool → ℤ → ℤ → Relation
newer_by false a b = newer
newer_by true a b = if eqb_ℤ a (pos 1) && eqb_ℤ b (pos 0) then newer else major_newer

-- A round of the loop. `first` is the test `i == 0`.
unfoldable pub compare_number : Bool → ℤ → ℤ → Option Relation
unfolding older_by newer_by
compare_number first a b =
    if ltb_ℤ a b
    then some (older_by first a b)
    else if ltb_ℤ b a
    then some (newer_by first a b)
    else none

-- The loop, over what both versions have. `none` when it comes to the end.
unfoldable pub compare_release : Bool → List ℤ → List ℤ → Option Relation
unfolding compare_number
compare_release first [] ys = none
compare_release first (x ∷ xs) [] = none
compare_release first (x ∷ xs) (y ∷ ys) = elim (compare_number first x y) [
  | some r ↦ some r
  | none ↦ compare_release false xs ys
]

-- Go's `<` on strings.
unfoldable pub text_less : Bytes → Bytes → Bool
text_less [] [] = false
text_less [] (d ∷ t) = true
text_less (c ∷ s) [] = false
text_less (c ∷ s) (d ∷ t) = ltb c d || (c == d && text_less s t)

-- The `switch` of the second loop.
unfoldable pub compare_part : Part → Part → Option Relation
compare_part (number a) (number b) =
    if ltb_ℤ a b then some older else if ltb_ℤ b a then some newer else none
compare_part (number a) (text t) = some older
compare_part (text s) (number b) = some newer
compare_part (text s) (text t) =
    if text_less s t then some older else if text_less t s then some newer else none

unfoldable pub compare_prerelease : List Part → List Part → Option Relation
compare_prerelease [] qs = none
compare_prerelease (p ∷ ps) [] = none
compare_prerelease (p ∷ ps) (q ∷ qs) = elim (compare_part p q) [
  | some r ↦ some r
  | none ↦ compare_prerelease ps qs
]

-- "Longer is newer".
unfoldable pub compare_length : ℕ → ℕ → Option Relation
compare_length m n = if ltb m n then some older else if ltb n m then some newer else none

-- A prerelease is older than the release.
unfoldable pub compare_kind : ℕ → ℕ → Option Relation
compare_kind m n =
    if m == 0 && ltb 0 n then some newer else if ltb 0 m && n == 0 then some older else none

-- One test after the other, each with its own return.
abbrev pub or_else : Option Relation → Option Relation → Option Relation
or_else none next = next
or_else (some r) next = some r

abbrev or_equal : Option Relation → Relation
or_equal none = equal
or_equal (some r) = r

unfoldable pub compare_parts : List ℤ × List Part → List ℤ × List Part → Relation
compare_parts a b = or_equal (
    or_else (compare_release true a.0 b.0) (
      or_else (compare_length (length a.0) (length b.0)) (
        or_else (compare_kind (length a.1) (length b.1))
          (or_else (compare_prerelease a.1 b.1) (compare_length (length a.1) (length b.1))))))

unfoldable pub compare_versions : Bytes → Bytes → Relation
unfolding compare_parts
compare_versions a b = compare_parts (version_parts a) (version_parts b)
