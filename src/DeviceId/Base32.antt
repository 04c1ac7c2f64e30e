-- ===== src/DeviceId/Base32.antt =====
-- Go's `base32.StdEncoding`, as lib/protocol/deviceid.go uses it.
pub mod RoundTrip
use vidsync_app.Base.{
  ℕ, zero, suc, ◌+◌, ◌-◌, ◌*◌, ◌/◌, ◌%◌, Bool, true, false, ◌&&◌, ◌||◌, List, [], ◌∷◌, ◌++◌, Option,
  none, some, ltb, leb, ◌==◌, if◌then◌else◌, length, take, replicate, map,
}
use vidsync_app.DeviceId.Text.{Bytes}
use vidsync_app.DeviceId.Luhn.{Returned, ok, err, bad_base32, ◌>>=◌, codepoint32, digit32}

-- The eight digits of five bytes.
unfoldable pub split5 : ℕ → ℕ → ℕ → ℕ → ℕ → List ℕ
split5 a b c d e =
    (a / 8)
    ∷ (a % 8 * 4 + b / 64)
    ∷ (b / 2 % 32)
    ∷ (b % 2 * 16 + c / 16)
    ∷ (c % 16 * 2 + d / 128)
    ∷ (d / 4 % 32)
    ∷ (d % 4 * 8 + e / 32)
    ∷ (e % 32)
    ∷ []

abbrev pub pads : ℕ → Bytes
pads n = replicate n b'='

-- The groups of five bytes, and what is left padded to eight digits.
unfoldable pub encode : Bytes → Bytes
unfolding split5
encode [] = []
encode (a ∷ []) = map digit32 ((a / 8) ∷ (a % 8 * 4) ∷ []) ++ pads 6
encode (a ∷ b ∷ []) =
    map digit32 ((a / 8) ∷ (a % 8 * 4 + b / 64) ∷ (b / 2 % 32) ∷ (b % 2 * 16) ∷ []) ++ pads 4
encode (a ∷ b ∷ c ∷ []) =
    map digit32
      ((a / 8) ∷ (a % 8 * 4 + b / 64) ∷ (b / 2 % 32) ∷ (b % 2 * 16 + c / 16) ∷ (c % 16 * 2) ∷ [])
    ++ pads 3
encode (a ∷ b ∷ c ∷ d ∷ []) =
    map digit32 (
      (a / 8)
      ∷ (a % 8 * 4 + b / 64)
      ∷ (b / 2 % 32)
      ∷ (b % 2 * 16 + c / 16)
      ∷ (c % 16 * 2 + d / 128)
      ∷ (d / 4 % 32)
      ∷ (d % 4 * 8)
      ∷ [])
    ++ pads 1
encode (a ∷ b ∷ c ∷ d ∷ e ∷ bs) = map digit32 (split5 a b c d e) ++ encode bs

-- The bytes of two, four, five, seven or eight digits; other numbers of digits are refused.
unfoldable pub join8 : List ℕ → Returned Bytes
join8 (p ∷ q ∷ []) = ok (((p * 8 + q / 4) % 256) ∷ [])
join8 (p ∷ q ∷ r ∷ s ∷ []) = ok (((p * 8 + q / 4) % 256) ∷ ((q * 64 + r * 2 + s / 16) % 256) ∷ [])
join8 (p ∷ q ∷ r ∷ s ∷ t ∷ []) =
    ok (((p * 8 + q / 4) % 256) ∷ ((q * 64 + r * 2 + s / 16) % 256) ∷ ((s * 16 + t / 2) % 256) ∷ [])
join8 (p ∷ q ∷ r ∷ s ∷ t ∷ u ∷ v ∷ []) = ok (
    ((p * 8 + q / 4) % 256)
    ∷ ((q * 64 + r * 2 + s / 16) % 256)
    ∷ ((s * 16 + t / 2) % 256)
    ∷ ((t * 128 + u * 4 + v / 8) % 256)
    ∷ [])
join8 (p ∷ q ∷ r ∷ s ∷ t ∷ u ∷ v ∷ w ∷ []) = ok (
    ((p * 8 + q / 4) % 256)
    ∷ ((q * 64 + r * 2 + s / 16) % 256)
    ∷ ((s * 16 + t / 2) % 256)
    ∷ ((t * 128 + u * 4 + v / 8) % 256)
    ∷ ((v * 32 + w) % 256)
    ∷ [])
join8 _ = err bad_base32

all_pads : Bytes → Bool
all_pads [] = true
all_pads (c ∷ s) = c == b'=' && all_pads s

-- One group: its digits, the text behind it, and whether padding ended the text. `k` digits are
-- still to come. Padding counts only behind two digits, with fewer than eight bytes to come, and
-- must fill the group; what stands behind it is not looked at.
unfoldable pub read_group : ℕ → List ℕ → Bytes → Returned (List ℕ × Bytes × Bool)
unfolding all_pads
read_group zero ds s = ok (ds, s, false)
read_group (suc k) ds [] = err bad_base32
read_group (suc k) ds (c ∷ s) =
    if c == b'=' && leb 2 (length ds) && ltb (length s) 8
    then (if leb k (length s) && all_pads (take k s) then ok (ds, s, true) else err bad_base32)
    else elim (codepoint32 c) [ none ↦ err bad_base32 | some p ↦ read_group k (ds ++ p ∷ []) s ]

-- The loop over the groups. Each takes eight bytes, so that the text's length is fuel enough.
unfoldable pub decode_groups : ℕ → Bytes → Returned Bytes
decode_groups zero s = ok []
decode_groups (suc f) [] = ok []
decode_groups (suc f) (c ∷ s) = do
  (ds, rest, end) ← read_group 8 [] (c ∷ s)
  bs ← join8 ds
  let more = decode_groups f rest
  (if end then ok bs else (do tail ← more; ok (bs ++ tail)))

unfoldable pub strip_newlines : Bytes → Bytes
strip_newlines [] = []
strip_newlines (c ∷ s) = if c == b'\n' || c == b'\r' then strip_newlines s else c ∷ strip_newlines s

unfoldable pub decode_string : Bytes → Returned Bytes
unfolding strip_newlines
decode_string s = let t = strip_newlines s in decode_groups (length t) t
