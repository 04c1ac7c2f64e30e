-- ===== src/DeviceId/Id/Printed.antt =====
-- What `String` of lib/protocol/deviceid.go prints: the alphabet of base 32 and dashes.
use mathlib.Core.List.{reverse, reverse-reverse, reverse-cons}
use vidsync_app.Base.{
  ℕ, zero, suc, ◌+◌, ◌-◌, ◌*◌, ◌/◌, ◌%◌, ◌≤◌, ◌<◌, ◌≡◌, ◌≢◌, ◌⊎◌, inl, inr, refl, ap, ◌∙◌, List, [],
  ◌∷◌, ◌++◌, some, arith, length, map, take, drop, All, All-append, All-take, All-drop,
  length-append, length-take, length-drop,
}
use vidsync_app.DeviceId.Text.{
  Bytes, replace_all, to_upper, trim_left, trim, Lacks, replace_all-Lacks, trim_left-Lacks,
}
use vidsync_app.DeviceId.Luhn.{
  ok, codepoint32, addend, next_factor, luhn_sum, digit32, check_digit, luhn32, luhnify_groups,
  chunkify_groups, chunkify, untypeoify,
}
use vidsync_app.DeviceId.Luhn.Check.{codepoint32-digit32}
use vidsync_app.DeviceId.Base32.{split5, pads, encode}
use vidsync_app.DeviceId.Base32.RoundTrip.{IsByte, IsDigit}

-- A byte of the base-32 alphabet.
abbrev pub IsAlpha : ℕ → Type 0
IsAlpha c = ((b'A' ≤ c) × (c ≤ b'Z')) ⊎ ((b'2' ≤ c) × (c ≤ b'7'))

pub digit32-IsAlpha : (i : ℕ) → i < 32 → IsAlpha (digit32 i)
digit32-IsAlpha i h = range (digit32 i) i (codepoint32-digit32 i h)
  where
    range : (c p : ℕ) → codepoint32 c ≡ some p → IsAlpha c
    range c p e = unfold codepoint32 in ground arith

pub map-digit32-IsAlpha : (xs : List ℕ) → All IsDigit xs → All IsAlpha (map digit32 xs)
map-digit32-IsAlpha [] h = tt
map-digit32-IsAlpha (x ∷ xs) h = (digit32-IsAlpha x h.0, map-digit32-IsAlpha xs h.1)

-- Encoded text of `5 * k + 2` bytes: its digits, and four pads.
pub record Body (k : ℕ) (bs : Bytes) : Type 0 where
  pub body : Bytes
  pub text : encode bs ≡ body ++ pads 4
  pub len : length body ≡ 8 * k + 4
  pub alpha : All IsAlpha body

pub encode-Body : (k : ℕ) (bs : Bytes) → length bs ≡ 5 * k + 2 → All IsByte bs → Body k bs
unfolding encode split5
encode-Body zero (a ∷ b ∷ []) e h =
    let ds = (a / 8) ∷ (a % 8 * 4 + b / 64) ∷ (b / 2 % 32) ∷ (b % 2 * 16) ∷ [] in
    record {
      body = map digit32 ds;
      text = refl;
      len = refl;
      alpha = map-digit32-IsAlpha ds (omega arith);
    }
encode-Body (suc k) (a ∷ b ∷ c ∷ d ∷ e ∷ bs) m h =
    let r = encode-Body k bs (omega arith) h.1.1.1.1.1 in
    record {
      body = map digit32 (split5 a b c d e) ++ r.body;
      text = ap (λ t. map digit32 (split5 a b c d e) ++ t) r.text;
      len = omega (arith, r.len);
      alpha =
          All-append IsAlpha (map digit32 (split5 a b c d e)) r.body
            (map-digit32-IsAlpha (split5 a b c d e) (omega arith)) r.alpha;
    }
encode-Body k bs m h = absurd (omega arith)

-- The rounds of `luhnify` all succeed on the alphabet, and write nothing else.
pub check_digit-IsAlpha : (m : ℕ) → IsAlpha (check_digit m)
unfolding check_digit
check_digit-IsAlpha m = digit32-IsAlpha ((32 - m % 32) % 32) (omega arith)

pub luhn_sum-total : (f s : ℕ) (t : Bytes) → All IsAlpha t → (m : ℕ) × (luhn_sum f s t ≡ ok m)
unfolding luhn_sum
luhn_sum-total f s [] h = (s, refl)
luhn_sum-total f s (c ∷ t) h =
    let (p, e) = digit c h.0 in
    let (m, r) = luhn_sum-total (next_factor f) (s + addend f p) t h.1 in (m, rw (e, luhn_sum) r)
  where
    digit : (d : ℕ) → IsAlpha d → (p : ℕ) × (codepoint32 d ≡ some p)
    digit d (inl r) = (d - b'A', unfold codepoint32 in ground arith)
    digit d (inr r) = (d + 26 - b'2', unfold codepoint32 in ground arith)

pub luhn32-total : (t : Bytes) → All IsAlpha t → (l : ℕ) × (luhn32 t ≡ ok l) × IsAlpha l
luhn32-total t h =
    let (m, e) = luhn_sum-total 1 0 t h in
    (check_digit m, unfold luhn32 in rw e, check_digit-IsAlpha m)

pub luhnify_groups-total :
    (n : ℕ) (s : Bytes)
    → length s ≡ 13 * n
    → All IsAlpha s
    → (t : Bytes) × (luhnify_groups n s ≡ ok t) × All IsAlpha t × (length t ≡ 14 * n)
unfolding luhnify_groups
luhnify_groups-total zero s e h = ([], refl, tt, omega arith)
luhnify_groups-total (suc n) s e h =
    let (l, el, al) = luhn32-total (take 13 s) (All-take IsAlpha 13 s h) in
    let (r, er, ar, lr) =
      luhnify_groups-total n (drop 13 s) (omega (arith, length-drop 13 s))
        (All-drop IsAlpha 13 s h) in
    (
      take 13 s ++ (l ∷ r),
      rw (el, er),
      All-append IsAlpha (take 13 s) (l ∷ r) (All-take IsAlpha 13 s h) (al, ar),
      omega (arith, length-append (take 13 s) (l ∷ r), length-take 13 s),
    )

-- The printed text: the alphabet and dashes.
abbrev pub IsPrinted : ℕ → Type 0
IsPrinted c = IsAlpha c ⊎ (c ≡ b'-')

pub All-map_pred : (s : Bytes) → All IsAlpha s → All IsPrinted s
All-map_pred [] h = tt
All-map_pred (c ∷ s) h = (inl h.0, All-map_pred s h.1)

pub chunkify_groups-IsPrinted :
    (n : ℕ) (s : Bytes) → All IsAlpha s → All IsPrinted (chunkify_groups n s)
unfolding chunkify_groups
chunkify_groups-IsPrinted zero s h = tt
chunkify_groups-IsPrinted (suc n) s h = (
  inr refl,
  All-append IsPrinted (take 7 s) (chunkify_groups n (drop 7 s))
      (All-map_pred (take 7 s) (All-take IsAlpha 7 s h))
      (chunkify_groups-IsPrinted n (drop 7 s) (All-drop IsAlpha 7 s h)),
)

pub chunkify-total :
    (s : Bytes)
    → length s ≡ 56
    → All IsAlpha s
    → (t : Bytes) × (chunkify s ≡ ok t) × All IsPrinted t
chunkify-total s e h = (
  take 7 s ++ chunkify_groups (length s / 7 - 1) (drop 7 s),
  unfold chunkify in ground arith,
  All-append IsPrinted (take 7 s) (chunkify_groups (length s / 7 - 1) (drop 7 s))
      (All-map_pred (take 7 s) (All-take IsAlpha 7 s h))
      (chunkify_groups-IsPrinted (length s / 7 - 1) (drop 7 s) (All-drop IsAlpha 7 s h)),
)

pub All-Lacks_alpha :
    (b : ℕ) (s : Bytes) → ((c : ℕ) → IsAlpha c → c ≢ b) → All IsAlpha s → Lacks b s
All-Lacks_alpha b [] f h = tt
All-Lacks_alpha b (c ∷ s) f h = (f c h.0, All-Lacks_alpha b s f h.1)

-- What `UnmarshalText` does to its text first leaves printed text alone.
pub All-Lacks : (b : ℕ) (s : Bytes) → ((c : ℕ) → IsPrinted c → c ≢ b) → All IsPrinted s → Lacks b s
All-Lacks b [] f h = tt
All-Lacks b (c ∷ s) f h = (f c h.0, All-Lacks b s f h.1)

pub to_upper-printed : (s : Bytes) → All IsPrinted s → to_upper s ≡ s
unfolding to_upper
to_upper-printed [] h = refl
to_upper-printed (c ∷ s) h = ground (arith, to_upper-printed s h.1)

pub untypeoify-printed : (s : Bytes) → All IsPrinted s → untypeoify s ≡ s
unfolding untypeoify
untypeoify-printed s h =
    ap (λ t. replace_all b'8' b'B' (replace_all b'1' b'I' t))
      (replace_all-Lacks b'0' b'O' s (All-Lacks b'0' s (λ c k e. omega arith) h))
    ∙ ap (replace_all b'8' b'B')
        (replace_all-Lacks b'1' b'I' s (All-Lacks b'1' s (λ c k e. omega arith) h))
    ∙ replace_all-Lacks b'8' b'B' s (All-Lacks b'8' s (λ c k e. omega arith) h)

pub Lacks-reverse : (b : ℕ) (s : Bytes) → Lacks b s → Lacks b (reverse s)
Lacks-reverse b [] h = tt
Lacks-reverse b (c ∷ s) h =
    rw (reverse-cons c s)
      (All-append (λ x. x ≢ b) (reverse s) (c ∷ []) (Lacks-reverse b s h.1) (h.0, tt))

pub trim-Lacks : (b : ℕ) (s : Bytes) → Lacks b s → trim b s ≡ s
unfolding trim
trim-Lacks b s h =
    ap (λ t. reverse (trim_left b (reverse t))) (trim_left-Lacks b s h)
    ∙ ap reverse (trim_left-Lacks b (reverse s) (Lacks-reverse b s h))
    ∙ reverse-reverse s
