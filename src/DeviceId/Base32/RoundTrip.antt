-- ===== src/DeviceId/Base32/RoundTrip.antt =====
-- Base 32 text that was encoded decodes to the bytes that it was made of.
use vidsync_app.Base.{
  ℕ, zero, suc, ◌+◌, ◌*◌, ◌/◌, ◌%◌, ◌≤◌, ◌<◌, ◌≡◌, ◌≢◌, refl, ap, ap₂, sym, ◌∙◌, Bool, true, false,
  not, ◌&&◌, List, [], ◌∷◌, ◌++◌, arith, ◌==◌, length, map, All, All-append, all_below,
  all_below_sound, append_assoc, append-nil,
}
use vidsync_app.DeviceId.Text.{Bytes}
use vidsync_app.DeviceId.Luhn.{Returned, ok, digit32}
use vidsync_app.DeviceId.Luhn.Check.{codepoint32-digit32}
use vidsync_app.DeviceId.Base32.{
  split5, pads, encode, join8, read_group, decode_groups, strip_newlines, decode_string,
}

abbrev pub IsByte : ℕ → Type 0
IsByte b = b < 256

abbrev pub IsDigit : ℕ → Type 0
IsDigit d = d < 32

plain : ℕ → Bool
plain i = not (digit32 i == b'=') && (not (digit32 i == b'\n') && not (digit32 i == b'\r'))

plain_table : all_below 32 plain ≡ true
unfolding plain digit32
plain_table = refl

plain-digit : (i : ℕ) → i < 32 → plain i ≡ true
plain-digit i h = all_below_sound plain i 32 plain_table h

read_step :
    (k p : ℕ) (ds s : List ℕ)
    → p < 32
    → read_group (suc k) ds (digit32 p ∷ s) ≡ read_group k (ds ++ (p ∷ [])) s
unfolding read_group plain
read_step k p ds s h = ground (arith, plain-digit p h, codepoint32-digit32 p h)

read_digits :
    (n k : ℕ) (ds xs s : List ℕ)
    → n ≡ length xs + k
    → All IsDigit xs
    → read_group n ds (map digit32 xs ++ s) ≡ read_group k (ds ++ xs) s
read_digits n k ds [] s e h = ap₂ (λ m l. read_group m l s) (e ∙ omega arith) (sym (append-nil ds))
read_digits zero k ds (x ∷ xs) s e h = absurd (omega arith)
read_digits (suc n) k ds (x ∷ xs) s e h =
    read_step n x ds (map digit32 xs ++ s) h.0
    ∙ read_digits n k (ds ++ (x ∷ [])) xs s (omega arith) h.1
    ∙ ap (λ l. read_group k l s) (append_assoc ds (x ∷ []) xs)

split5-digits :
    (a b c d e : ℕ)
    → IsByte a
    → IsByte b
    → IsByte c
    → IsByte d
    → IsByte e
    → All IsDigit (split5 a b c d e)
unfolding split5
split5-digits a b c d e ha hb hc hd he = omega arith

join8-split5 :
    (a b c d e : ℕ)
    → IsByte a
    → IsByte b
    → IsByte c
    → IsByte d
    → IsByte e
    → join8 (split5 a b c d e) ≡ ok (a ∷ b ∷ c ∷ d ∷ e ∷ [])
unfolding join8 split5
join8-split5 a b c d e ha hb hc hd he = ground arith

module _ (f c : ℕ) (s rest bs : Bytes) (ds : List ℕ) where
  more_groups :
      (tail : Bytes)
      → read_group 8 [] (c ∷ s) ≡ ok (ds, rest, false)
      → join8 ds ≡ ok bs
      → decode_groups f rest ≡ ok tail
      → decode_groups (suc f) (c ∷ s) ≡ ok (bs ++ tail)
  unfolding decode_groups
  more_groups tail h j t = rw (h, j, t)

  last_group :
      read_group 8 [] (c ∷ s) ≡ ok (ds, rest, true)
      → join8 ds ≡ ok bs
      → decode_groups (suc f) (c ∷ s) ≡ ok bs
  unfolding decode_groups
  last_group h j = rw (h, j)

read_padded :
    (n : ℕ) (xs : List ℕ) (r : Returned (List ℕ × Bytes × Bool))
    → 8 ≡ length xs + n
    → All IsDigit xs
    → read_group n xs (pads n) ≡ r
    → read_group 8 [] (map digit32 xs ++ pads n) ≡ r
read_padded n xs r e h p = read_digits 8 n [] xs (pads n) e h ∙ p

decode-encode_groups :
    (f : ℕ) (bs : Bytes)
    → length (encode bs) ≤ f
    → All IsByte bs
    → decode_groups f (encode bs) ≡ ok bs
unfolding encode split5
decode-encode_groups zero [] e h = unfold decode_groups in refl
decode-encode_groups (suc f) [] e h = unfold decode_groups in refl
decode-encode_groups zero (a ∷ []) e h = absurd (omega arith)
decode-encode_groups (suc f) (a ∷ []) e h =
    last_group f _ _ (pads 5) (a ∷ []) ((a / 8) ∷ (a % 8 * 4) ∷ [])
      (read_padded 6 ((a / 8) ∷ (a % 8 * 4) ∷ []) _ refl (omega arith) (unfold read_group in refl))
      (unfold join8 in ground arith)
decode-encode_groups zero (a ∷ b ∷ []) e h = absurd (omega arith)
decode-encode_groups (suc f) (a ∷ b ∷ []) e h =
    last_group f _ _ (pads 3) (a ∷ b ∷ [])
      ((a / 8) ∷ (a % 8 * 4 + b / 64) ∷ (b / 2 % 32) ∷ (b % 2 * 16) ∷ [])
      (read_padded 4 ((a / 8) ∷ (a % 8 * 4 + b / 64) ∷ (b / 2 % 32) ∷ (b % 2 * 16) ∷ []) _ refl
        (omega arith) (unfold read_group in refl))
      (unfold join8 in ground arith)
decode-encode_groups zero (a ∷ b ∷ c ∷ []) e h = absurd (omega arith)
decode-encode_groups (suc f) (a ∷ b ∷ c ∷ []) e h =
    last_group f _ _ (pads 2) (a ∷ b ∷ c ∷ [])
      ((a / 8) ∷ (a % 8 * 4 + b / 64) ∷ (b / 2 % 32) ∷ (b % 2 * 16 + c / 16) ∷ (c % 16 * 2) ∷ [])
      (read_padded 3
        ((a / 8) ∷ (a % 8 * 4 + b / 64) ∷ (b / 2 % 32) ∷ (b % 2 * 16 + c / 16) ∷ (c % 16 * 2) ∷ [])
        _ refl (omega arith) (unfold read_group in refl))
      (unfold join8 in ground arith)
decode-encode_groups zero (a ∷ b ∷ c ∷ d ∷ []) e h = absurd (omega arith)
decode-encode_groups (suc f) (a ∷ b ∷ c ∷ d ∷ []) e h =
    last_group f _ _ (pads 0) (a ∷ b ∷ c ∷ d ∷ [])
      ((a / 8)
        ∷ (a % 8 * 4 + b / 64)
        ∷ (b / 2 % 32)
        ∷ (b % 2 * 16 + c / 16)
        ∷ (c % 16 * 2 + d / 128)
        ∷ (d / 4 % 32)
        ∷ (d % 4 * 8)
        ∷ [])
      (read_padded 1
        ((a / 8)
          ∷ (a % 8 * 4 + b / 64)
          ∷ (b / 2 % 32)
          ∷ (b % 2 * 16 + c / 16)
          ∷ (c % 16 * 2 + d / 128)
          ∷ (d / 4 % 32)
          ∷ (d % 4 * 8)
          ∷ [])
        _ refl (omega arith) (unfold read_group in refl))
      (unfold join8 in ground arith)
decode-encode_groups zero (a ∷ b ∷ c ∷ d ∷ e ∷ bs) m h = absurd (omega arith)
decode-encode_groups (suc f) (a ∷ b ∷ c ∷ d ∷ e ∷ bs) m h =
    more_groups f _ _ (encode bs) (a ∷ b ∷ c ∷ d ∷ e ∷ []) (split5 a b c d e) bs
      (read_digits 8 0 [] (split5 a b c d e) (encode bs) refl (omega arith)
        ∙ unfold read_group in refl)
      (unfold join8 in ground arith) (decode-encode_groups f bs (omega arith) h.1.1.1.1.1)

module _ {ℓ} (P : ℕ → Type ℓ) (at : (i : ℕ) → i < 32 → P (digit32 i)) (pad : P b'=') where
  All-digits : (xs : List ℕ) → All IsDigit xs → All P (map digit32 xs)
  All-digits [] h = tt
  All-digits (x ∷ xs) h = (at x h.0, All-digits xs h.1)

  All-pads : (n : ℕ) → All P (pads n)
  All-pads zero = tt
  All-pads (suc n) = (pad, All-pads n)

  padded : (n : ℕ) (xs : List ℕ) → All IsDigit xs → All P (map digit32 xs ++ pads n)
  padded n xs h = All-append P (map digit32 xs) (pads n) (All-digits xs h) (All-pads n)

-- What holds of the alphabet and of the padding holds of every byte of encoded text.
pub encode-All {ℓ} :
    (P : ℕ → Type ℓ)
    → ((i : ℕ) → i < 32 → P (digit32 i))
    → P b'='
    → (bs : Bytes) → All IsByte bs
    → All P (encode bs)
unfolding encode split5
encode-All P at pad [] h = tt
encode-All P at pad (a ∷ []) h = padded P at pad 6 ((a / 8) ∷ (a % 8 * 4) ∷ []) (omega arith)
encode-All P at pad (a ∷ b ∷ []) h =
    padded P at pad 4 ((a / 8) ∷ (a % 8 * 4 + b / 64) ∷ (b / 2 % 32) ∷ (b % 2 * 16) ∷ [])
      (omega arith)
encode-All P at pad (a ∷ b ∷ c ∷ []) h =
    padded P at pad 3
      ((a / 8) ∷ (a % 8 * 4 + b / 64) ∷ (b / 2 % 32) ∷ (b % 2 * 16 + c / 16) ∷ (c % 16 * 2) ∷ [])
      (omega arith)
encode-All P at pad (a ∷ b ∷ c ∷ d ∷ []) h =
    padded P at pad 1
      ((a / 8)
        ∷ (a % 8 * 4 + b / 64)
        ∷ (b / 2 % 32)
        ∷ (b % 2 * 16 + c / 16)
        ∷ (c % 16 * 2 + d / 128)
        ∷ (d / 4 % 32)
        ∷ (d % 4 * 8)
        ∷ [])
      (omega arith)
encode-All P at pad (a ∷ b ∷ c ∷ d ∷ e ∷ bs) h =
    All-append P (map digit32 (split5 a b c d e)) (encode bs)
      (All-digits P at pad (split5 a b c d e) (omega arith)) (encode-All P at pad bs h.1.1.1.1.1)

abbrev NoNewline : ℕ → Type 0
NoNewline c = (c ≢ b'\n') × (c ≢ b'\r')

strip_newlines-id : (s : Bytes) → All NoNewline s → strip_newlines s ≡ s
unfolding strip_newlines
strip_newlines-id [] h = refl
strip_newlines-id (c ∷ s) h = ground (arith, strip_newlines-id s h.1)

digit-NoNewline : (i : ℕ) → i < 32 → NoNewline (digit32 i)
unfolding plain
digit-NoNewline i h = ground (arith, plain-digit i h)

-- Every string of bytes, of any length, is decoded from its base-32 text.
pub decode_string-encode : (bs : Bytes) → All IsByte bs → decode_string (encode bs) ≡ ok bs
unfolding decode_string
decode_string-encode bs h =
    let same =
      strip_newlines-id (encode bs) (encode-All NoNewline digit-NoNewline (omega arith) bs h) in
    ap (λ t. decode_groups (length t) t) same
    ∙ decode-encode_groups (length (encode bs)) bs (omega arith) h
