-- ===== src/DeviceId/Id/RoundTrip.antt =====
-- A device ID is read back from the text that it prints as.
use mathlib.Core.List.{reverse, reverse-append, reverse-reverse, reverse-cons}
use vidsync_app.Base.{
  ℕ, ◌≡◌, ◌≢◌, inl, inr, refl, ap, ap₂, sym, ◌∙◌, subst, false, [], ◌∷◌, ◌++◌, arith, length, All,
  Bool-cases, append-nil, take-all, drop-all,
}
use vidsync_app.DeviceId.Text.{
  bytes_equal, bytes_equal-eq, Bytes, replace_all, remove_all, to_upper, trim_left, trim, Lacks,
  trim_left-Lacks,
}
use vidsync_app.DeviceId.Luhn.{ok, luhnify_groups, luhnify, chunkify, unchunkify, untypeoify}
use vidsync_app.DeviceId.Luhn.RoundTrip.{unluhnify-luhnify, unchunkify-chunkify}
use vidsync_app.DeviceId.Base32.{pads}
use vidsync_app.DeviceId.Base32.RoundTrip.{decode_string-encode}
use vidsync_app.DeviceId.Id.{
  IsDeviceId, device_id_length, empty_device_id, copy_into, to_string, unmarshal_text,
}
use vidsync_app.DeviceId.Id.Printed.{
  IsAlpha, Body, encode-Body, luhnify_groups-total, IsPrinted, All-map_pred, chunkify-total,
  All-Lacks_alpha, All-Lacks, to_upper-printed, untypeoify-printed, Lacks-reverse, trim-Lacks,
}

trim_left-head : (b c : ℕ) (s : Bytes) → c ≢ b → trim_left b (c ∷ s) ≡ c ∷ s
unfolding trim_left
trim_left-head b c s h = ground arith

trim_left-pads : (s : Bytes) → trim_left b'=' (pads 4 ++ s) ≡ trim_left b'=' s
unfolding trim_left
trim_left-pads s = refl

reverse-pads : reverse (pads 4) ≡ pads 4
reverse-pads = simp reverse-cons

trim-pads : (c : ℕ) (s : Bytes) → Lacks b'=' (c ∷ s) → trim b'=' ((c ∷ s) ++ pads 4) ≡ c ∷ s
unfolding trim
trim-pads c s h =
    ap (λ t. reverse (trim_left b'=' (reverse t))) (trim_left-head b'=' c (s ++ pads 4) h.0)
    ∙ ap (λ t. reverse (trim_left b'=' t))
        (reverse-append (c ∷ s) (pads 4) ∙ ap (λ t. t ++ reverse (c ∷ s)) reverse-pads)
    ∙ ap reverse (
        trim_left-pads (reverse (c ∷ s))
        ∙ trim_left-Lacks b'=' (reverse (c ∷ s)) (Lacks-reverse b'=' (c ∷ s) h))
    ∙ reverse-reverse (c ∷ s)

trim-body : (s : Bytes) → length s ≡ 52 → All IsAlpha s → trim b'=' (s ++ pads 4) ≡ s
trim-body [] e h = absurd (omega arith)
trim-body (c ∷ s) e h =
    trim-pads c s (All-Lacks b'=' (c ∷ s) (λ d k q. omega arith) (All-map_pred (c ∷ s) h))

copy_into-full : (m bs : Bytes) → length m ≡ length bs → copy_into m bs ≡ bs
unfolding copy_into
copy_into-full m bs e =
    ap₂ (◌++◌) (take-all (length m) bs (omega arith)) (drop-all (length bs) m (omega arith))
    ∙ append-nil bs

-- The steps of `String` for an ID other than the empty one, and their results.
record Printed (n : Bytes) : Type 0 where
  plain : Body 6 n
  digits : Bytes
  luhned : luhnify plain.body ≡ ok digits
  digits_len : length digits ≡ 56
  digits_alpha : All IsAlpha digits
  text : Bytes
  chunked : chunkify digits ≡ ok text
  printed : All IsPrinted text

luhnify-groups : (s t : Bytes) → length s ≡ 52 → luhnify_groups 4 s ≡ ok t → luhnify s ≡ ok t
unfolding luhnify
luhnify-groups s t e h = ground arith

to_Printed : (n : Bytes) → IsDeviceId n → Printed n
to_Printed n v =
    let b = encode-Body 6 n (omega (arith, v.len)) v.bytes in
    let (t, e, al, len) = luhnify_groups-total 4 b.body (omega (arith, b.len)) b.alpha in
    let (u, c, p) = chunkify-total t (omega arith) al in
    record {
      plain = b;
      digits = t;
      luhned = luhnify-groups b.body t (omega (arith, b.len)) e;
      digits_len = omega arith;
      digits_alpha = al;
      text = u;
      chunked = c;
      printed = p;
    }

module _ (n m : Bytes) (v : IsDeviceId n) (len : length m ≡ device_id_length) (p : Printed n) where
  to_string-Printed : bytes_equal n empty_device_id ≡ false → to_string n ≡ ok p.text
  unfolding to_string
  to_string-Printed other =
      rw
        (other, p.plain.text, trim-body p.plain.body p.plain.len p.plain.alpha, p.luhned, p.chunked)

  cleaned : unchunkify (untypeoify (to_upper (trim b'=' p.text))) ≡ p.digits
  cleaned =
      ap (λ t. unchunkify (untypeoify (to_upper t)))
        (trim-Lacks b'=' p.text (All-Lacks b'=' p.text (λ c k e. omega arith) p.printed))
      ∙ ap (λ t. unchunkify (untypeoify t)) (to_upper-printed p.text p.printed)
      ∙ ap unchunkify (untypeoify-printed p.text p.printed)
      ∙ unchunkify-chunkify p.digits p.text (omega (arith, p.digits_len))
          (All-Lacks_alpha b'-' p.digits (λ c k e. omega arith) p.digits_alpha)
          (All-Lacks_alpha b' ' p.digits (λ c k e. omega arith) p.digits_alpha) p.chunked

  unmarshal_text-Printed : unmarshal_text m p.text ≡ ok n
  unfolding unmarshal_text
  unmarshal_text-Printed = rw (
    cleaned,
    p.digits_len,
    unluhnify-luhnify p.plain.body p.digits p.luhned,
    ← p.plain.text,
    decode_string-encode n v.bytes,
    copy_into-full m n (len ∙ sym v.len),
  )

abbrev Reads : Bytes → Bytes → Type 0
Reads m n = (t : Bytes) × (to_string n ≡ ok t) × (unmarshal_text m t ≡ ok n)

Reads-empty : (m : Bytes) → Reads m empty_device_id
Reads-empty m = (
  [],
  unfold to_string bytes_equal in refl,
  unfold unmarshal_text unchunkify remove_all untypeoify replace_all to_upper trim trim_left in
      refl,
)

-- `String` prints every device ID (it never panics), and `UnmarshalText` reads that text back as
-- the same ID, whatever the receiver held before.
pub unmarshal_text-to_string :
    (n m : Bytes)
    → IsDeviceId n
    → length m ≡ device_id_length
    → (t : Bytes) × (to_string n ≡ ok t) × (unmarshal_text m t ≡ ok n)
unmarshal_text-to_string n m v len = elim (Bool-cases (bytes_equal n empty_device_id)) [
  | inl same ↦ subst (Reads m) (sym (bytes_equal-eq n empty_device_id same)) (Reads-empty m)
  | inr other ↦
      let p = to_Printed n v in
      (p.text, to_string-Printed n m v len p other, unmarshal_text-Printed n m v len p)
]
