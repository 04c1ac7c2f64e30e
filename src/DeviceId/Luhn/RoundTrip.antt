-- ===== src/DeviceId/Luhn/RoundTrip.antt =====
-- Reading back what `luhnify` and `chunkify` of lib/protocol/deviceid.go write.
use vidsync_app.Base.{
  ℕ, zero, suc, ◌-◌, ◌*◌, ◌/◌, ◌%◌, ◌≤◌, ◌≡◌, ◌≢◌, refl, ap, ap₂, sym, ◌∙◌, subst, true, [], ◌∷◌,
  ◌++◌, arith, ◌==◌, length, take, drop, length-append, length-take, length-drop, take-append-drop,
  take-at, get_elem?-at, drop-at, All-take, All-drop, Bool-cases, inl, inr,
}
use vidsync_app.DeviceId.Text.{Bytes, remove_all, Lacks, remove_all-append, remove_all-Lacks}
use vidsync_app.DeviceId.Luhn.{
  Returned, ok, err, ◌>>=◌, luhn32, luhnify_groups, luhnify, check_at, unluhnify_groups, unluhnify,
  chunkify_groups, chunkify, unchunkify,
}

-- What both calls returned where the second one came to a value.
pub both_returned {ℓ κ} :
    {W : Type κ} {V : Type ℓ} {w : W} (next : V → Returned W) (first : Returned V)
    → (first >>= next) ≡ ok w
    → (v : V) × (first ≡ ok v) × (next v ≡ ok w)
both_returned next (err failure) whole = cc
both_returned next (ok v) whole = (v, refl, whole)

-- The parts of a group that `luhnify` has written.
record Group (n : ℕ) (s t : Bytes) : Type 0 where
  digit : ℕ
  rest : Bytes
  checked : luhn32 (take 13 s) ≡ ok digit
  others : luhnify_groups n (drop 13 s) ≡ ok rest
  whole : take 13 s ++ (digit ∷ rest) ≡ t

luhnify_groups-Group : (n : ℕ) (s t : Bytes) → luhnify_groups (suc n) s ≡ ok t → Group n s t
unfolding luhnify_groups
luhnify_groups-Group n s t h =
    let (l, hl, h1) = both_returned _ (luhn32 (take 13 s)) h in
    let (rest, hr, h2) = both_returned _ (luhnify_groups n (drop 13 s)) h1 in
    record { digit = l; rest = rest; checked = hl; others = hr; whole = ground arith }

check_own : (l : ℕ) (p rest : Bytes) → length p ≡ 13 → check_at (p ++ (l ∷ rest)) l ≡ true
check_own l p rest hp = ground (arith, get_elem?-at 13 p rest l hp)

unluhnify_step :
    (n l : ℕ) (p rest r : Bytes)
    → length p ≡ 13
    → luhn32 p ≡ ok l
    → unluhnify_groups n rest ≡ ok r
    → unluhnify_groups (suc n) (p ++ (l ∷ rest)) ≡ ok (p ++ r)
unfolding unluhnify_groups
unluhnify_step n l p rest r hp hl hr =
    rw (take-at 13 p (l ∷ rest) hp, hl)
      (rw (check_own l p rest hp) (rw (drop-at 13 p rest l hp, hr)))

unluhnify-luhnify_groups :
    (n : ℕ) (s t : Bytes)
    → length s ≡ 13 * n
    → luhnify_groups n s ≡ ok t
    → (unluhnify_groups n t ≡ ok s) × (length t ≡ 14 * n)
unluhnify-luhnify_groups zero [] t e h = unfold luhnify_groups unluhnify_groups in ground arith
unluhnify-luhnify_groups zero (c ∷ s) t e h = absurd (omega arith)
unluhnify-luhnify_groups (suc n) s t e h =
    let g = luhnify_groups-Group n s t h in
    let ih =
      unluhnify-luhnify_groups n (drop 13 s) g.rest (omega (arith, length-drop 13 s)) g.others in
    let p13 : length (take 13 s) ≡ 13 = omega (arith, length-take 13 s) in
    (
      subst (λ x. unluhnify_groups (suc n) x ≡ ok s) g.whole
          (unluhnify_step n g.digit (take 13 s) g.rest (drop 13 s) p13 g.checked ih.0
            ∙ ap ok (take-append-drop 13 s)),
      omega (arith, ap length g.whole, length-append (take 13 s) (g.digit ∷ g.rest)),
    )

-- `unluhnify` gives back the text of 52 digits that `luhnify` put the check digits into.
pub unluhnify-luhnify : (s t : Bytes) → luhnify s ≡ ok t → unluhnify t ≡ ok s
unfolding luhnify unluhnify
unluhnify-luhnify s t h = elim (Bool-cases (length s == 52)) [
  | inl fits ↦
      let e : length s ≡ 13 * 4 = ground arith in
      let inner : luhnify_groups 4 s ≡ ok t = ground arith in
      let r = unluhnify-luhnify_groups 4 s t e inner in ground (arith, r.0, r.1)
  | inr other ↦ absurd (ground arith)
]

remove_all-take : (b n : ℕ) (s : Bytes) → Lacks b s → remove_all b (take n s) ≡ take n s
remove_all-take b n s h = remove_all-Lacks b (take n s) (All-take (λ c. c ≢ b) n s h)

remove_all_hit : (b : ℕ) (s : Bytes) → remove_all b (b ∷ s) ≡ remove_all b s
unfolding remove_all
remove_all_hit b s = ground arith

remove_all-chunkify_groups :
    (n : ℕ) (s : Bytes)
    → length s ≡ 7 * n
    → Lacks b'-' s
    → remove_all b'-' (chunkify_groups n s) ≡ s
unfolding chunkify_groups
remove_all-chunkify_groups zero [] e h = unfold remove_all in refl
remove_all-chunkify_groups zero (c ∷ s) e h = absurd (omega arith)
remove_all-chunkify_groups (suc n) s e h =
    remove_all_hit b'-' (take 7 s ++ chunkify_groups n (drop 7 s))
    ∙ remove_all-append b'-' (take 7 s) (chunkify_groups n (drop 7 s))
    ∙ ap₂ (◌++◌) (remove_all-take b'-' 7 s h) (
        remove_all-chunkify_groups n (drop 7 s) (omega (arith, length-drop 7 s))
          (All-drop (λ c. c ≢ b'-') 7 s h))
    ∙ take-append-drop 7 s

remove_all-chunkify :
    (s t : Bytes) → length s % 7 ≡ 0 → Lacks b'-' s → chunkify s ≡ ok t → remove_all b'-' t ≡ s
remove_all-chunkify s t e h c = elim (Bool-cases (length s / 7 == 0)) [
  | inl zero_groups ↦ absurd (unfold chunkify in ground arith)
  | inr more ↦
      let pos : 1 ≤ length s / 7 = ground arith in
      let t-eq : take 7 s ++ chunkify_groups (length s / 7 - 1) (drop 7 s) ≡ t =
        unfold chunkify in ground arith in
      ap (remove_all b'-') (sym t-eq)
      ∙ remove_all-append b'-' (take 7 s) (chunkify_groups (length s / 7 - 1) (drop 7 s))
      ∙ ap₂ (◌++◌) (remove_all-take b'-' 7 s h) (
          remove_all-chunkify_groups (length s / 7 - 1) (drop 7 s) (omega (arith, length-drop 7 s))
            (All-drop (λ c. c ≢ b'-') 7 s h))
      ∙ take-append-drop 7 s
]

-- `unchunkify` gives back a text that `chunkify` cut in groups of 7, where the text holds a whole
-- number of groups, no dash and no space.
pub unchunkify-chunkify :
    (s t : Bytes)
    → length s % 7 ≡ 0
    → Lacks b'-' s
    → Lacks b' ' s
    → chunkify s ≡ ok t
    → unchunkify t ≡ s
unfolding unchunkify
unchunkify-chunkify s t e h g c =
    ap (remove_all b' ') (remove_all-chunkify s t e h c) ∙ remove_all-Lacks b' ' s g
