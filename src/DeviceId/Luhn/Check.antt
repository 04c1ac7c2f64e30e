-- ===== src/DeviceId/Luhn/Check.antt =====
-- The check digit of lib/protocol/luhn.go catches every single wrong digit.
use vidsync_app.Base.{
  ℕ, ◌+◌, ◌-◌, ◌%◌, ◌<◌, ◌≡◌, ◌≢◌, refl, ap, sym, ◌∙◌, subst, Bool, true, false, ◌⊎◌, inl, inr, [],
  ◌∷◌, ◌++◌, all_below, all_below_sound, Option-cases, none, some, arith, ◌==◌,
}
use vidsync_app.DeviceId.Text.{Bytes}
use vidsync_app.DeviceId.Luhn.{
  Returned, ok, err, bad_digit, codepoint32, addend, next_factor, luhn_sum, digit32, check_digit,
  luhn32,
}

codepoint32-lt : (c p : ℕ) → codepoint32 c ≡ some p → p < 32
unfolding codepoint32
codepoint32-lt c p h = ground arith

codepoint32_inj : (a b p : ℕ) → codepoint32 a ≡ some p → codepoint32 b ≡ some p → a ≡ b
unfolding codepoint32
codepoint32_inj a b p h k = ground arith

IsFactor : ℕ → Type 0
IsFactor f = (f ≡ 1) ⊎ (f ≡ 2)

addend-lt : (f p : ℕ) → IsFactor f → p < 32 → addend f p < 32
unfolding addend IsFactor
addend-lt f p (inl e) h = rw e (omega arith)
addend-lt f p (inr e) h = rw e (omega arith)

addend_inj : (f p q : ℕ) → IsFactor f → p < 32 → q < 32 → addend f p ≡ addend f q → p ≡ q
unfolding addend IsFactor
addend_inj f p q (inl e) h k d = omega (arith, rw e at d)
addend_inj f p q (inr e) h k d = omega (arith, rw e at d)

reads_back : ℕ → Bool
reads_back i = elim (codepoint32 (digit32 i)) [ none ↦ false | some p ↦ p == i ]

digit32_table : all_below 32 reads_back ≡ true
unfolding reads_back codepoint32 digit32
digit32_table = refl

reads_back-some : (i : ℕ) → reads_back i ≡ true → codepoint32 (digit32 i) ≡ some i
unfolding reads_back
reads_back-some i e = ground arith

pub codepoint32-digit32 : (i : ℕ) → i < 32 → codepoint32 (digit32 i) ≡ some i
codepoint32-digit32 i h = reads_back-some i (all_below_sound reads_back i 32 digit32_table h)

luhn_sum-some :
    (f s c p : ℕ) (ys : Bytes)
    → codepoint32 c ≡ some p
    → luhn_sum f s (c ∷ ys) ≡ luhn_sum (next_factor f) (s + addend f p) ys
unfolding luhn_sum
luhn_sum-some f s c p ys e = rw (e, luhn_sum)

luhn_sum-none :
    (f s c : ℕ) (ys : Bytes) → codepoint32 c ≡ none → luhn_sum f s (c ∷ ys) ≡ err bad_digit
unfolding luhn_sum
luhn_sum-none f s c ys e = rw (e, luhn_sum)

luhn_sum-cons :
    (f s c m : ℕ) (ys : Bytes)
    → luhn_sum f s (c ∷ ys) ≡ ok m
    → (p : ℕ) × (codepoint32 c ≡ some p) × (luhn_sum (next_factor f) (s + addend f p) ys ≡ ok m)
luhn_sum-cons f s c m ys h = elim (Option-cases (codepoint32 c)) [
  | inl e ↦ absurd (cc (h, luhn_sum-none f s c ys e))
  | inr (p, e) ↦ (p, e, sym (luhn_sum-some f s c p ys e) ∙ h)
]

-- The sum over a text is a start plus a part that does not depend on the start.
luhn_sum-shift :
    (f s m : ℕ) (ys : Bytes)
    → luhn_sum f s ys ≡ ok m
    → (k : ℕ) × (m ≡ s + k) × ((u : ℕ) → luhn_sum f u ys ≡ ok (u + k))
luhn_sum-shift f s m [] h = unfold luhn_sum in (0, ground arith, λ u. ground arith)
luhn_sum-shift f s m (c ∷ ys) h =
    let (p, e, r) = luhn_sum-cons f s c m ys h in
    let (k, q, all) = luhn_sum-shift (next_factor f) (s + addend f p) m ys r in
    (
      addend f p + k,
      omega arith,
      λ u. luhn_sum-some f u c p ys e ∙ all (u + addend f p) ∙ ap ok (omega arith),
    )

next_factor-IsFactor : (f : ℕ) → IsFactor (next_factor f)
unfolding IsFactor
next_factor-IsFactor f = ground arith

distinct :
    (f s t a b p q k m n : ℕ)
    → IsFactor f
    → a ≢ b
    → codepoint32 a ≡ some p
    → codepoint32 b ≡ some q
    → m ≡ s + addend f p + k
    → n ≡ s + addend f q + k
    → m % 32 ≢ n % 32
distinct f s t a b p q k m n hf ne ea eb hm hn e =
    let hp = codepoint32-lt a p ea in
    let hq = codepoint32-lt b q eb in
    let same : addend f p ≡ addend f q = omega (arith, addend-lt f p hf hp, addend-lt f q hf hq) in
    let pq = addend_inj f p q hf hp hq same in ne (codepoint32_inj a b p ea (eb ∙ ap some (sym pq)))

sum_differs :
    (f s m n a b : ℕ) (xs ys : Bytes)
    → IsFactor f
    → a ≢ b
    → luhn_sum f s (xs ++ (a ∷ ys)) ≡ ok m
    → luhn_sum f s (xs ++ (b ∷ ys)) ≡ ok n
    → m % 32 ≢ n % 32
sum_differs f s m n a b [] ys hf ne h g =
    let (p, ea, ra) = luhn_sum-cons f s a m ys h in
    let (q, eb, rb) = luhn_sum-cons f s b n ys g in
    let (k, em, all) = luhn_sum-shift (next_factor f) (s + addend f p) m ys ra in
    let en : ok n ≡ ok (s + addend f q + k) = sym rb ∙ all (s + addend f q) in
    distinct f s 0 a b p q k m n hf ne ea eb em (ground arith)
sum_differs f s m n a b (c ∷ xs) ys hf ne h g =
    let (p, ea, ra) = luhn_sum-cons f s c m (xs ++ (a ∷ ys)) h in
    let (q, eb, rb) = luhn_sum-cons f s c n (xs ++ (b ∷ ys)) g in
    let pq : p ≡ q = ground (arith) in
    sum_differs (next_factor f) (s + addend f p) m n a b xs ys (next_factor-IsFactor f) ne ra
      (subst (λ x. luhn_sum (next_factor f) (s + addend f x) (xs ++ (b ∷ ys)) ≡ ok n) (sym pq) rb)

check_digit_inj : (m n : ℕ) → check_digit m ≡ check_digit n → m % 32 ≡ n % 32
unfolding check_digit
check_digit_inj m n e =
    let em = codepoint32-digit32 ((32 - m % 32) % 32) (omega arith) in
    let en = codepoint32-digit32 ((32 - n % 32) % 32) (omega arith) in
    let same : some ((32 - m % 32) % 32) ≡ some ((32 - n % 32) % 32) =
      sym em ∙ ap codepoint32 e ∙ en in
    let plain : (32 - m % 32) % 32 ≡ (32 - n % 32) % 32 = ground arith in omega arith

luhn32-ok :
    (s : Bytes) (l : ℕ) → luhn32 s ≡ ok l → (m : ℕ) × (luhn_sum 1 0 s ≡ ok m) × (l ≡ check_digit m)
luhn32-ok s l h = split (luhn_sum 1 0 s) refl
  where
    split :
        (r : Returned ℕ)
        → luhn_sum 1 0 s ≡ r
        → (m : ℕ) × (luhn_sum 1 0 s ≡ ok m) × (l ≡ check_digit m)
    split (ok m) e = (m, e, unfold luhn32 in ground arith)
    split (err x) e = absurd (unfold luhn32 in ground arith)

-- Two texts that differ in exactly one place never get the same check digit, where both get one.
pub luhn32-single_error :
    (xs ys : Bytes) (a b l k : ℕ)
    → a ≢ b
    → luhn32 (xs ++ (a ∷ ys)) ≡ ok l
    → luhn32 (xs ++ (b ∷ ys)) ≡ ok k
    → l ≢ k
luhn32-single_error xs ys a b l k ne h g e =
    let (m, hm, el) = luhn32-ok (xs ++ (a ∷ ys)) l h in
    let (n, hn, ek) = luhn32-ok (xs ++ (b ∷ ys)) k g in
    sum_differs 1 0 m n a b xs ys (unfold IsFactor in inl refl) ne hm hn
      (check_digit_inj m n (sym el ∙ e ∙ ek))
