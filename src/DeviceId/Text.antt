-- ===== src/DeviceId/Text.antt =====
-- Text as its bytes, and what Go's `strings` package does with it.
use Prim.Native.Char.{code}
use Prim.Native.String.{String}
use mathlib.Core.List.{reverse}
use vidsync_app.Base.{
  ℕ, ◌-◌, ◌≡◌, ◌≢◌, refl, Bool, true, false, ◌&&◌, List, [], ◌∷◌, ◌++◌, leb, ◌==◌, if◌then◌else◌,
  All, arith,
}

abbrev pub Bytes : Type 0
Bytes = List ℕ

-- The bytes of an ASCII text.
abbrev pub codes : String → Bytes
codes String.[] = []
codes (String.◌∷◌ c s) = code c ∷ codes s

-- `bytes.Equal`.
unfoldable pub bytes_equal : Bytes → Bytes → Bool
bytes_equal [] [] = true
bytes_equal [] (c ∷ t) = false
bytes_equal (c ∷ s) [] = false
bytes_equal (c ∷ s) (d ∷ t) = c == d && bytes_equal s t

-- `strings.ReplaceAll(s, old, new)` for one byte each, and for an empty `new`.
unfoldable pub replace_all : ℕ → ℕ → Bytes → Bytes
replace_all old new [] = []
replace_all old new (c ∷ s) = (if c == old then new else c) ∷ replace_all old new s

unfoldable pub remove_all : ℕ → Bytes → Bytes
remove_all old [] = []
remove_all old (c ∷ s) = if c == old then remove_all old s else c ∷ remove_all old s

-- `strings.ToUpper` of an ASCII text.
unfoldable pub to_upper : Bytes → Bytes
to_upper [] = []
to_upper (c ∷ s) = (if leb b'a' c && leb c b'z' then c - 32 else c) ∷ to_upper s

unfoldable pub trim_left : ℕ → Bytes → Bytes
trim_left cut [] = []
trim_left cut (c ∷ s) = if c == cut then trim_left cut s else c ∷ s

-- `strings.Trim(s, cut)` for a cutset of one byte.
unfoldable pub trim : ℕ → Bytes → Bytes
unfolding trim_left
trim cut s = reverse (trim_left cut (reverse (trim_left cut s)))

abbrev pub Lacks : ℕ → Bytes → Type 0
Lacks b = All (λ c. c ≢ b)

pub remove_all-append :
    (b : ℕ) (s t : Bytes) → remove_all b (s ++ t) ≡ remove_all b s ++ remove_all b t
unfolding remove_all
remove_all-append b [] t = refl
remove_all-append b (c ∷ s) t = ground (arith, remove_all-append b s t)

pub remove_all-Lacks : (b : ℕ) (s : Bytes) → Lacks b s → remove_all b s ≡ s
unfolding remove_all
remove_all-Lacks b [] h = refl
remove_all-Lacks b (c ∷ s) h = ground (arith, remove_all-Lacks b s h.1)

pub replace_all-Lacks : (b n : ℕ) (s : Bytes) → Lacks b s → replace_all b n s ≡ s
unfolding replace_all
replace_all-Lacks b n [] h = refl
replace_all-Lacks b n (c ∷ s) h = ground (arith, replace_all-Lacks b n s h.1)

pub trim_left-Lacks : (b : ℕ) (s : Bytes) → Lacks b s → trim_left b s ≡ s
unfolding trim_left
trim_left-Lacks b [] h = refl
trim_left-Lacks b (c ∷ s) h = ground arith

pub bytes_equal-eq : (s t : Bytes) → bytes_equal s t ≡ true → s ≡ t
unfolding bytes_equal
bytes_equal-eq [] [] h = refl
bytes_equal-eq [] (d ∷ t) h = cc
bytes_equal-eq (c ∷ s) [] h = cc
bytes_equal-eq (c ∷ s) (d ∷ t) h = ground (arith, bytes_equal-eq s t)

pub bytes_equal_comm : (s t : Bytes) → bytes_equal s t ≡ bytes_equal t s
unfolding bytes_equal
bytes_equal_comm [] [] = refl
bytes_equal_comm [] (d ∷ t) = refl
bytes_equal_comm (c ∷ s) [] = refl
bytes_equal_comm (c ∷ s) (d ∷ t) = ground (arith, bytes_equal_comm s t)

pub bytes_equal_refl : (s : Bytes) → bytes_equal s s ≡ true
unfolding bytes_equal
bytes_equal_refl [] = refl
bytes_equal_refl (c ∷ s) = ground (arith, bytes_equal_refl s)
