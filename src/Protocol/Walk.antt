-- ===== src/Protocol/Walk.antt =====
-- What `path.Clean`, as lib/protocol/protocol.go uses it, makes of the parts of a name.
use mathlib.Core.List.{reverse_aux}
use vidsync_app.Base.{◌≡◌, ◌⊎◌, inl, inr, refl, sym, false, List, [], ◌∷◌, All, arith, subst}
use vidsync_app.DeviceId.Text.{Bytes}
use vidsync_app.Protocol.Path.{Kind, skip, parent, plain, kind, dot_dot, step_up, walk, SlashFree}

-- Parts that stay below the folder.
abbrev pub Proper : List Bytes → Type 0
Proper = All (λ c. kind c ≡ plain)

Kind-cases : (k : Kind) → (k ≡ skip) ⊎ ((k ≡ parent) ⊎ (k ≡ plain))
Kind-cases skip = inl refl
Kind-cases parent = inr (inl refl)
Kind-cases plain = inr (inr refl)

parent-is : (c : Bytes) → kind c ≡ parent → c ≡ dot_dot
unfolding kind
parent-is [] h = absurd (ground arith)
parent-is (c ∷ []) h = absurd (ground arith)
parent-is (c ∷ (d ∷ [])) h = ground arith
parent-is (c ∷ (d ∷ (e ∷ s))) h = absurd (ground arith)

-- What the walk keeps of a name that does not start with a slash, last part first: plain parts on top
-- of "..".
unfoldable pub Shaped : List Bytes → Type 0
Shaped [] = Unit {0}
Shaped (c ∷ st) = ((kind c ≡ plain) × Shaped st) ⊎ ((c ≡ dot_dot) × All (λ d. d ≡ dot_dot) st)

abbrev Walked : List Bytes → Type 0
Walked st = Shaped st × All SlashFree st

dots-Shaped : (st : List Bytes) → All (λ d. d ≡ dot_dot) st → Shaped st
unfolding Shaped
dots-Shaped [] h = tt
dots-Shaped (d ∷ st) h = inr h

dot_dot-SlashFree : SlashFree dot_dot
dot_dot-SlashFree = ((λ e. ground arith), ((λ e. ground arith), tt))

step_up-Walked : (st : List Bytes) → Walked st → Walked (step_up false st)
unfolding step_up Shaped kind
step_up-Walked [] w = (inr (refl, tt), (dot_dot-SlashFree, tt))
step_up-Walked (c ∷ st) (inl (p, s), f) = rw (p, step_up) (s, f.1)
step_up-Walked (c ∷ st) (inr (p, s), f) =
    subst (λ d. Walked (step_up false (d ∷ st))) (sym p)
      (inr (refl, (refl, s)), (dot_dot-SlashFree, (dot_dot-SlashFree, f.1)))

pub walk-Walked : (st cs : List Bytes) → Walked st → All SlashFree cs → Walked (walk false st cs)
unfolding walk Shaped
walk-Walked st [] w h = w
walk-Walked st (c ∷ cs) w h = elim (Kind-cases (kind c)) [
  | inl k ↦ rw (k, walk) (walk-Walked st cs w h.1)
  | inr (inl k) ↦ rw (k, walk) (walk-Walked (step_up false st) cs (step_up-Walked st w) h.1)
  | inr (inr k) ↦ rw (k, walk) (walk-Walked (c ∷ st) cs (inl (k, w.0), (h.0, w.1)) h.1)
]

-- Plain parts are kept as they are.
pub walk-Proper : (st cs : List Bytes) → Proper cs → walk false st cs ≡ reverse_aux cs st
unfolding walk
walk-Proper st [] h = refl
walk-Proper st (c ∷ cs) h = rw (h.0, walk) (walk-Proper (c ∷ st) cs h.1)

pub All-reverse_aux :
    (P : Bytes → Type 0) (xs acc : List Bytes) → All P xs → All P acc → All P (reverse_aux xs acc)
All-reverse_aux P [] acc h k = k
All-reverse_aux P (x ∷ xs) acc h k = All-reverse_aux P xs (x ∷ acc) h.1 (h.0, k)

first_dots :
    (st acc : List Bytes)
    → All (λ d. d ≡ dot_dot) st
    → (cs : List Bytes) × (reverse_aux st (dot_dot ∷ acc) ≡ dot_dot ∷ cs)
first_dots [] acc h = (acc, refl)
first_dots (d ∷ st) acc h =
    subst (λ k. (cs : List Bytes) × (reverse_aux st (k ∷ (dot_dot ∷ acc)) ≡ dot_dot ∷ cs)) (sym h.0)
      (first_dots st (dot_dot ∷ acc) h.1)

-- Either all parts are plain, or the first one is a "..".
pub first_part :
    (st acc : List Bytes)
    → Shaped st
    → Proper acc
    → Proper (reverse_aux st acc) ⊎ ((cs : List Bytes) × (reverse_aux st acc ≡ dot_dot ∷ cs))
unfolding Shaped
first_part [] acc s p = inl p
first_part (c ∷ st) acc (inl (k, s)) p = first_part st (c ∷ acc) s (k, p)
first_part (c ∷ st) acc (inr (e, s)) p = inr (
    subst (λ d. (cs : List Bytes) × (reverse_aux st (d ∷ acc) ≡ dot_dot ∷ cs)) (sym e)
      (first_dots st acc s))
