-- ===== src/IndexHandler/Chain.antt =====
-- The sequence numbers of the messages of lib/model/indexhandler.go, and of the files in them.
use vidsync_app.Base.{◌≡◌, refl, sym, subst, List, [], ◌∷◌, ◌++◌, arith, ℤ, pos, ◌<ℤ◌}
use vidsync_app.FileInfo.{FileInfo}
use vidsync_app.IndexHandler.Send.{Message, index, index_update, last_sequence_of}

abbrev pub prev_of : Message → ℤ
prev_of (index m) = pos 0
prev_of (index_update m) = m.prev_sequence

abbrev pub last_of : Message → ℤ
last_of (index m) = m.last_sequence
last_of (index_update m) = m.last_sequence

abbrev pub files_of : Message → List FileInfo
files_of (index m) = m.files
files_of (index_update m) = m.files

-- The sequence numbers of the files rise from above `a` up to `b`.
unfoldable pub Rising : ℤ → List FileInfo → ℤ → Type 0
Rising a [] b = a ≡ b
Rising a (f ∷ fs) b = (a <ℤ f.sequence) × Rising f.sequence fs b

-- A message that continues at the sequence number `a`: it says so, and holds at least one file.
pub record Follows (a : ℤ) (m : Message) : Type 0 where
  pub prev : prev_of m ≡ a
  pub rising : Rising a (files_of m) (last_of m)
  pub nonempty : a <ℤ last_of m

-- Each message continues where the one before it ended.
unfoldable pub Linked : ℤ → List Message → ℤ → Type 0
Linked a [] b = a ≡ b
Linked a (m ∷ ms) b = Follows a m × Linked (last_of m) ms b

pub Rising-snoc :
    (a b : ℤ) (fs : List FileInfo) (f : FileInfo)
    → Rising a fs b
    → b <ℤ f.sequence
    → Rising a (fs ++ (f ∷ [])) f.sequence
unfolding Rising
Rising-snoc a b [] f h l = (subst (λ k. k <ℤ f.sequence) (sym h) l, refl)
Rising-snoc a b (g ∷ fs) f h l = (h.0, Rising-snoc g.sequence b fs f h.1 l)

-- The last file of the batch has the sequence number that the message names.
pub Rising-last :
    (a b : ℤ) (f : FileInfo) (fs : List FileInfo)
    → Rising a (f ∷ fs) b
    → (b ≡ last_sequence_of f fs) × (a <ℤ b)
unfolding Rising last_sequence_of
Rising-last a b f [] h = (sym h.1, subst (λ k. a <ℤ k) h.1 h.0)
Rising-last a b f (g ∷ fs) h =
    let r = Rising-last f.sequence b g fs h.1 in (r.0, omega (arith, h.0, r.1))

pub Linked-snoc :
    (a b : ℤ) (ms : List Message) (m : Message)
    → Linked a ms b
    → Follows b m
    → Linked a (ms ++ (m ∷ [])) (last_of m)
unfolding Linked
Linked-snoc a b [] m h f = (subst (λ k. Follows k m) (sym h) f, refl)
Linked-snoc a b (n ∷ ms) m h f = (h.0, Linked-snoc (last_of n) b ms m h.1 f)
