-- ===== src/Protocol/Path.antt =====
-- What lib/protocol/protocol.go uses of Go's `path` and `strings` packages: `path.Clean` for text
-- whose parts stand between slashes, and `strings.HasPrefix`.
use mathlib.Core.List.{reverse}
use vidsync_app.Base.{Bool, true, false, ◌&&◌, List, [], ◌∷◌, ◌++◌, ◌==◌, if◌then◌else◌}
use vidsync_app.DeviceId.Text.{Bytes, Lacks}
use vidsync_app.Upgrade.{split}

-- What `path.Clean` does with a part: it drops empty parts and ".", and lets ".." take the part before
-- it away.
pub data Kind : Type 0 where
  skip parent plain : Kind

unfoldable pub kind : Bytes → Kind
kind [] = skip
kind (c ∷ []) = if c == b'.' then skip else plain
kind (c ∷ (d ∷ [])) = if c == b'.' && d == b'.' then parent else plain
kind (c ∷ (d ∷ (e ∷ s))) = plain

abbrev pub dot_dot : Bytes
dot_dot = b'.' ∷ b'.' ∷ []

-- A "..", with the parts before it, last one first.
unfoldable pub step_up : Bool → List Bytes → List Bytes
step_up true [] = []
step_up false [] = dot_dot ∷ []
step_up rooted (c ∷ out) = elim (kind c) [ parent ↦ dot_dot ∷ (c ∷ out) | _ ↦ out ]

unfoldable pub walk : Bool → List Bytes → List Bytes → List Bytes
unfolding kind step_up
walk rooted out [] = out
walk rooted out (c ∷ cs) = elim (kind c) [
  | skip ↦ walk rooted out cs
  | parent ↦ walk rooted (step_up rooted out) cs
  | plain ↦ walk rooted (c ∷ out) cs
]

-- `strings.Join(parts, "/")`.
unfoldable pub join : List Bytes → Bytes
join [] = []
join (c ∷ []) = c
join (c ∷ (d ∷ cs)) = c ++ (b'/' ∷ join (d ∷ cs))

abbrev pub is_rooted : Bytes → Bool
is_rooted [] = false
is_rooted (c ∷ s) = c == b'/'

-- The cleaned parts, put together again.
unfoldable pub rebuild : Bool → List Bytes → Bytes
unfolding join
rebuild true out = b'/' ∷ join out
rebuild false [] = b'.' ∷ []
rebuild false (c ∷ out) = join (c ∷ out)

unfoldable pub clean : Bytes → Bytes
unfolding walk rebuild split
clean [] = b'.' ∷ []
clean (c ∷ s) =
    rebuild (is_rooted (c ∷ s)) (reverse (walk (is_rooted (c ∷ s)) [] (split (c ∷ s) b'/')))

unfoldable pub has_prefix : Bytes → Bytes → Bool
has_prefix s [] = true
has_prefix [] (p ∷ ps) = false
has_prefix (c ∷ s) (p ∷ ps) = c == p && has_prefix s ps

abbrev pub SlashFree : Bytes → Type 0
SlashFree = Lacks b'/'
