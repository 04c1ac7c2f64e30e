-- ===== src/FileInfo/Conflict.antt =====
-- Who wins a conflict, of lib/protocol/bep_fileinfo.go.
use vidsync_app.Base.{ℕ, ◌+◌, ◌<◌, ◌≡◌, refl, true, false, not, arith, pos, []}
use vidsync_app.Vector.{
  u64_mod, counter, compare, Ordering, equal, greater, lesser, concurrent_lesser,
  concurrent_greater, concurrent, is_concurrent, greater_equal,
}
use vidsync_app.Vector.Flip.{flip, compare-flip}
use vidsync_app.Vector.Sorted.{IsSorted}
use vidsync_app.Vector.Update.{compare-update}
use vidsync_app.FileInfo.{
  FileInfo, wins_conflict, is_concurrent_greater, in_conflict_with, set_deleted, file_size,
}

tie :
    (o : Ordering)
    → is_concurrent o ≡ true
    → is_concurrent_greater o ≡ not (is_concurrent_greater (flip o))
unfolding flip
tie equal h = cc
tie greater h = cc
tie lesser h = cc
tie concurrent_lesser h = refl
tie concurrent_greater h = refl

-- Of two files whose versions are concurrent, exactly one wins: both devices choose the same one.
pub wins_conflict-one :
    (f g : FileInfo)
    → concurrent f.version g.version ≡ true
    → wins_conflict f g ≡ not (wins_conflict g f)
unfolding wins_conflict concurrent
wins_conflict-one f g h =
    let t = tie (compare f.version g.version) h in
    ground (arith, t, compare-flip f.version g.version)

-- Deleting a file makes a version that is not in conflict with the one it was made from, and leaves
-- a file of size 0 with no blocks, where the counters of the version are in the order of their IDs and
-- the device's counter has not reached the largest `uint64`.
pub set_deleted_lem :
    (f : FileInfo) (by now : ℕ)
    → IsSorted f.version
    → counter f.version by + 1 < u64_mod
    → (in_conflict_with (set_deleted f by now) f ≡ false)
      × (compare (set_deleted f by now).version f.version ≡ greater)
      × (file_size (set_deleted f by now) ≡ pos 0)
      × ((set_deleted f by now).blocks ≡ [])
set_deleted_lem f by now s h =
    let newer = compare-update f.version by now s h in
    (
      unfold in_conflict_with set_deleted greater_equal in ground (arith, newer),
      unfold set_deleted in newer,
      unfold file_size set_deleted in refl,
      unfold set_deleted in refl,
    )
