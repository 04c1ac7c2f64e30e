-- ===== src/PullerState/Tests.antt =====
-- Runs of lib/model/sharedpullerstate.go, and the theorems at such inputs.
use vidsync_app.Base.{
  ◌≤◌, ◌≡◌, ◌⊎◌, refl, true, false, not, ◌&&◌, ◌||◌, List, [], ◌∷◌, none, some, if◌then◌else◌, ℤ,
  pos, ◌+ℤ◌, ◌-ℤ◌,
}
use vidsync_app.FileInfo.{FileInfo, BlockInfo, type_file}
use vidsync_app.FileInfo.Wire.{no_platform}
use vidsync_app.PullerState.{
  Closer, final_close, progress, blocks_to_size, copied_from_origin, copy_done, pull_started,
  pull_done, new_puller_state,
}
use vidsync_app.PullerState.Steps.{
  System, start, Reach, here, next, origin, copy, start_pull, finish_pull, Counted,
}
use vidsync_app.PullerState.Work.{Reach-Counted}
use vidsync_app.PullerState.Accounts.{Accounts, Reach-Accounts}
use vidsync_app.PullerState.Closing.{is_some, is_ready, closes-once, final_close_lem}

abbrev part : ℤ → BlockInfo
part offset = record { hash = 1 ∷ []; offset = offset; size = pos 131072 }

abbrev film : FileInfo
film = record {
  name = "film.mp4";
  size = pos 300000;
  modified_s = pos 100;
  modified_by = 3;
  version = [];
  sequence = pos 1;
  blocks = part (pos 0) ∷ part (pos 131072) ∷ part (pos 262144) ∷ [];
  symlink_target = [];
  blocks_hash = [];
  previous_blocks_hash = [];
  encrypted = [];
  platform = no_platform;
  type = type_file;
  permissions = 0o644;
  modified_ns = pos 0;
  raw_block_size = pos 131072;
  local_flags = 0;
  encryption_trailer_size = pos 0;
  deleted = false;
  no_permissions = false;
  truncated = false;
}

abbrev two_blocks : List BlockInfo
two_blocks = part (pos 131072) ∷ part (pos 262144) ∷ []

abbrev first : System
first = start film two_blocks (pos 0 ∷ []) (pos 7)

abbrev marked_one : System
marked_one = record first {
  state = copied_from_origin (pos 8) first.state;
  marked = 1;
  marking = 1;
}

abbrev copied_one : System
copied_one = record marked_one {
  state = copy_done (pos 9) (pos 1) marked_one.state;
  queued = 1;
  copied = 1;
  marking = 0;
}

abbrev pulling_one : System
pulling_one = record copied_one {
  state = pull_started (pos 10) copied_one.state;
  queued = 0;
  pulling = 1;
}

abbrev all_done : System
all_done = record pulling_one {
  state = pull_done (pos 11) (pos 2) pulling_one.state;
  pulling = 0;
  pulled = 1;
}

all_reached : Reach first all_done
all_reached =
    next
      (next (next (next here (origin (pos 8) 1 refl refl)) (copy (pos 9) (pos 1) 1 refl))
        (start_pull (pos 10) 0 refl refl))
      (finish_pull (pos 11) (pos 2) 0 refl)

abbrev works : Closer
works = record { opening = none; trailer = (pos 0, none); closing = none }

abbrev no_space : Closer
no_space = record { opening = some "no space left"; trailer = (pos 0, none); closing = none }

closes_done : (final_close works all_done.state).closed ≡ true
unfolding final_close copied_from_origin copy_done pull_started pull_done new_puller_state ◌+ℤ◌ ◌-ℤ◌
closes_done = refl

done_without_file :
    ((final_close no_space all_done.state).closed ≡ false)
    × ((final_close no_space all_done.state).result ≡ some "no space left")
unfolding final_close copied_from_origin copy_done pull_started pull_done new_puller_state ◌+ℤ◌ ◌-ℤ◌
done_without_file = (refl, refl)

-- Two of three blocks, the last of which has 37856 bytes, are estimated by a third of what it lacks each.
half_way : blocks_to_size (pos 2) 3 131072 (pos 300000) ≡ pos 200000
unfolding blocks_to_size ◌-ℤ◌
half_way = refl

Reach-Counted_example : Counted (pos 1) 2 all_done
Reach-Counted_example = Reach-Counted film two_blocks (pos 0 ∷ []) (pos 7) all_done all_reached

Reach-Accounts_example : Accounts 1 2 all_done (progress 131072 all_done.state)
Reach-Accounts_example =
    Reach-Accounts film two_blocks (pos 0 ∷ []) (pos 7) 131072 all_done all_reached

closes-once_example :
    (all_done.closes ≤ 1) × (all_done.closes ≡ (if all_done.state.closed then 1 else 0))
closes-once_example = closes-once film two_blocks (pos 0 ∷ []) (pos 7) all_done all_reached

final_close_lem_example :
    ((final_close no_space all_done.state).closed ≡ (
      not all_done.state.closed
      && is_ready all_done
      && (all_done.state.writer || not (is_some no_space.opening))))
    × (((final_close no_space all_done.state).closed ≡ true)
          × ((final_close no_space all_done.state).result
              ≡ (final_close no_space all_done.state).state.err)
        ⊎ ((final_close no_space all_done.state).closed ≡ false)
          × ((final_close no_space all_done.state).state ≡ all_done.state)
          × ((final_close no_space all_done.state).result ≡ (
              if not all_done.state.closed && is_ready all_done then no_space.opening else none)))
final_close_lem_example =
    final_close_lem film two_blocks (pos 0 ∷ []) (pos 7) all_done all_reached no_space
