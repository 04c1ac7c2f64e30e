-- ===== src/PullerState.antt =====
-- lib/model/sharedpullerstate.go: the state of one file while it is pulled, which the copier, the
-- pullers and the finisher of lib/model/folder_sendrecv.go share. Each method holds the mutex.
mod Tests
pub mod Steps
pub mod Work
pub mod Accounts
pub mod Closing
use Prim.Native.String.{String}
use vidsync_app.Base.{
  ℕ, ◌+◌, ◌*◌, ◌/◌, ◌%◌, Bool, true, false, not, ◌&&◌, ◌||◌, List, [], ◌∷◌, ◌++◌, Option, none,
  some, ◌==◌, if◌then◌else◌, length, ℤ, pos, negsuc, ◌+ℤ◌, ◌-ℤ◌, eqb_ℤ,
}
use vidsync_app.FileInfo.{FileInfo, BlockInfo}

-- Go's `error`, by its text.
abbrev pub Error : Type 0
Error = String

-- The mutable part, and what the methods read of the rest. `writer` is whether the temporary file is
-- open.
pub record PullerState : Type 0 where
  pub file : FileInfo
  pub reused : ℤ
  pub err : Option Error
  pub writer : Bool
  pub copy_total : ℤ
  pub pull_total : ℤ
  pub copy_origin : ℤ
  pub copy_needed : ℤ
  pub pull_needed : ℤ
  pub updated : ℤ
  pub closed : Bool
  pub available : List ℤ
  pub available_updated : ℤ

unfoldable pub new_puller_state : FileInfo → List BlockInfo → List ℤ → ℤ → PullerState
new_puller_state file blocks reused now = record {
  file = file;
  reused = pos (length reused);
  err = none;
  writer = false;
  copy_total = pos (length blocks);
  pull_total = pos 0;
  copy_origin = pos 0;
  copy_needed = pos (length blocks);
  pull_needed = pos 0;
  updated = now;
  closed = false;
  available = reused;
  available_updated = now;
}

-- `failLocked`, with an error that is not nil.
unfoldable pub fail_with : Error → PullerState → PullerState
fail_with e s = elim s.err [ some first ↦ s | none ↦ record s { err = some e } ]

-- What `tempFile` returns: the error, or nil with the file. The argument is how the creation of the
-- file in its directory ends, if it comes to that.
unfoldable pub temp_file : Option Error → PullerState → PullerState × Option Error
unfolding fail_with
temp_file opening s = elim s.err [
  | some e ↦ (s, some e)
  | none ↦ if s.writer then (s, none) else elim opening [
    | some e ↦ (fail_with e s, some e)
    | none ↦ (record s { writer = true }, none)
  ]
]

-- The methods that count. `block` is the block's index in the file, its offset over the block size.
unfoldable pub copy_done : ℤ → ℤ → PullerState → PullerState
copy_done now block s = record s {
  copy_needed = s.copy_needed -ℤ pos 1;
  updated = now;
  available = s.available ++ (block ∷ []);
  available_updated = now;
}

unfoldable pub copied_from_origin : ℤ → PullerState → PullerState
copied_from_origin now s = record s { copy_origin = s.copy_origin +ℤ pos 1; updated = now }

unfoldable pub skipped_sparse_block : ℤ → PullerState → PullerState
skipped_sparse_block now s = record s { copy_origin = s.copy_origin +ℤ pos 1; updated = now }

unfoldable pub pull_started : ℤ → PullerState → PullerState
pull_started now s = record s {
  copy_total = s.copy_total -ℤ pos 1;
  copy_needed = s.copy_needed -ℤ pos 1;
  pull_total = s.pull_total +ℤ pos 1;
  pull_needed = s.pull_needed +ℤ pos 1;
  updated = now;
}

unfoldable pub pull_done : ℤ → ℤ → PullerState → PullerState
pull_done now block s = record s {
  pull_needed = s.pull_needed -ℤ pos 1;
  updated = now;
  available = s.available ++ (block ∷ []);
  available_updated = now;
}

-- How the calls of `finalClose` on the file system end, if it comes to them: the creation of the
-- temporary file, the trailer of an encrypted file (its size, or the error), and the close.
pub record Closer : Type 0 where
  pub opening : Option Error
  pub trailer : ℤ × Option Error
  pub closing : Option Error

-- `err != nil && s.err == nil { s.err = err }`.
unfoldable pub keep_first : Option Error → PullerState → PullerState
unfolding fail_with
keep_first none s = s
keep_first (some e) s = fail_with e s

unfoldable pub finalize_encrypted : Closer → PullerState → PullerState
unfolding keep_first
finalize_encrypted c s = elim c.trailer.1 [
  | some e ↦ keep_first (some e) s
  | none ↦ record s {
    file = record s.file {
      size = s.file.size +ℤ c.trailer.0;
      encryption_trailer_size = c.trailer.0;
    };
  }
]

-- `len(file.Encrypted) > 0`.
abbrev pub is_encrypted : FileInfo → Bool
is_encrypted f = elim f.encrypted [ [] ↦ false | b ∷ bs ↦ true ]

-- From the trailer on.
unfoldable pub close_writer : Closer → PullerState → PullerState
unfolding finalize_encrypted keep_first
close_writer c s =
    let t = if is_encrypted s.file then finalize_encrypted c s else s in
    record (keep_first c.closing t) { writer = false; closed = true }

-- The new state, whether the file was closed, and the error.
pub record FinalClose : Type 0 where
  pub state : PullerState
  pub closed : Bool
  pub result : Option Error

unfoldable pub close_now : Closer → PullerState → FinalClose
unfolding close_writer
close_now c s = let t = close_writer c s in record { state = t; closed = true; result = t.err }

-- `s.pullNeeded+s.copyNeeded != 0 && s.err == nil`.
unfoldable pub is_pending : PullerState → Bool
is_pending s = elim s.err [
  | some e ↦ false
  | none ↦ not (eqb_ℤ (s.pull_needed +ℤ s.copy_needed) (pos 0))
]

unfoldable pub final_close : Closer → PullerState → FinalClose
unfolding is_pending close_now
final_close c s = elim (s.closed || is_pending s) [
  | true ↦ record { state = s; closed = false; result = none }
  | false ↦ if s.writer then close_now c s else elim c.opening [
    | some e ↦ record { state = s; closed = false; result = some e }
    | none ↦ close_now c (record s { writer = true })
  ]
]

-- Go's division of an `int64` by a positive number, towards 0, and the remainder.
abbrev pub quotient : ℤ → ℕ → ℤ
quotient (pos n) d = pos (n / d)
quotient (negsuc n) d = pos 0 -ℤ pos ((n + 1) / d)

abbrev pub remainder : ℤ → ℕ → ℤ
remainder (pos n) d = pos (n % d)
remainder (negsuc n) d = pos 0 -ℤ pos ((n + 1) % d)

abbrev pub times : ℤ → ℕ → ℤ
times (pos n) k = pos (n * k)
times (negsuc n) k = pos 0 -ℤ pos ((n + 1) * k)

-- The block size is positive.
unfoldable pub blocks_to_size : ℤ → ℕ → ℕ → ℤ → ℤ
blocks_to_size blocks blocks_in_file block_size file_size =
    if blocks_in_file == 0
    then pos 0
    else times blocks block_size
      -ℤ quotient
          (elim (pos block_size -ℤ remainder file_size block_size) [
            | pos k ↦ times blocks k
            | negsuc k ↦ pos 0 -ℤ times blocks (k + 1)
          ])
          blocks_in_file

pub record PullerProgress : Type 0 where
  pub total : ℤ
  pub reused : ℤ
  pub copied_from_origin : ℤ
  pub copied_from_elsewhere : ℤ
  pub pulled : ℤ
  pub pulling : ℤ
  pub bytes_done : ℤ
  pub bytes_total : ℤ

-- `block_size` is the block size of the file.
unfoldable pub progress : ℕ → PullerState → PullerProgress
unfolding blocks_to_size
progress block_size s =
    let total = s.reused +ℤ s.copy_total +ℤ s.pull_total in
    let done = total -ℤ s.copy_needed -ℤ s.pull_needed in
    let file = length s.file.blocks in
    record {
      total = total;
      reused = s.reused;
      copied_from_origin = s.copy_origin;
      copied_from_elsewhere = s.copy_total -ℤ s.copy_needed -ℤ s.copy_origin;
      pulled = s.pull_total -ℤ s.pull_needed;
      pulling = s.pull_needed;
      bytes_done = blocks_to_size done file block_size s.file.size;
      bytes_total = blocks_to_size total file block_size s.file.size;
    }
