-- ===== src/IndexHandler/Tests.antt =====
-- Runs of lib/model/indexhandler.go, and the theorems at such inputs.
use vidsync_app.Base.{
  ℕ, ◌≤◌, ◌≡◌, refl, subst, Bool, true, false, List, [], ◌∷◌, none, arith, ℤ, pos, ◌≤ℤ◌, ◌+ℤ◌, All,
  length, map,
}
use vidsync_app.FileInfo.{FileInfo, type_file, is_receive_only_changed, has_flag}
use vidsync_app.FileInfo.Wire.{no_platform, to_wire}
use vidsync_app.IndexHandler.{Handler, Announced, new_index_handler, start_sequence}
use vidsync_app.IndexHandler.Batch.{append, full, flush}
use vidsync_app.IndexHandler.Send.{
  fetched, Message, index_update, Outside, send_index_to, send_loop, send_flush, scan_rows, round,
  must_stop, is_out_of_order, add_file, is_withheld, prepare_file_info_for_index, send_batch,
  message_for, last_sequence_of, returned,
}
use vidsync_app.IndexHandler.Chain.{Linked, files_of}
use vidsync_app.IndexHandler.Linked.{Reach, begin, send, Reach-Linked}
use vidsync_app.IndexHandler.Every.{Reach-Bounded, Reach-Safe, Announceable}
use vidsync_app.IndexHandler.Complete.{Completed, send_index_to-Completed}
use vidsync_app.IndexHandler.Receive.{Database}

abbrev clip : ℤ → ℕ → Bool → FileInfo
clip sequence flags deleted = record {
  name = "clip.mp4";
  size = pos 10;
  modified_s = pos 100;
  modified_by = 3;
  version = record { id = 3; value = 5 } ∷ [];
  sequence = sequence;
  blocks = [];
  symlink_target = [];
  blocks_hash = [];
  previous_blocks_hash = [];
  encrypted = [];
  platform = no_platform;
  type = type_file;
  permissions = 0o644;
  modified_ns = pos 0;
  raw_block_size = pos 131072;
  local_flags = flags;
  encryption_trailer_size = pos 4;
  deleted = deleted;
  no_permissions = false;
  truncated = false;
}

-- One file that was changed locally, and two others, the last of them deleted.
abbrev three_rows : List FileInfo
three_rows = clip (pos 2) 8 false ∷ clip (pos 3) 0 false ∷ clip (pos 5) 0 true ∷ []

abbrev outside : Outside
outside = record {
  rows = λ start limit. three_rows;
  row_err = none;
  ctx_err = none;
  conn = λ sent m. none;
}

abbrev knows_one : Announced
knows_one = record { index_id = 7; max_sequence = pos 1 }

abbrev start_handler : Handler
start_handler = (new_index_handler "videos" true 7 (pos 5) 9 knows_one knows_one).0

abbrev sent_files : List FileInfo
sent_files = map prepare_file_info_for_index (clip (pos 3) 0 false ∷ clip (pos 5) 0 true ∷ [])

abbrev update_message : Message
update_message =
    index_update (record {
      folder = "videos";
      files = sent_files;
      last_sequence = pos 5;
      prev_sequence = pos 1;
    })

abbrev after_send : Handler
after_send = record {
  folder = "videos";
  folder_is_receive_encrypted = true;
  local_prev_sequence = pos 5;
  sent_prev_sequence = pos 5;
  paused = false;
}

sends :
    send_index_to (λ w. 10) outside start_handler []
    ≡ ((after_send, update_message ∷ []), returned none)
unfolding new_index_handler start_sequence send_index_to send_loop send_flush scan_rows round
    must_stop is_out_of_order add_file is_withheld append full flush send_batch message_for
    last_sequence_of prepare_file_info_for_index to_wire ◌+ℤ◌ is_receive_only_changed has_flag
sends = refl

sent_once : Reach (λ w. 10) start_handler after_send (update_message ∷ [])
sent_once = subst (λ r. Reach (λ w. 10) start_handler r.0.0 r.0.1) sends (send outside begin)

Reach-Linked_example :
    Linked (start_sequence 7 (pos 5) knows_one) (update_message ∷ []) (pos 5) × (pos 5 ≤ℤ pos 5)
Reach-Linked_example =
    Reach-Linked (λ w. 10) "videos" true 7 9 (pos 5) knows_one knows_one after_send
      (update_message ∷ []) (omega arith) sent_once

Reach-Bounded_example : All (λ m. length (files_of m) ≤ 1001) (update_message ∷ [])
Reach-Bounded_example =
    Reach-Bounded (λ w. 10) start_handler after_send (update_message ∷ []) sent_once

start_encrypted : start_handler.folder_is_receive_encrypted ≡ true
unfolding new_index_handler
start_encrypted = refl

Reach-Safe_example : All (λ m. Announceable (files_of m)) (update_message ∷ [])
Reach-Safe_example =
    Reach-Safe (λ w. 10) start_handler after_send (update_message ∷ []) start_encrypted sent_once

send_index_to-Completed_example :
    Completed start_handler [] (fetched outside start_handler) after_send (update_message ∷ [])
send_index_to-Completed_example =
    send_index_to-Completed (λ w. 10) outside start_handler after_send [] (update_message ∷ [])
      sends

-- A database that keeps the sequence number only.
abbrev last_number : ℤ → List FileInfo → ℤ
last_number a [] = a
last_number a (f ∷ fs) = last_number f.sequence fs

abbrev numbers : Database ℤ
numbers = record {
  drop_all_files = λ s. (pos 0, none);
  get_device_sequence = λ s. (s, none);
  update = λ s fs. (last_number s fs, none);
}
