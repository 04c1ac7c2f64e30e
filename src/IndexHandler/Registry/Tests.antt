-- ===== src/IndexHandler/Registry/Tests.antt =====
-- Runs of the registry of lib/model/indexhandler.go, and the theorems at such inputs.
use Prim.Native.String.{String}
use vidsync_app.Base.{ℕ, suc, ◌≡◌, refl, Bool, true, false, List, [], ◌∷◌, Option, none, some, pos}
use vidsync_app.DownloadState.Assoc.{lookup, store, delete}
use vidsync_app.IndexHandler.{Handler, new_index_handler, start_sequence, cleanup, pause}
use vidsync_app.IndexHandler.Receive.{Database}
use vidsync_app.IndexHandler.Registry.{
  Folder, StartInfo, Indexes, new_registry, shared_with, clean_up, finish_handler, start_locked,
  open_handler, add_index_info, folder_paused_locked, folder_running_locked, register_folder_state,
}
use vidsync_app.IndexHandler.Registry.Registered.{IsValid}
use vidsync_app.IndexHandler.Registry.History.{Call, adds, registers, call, run, run-IsValid}
use vidsync_app.IndexHandler.Registry.Order.{either_order}
use vidsync_app.IndexHandler.Registry.Agree.{Agree}
use vidsync_app.IndexHandler.Registry.Route.{receive_index, Refused, run-Refused}

abbrev folder_named : String → Bool → Folder
folder_named id paused = record {
  id = id;
  is_receive_encrypted = false;
  paused = paused;
  devices = 1 ∷ 2 ∷ [];
}

abbrev info : StartInfo
info = record {
  local = record { index_id = 7; max_sequence = pos 1 };
  remote = record { index_id = 9; max_sequence = pos 4 };
}

abbrev ap_paused : Option Handler → Option Bool
ap_paused none = none
ap_paused (some h) = some h.paused

-- The number of times that the files of the other device were dropped.
abbrev index_calls : Indexes ℕ
index_calls = record {
  local_index_id = λ k s. (s, (7, none));
  local_sequence = λ k s. (pos 5, none);
  their_index_id = λ k s. (s, (8, none));
  drop_all_files = λ k s. (suc s, none);
  set_index_id = λ k n s. (s, none);
}

abbrev history : List Call
history =
    registers (folder_named "videos" false)
    ∷ adds "videos" info
    ∷ adds "music" info
    ∷ registers (folder_named "videos" true)
    ∷ []

-- The handler of `videos` is paused behind those calls, and `music` waits.
history_ends :
    (ap_paused (lookup "videos" (run index_calls 2 history (new_registry 0)).handlers) ≡ some true)
    × (lookup "music" (run index_calls 2 history (new_registry 0)).start_infos ≡ some info)
    × ((run index_calls 2 history (new_registry 0)).db ≡ 1)
unfolding run call register_folder_state add_index_info folder_running_locked folder_paused_locked
    start_locked open_handler finish_handler clean_up new_index_handler start_sequence cleanup
    shared_with new_registry lookup store delete pause
history_ends = (refl, refl, refl)

run-IsValid_example : IsValid (run index_calls 2 history (new_registry 0))
run-IsValid_example = run-IsValid index_calls 2 history 0

either_order_example :
    Agree
      (register_folder_state index_calls 2
        (folder_named "videos" false)
        (add_index_info index_calls "videos" info (new_registry 0)))
      (add_index_info index_calls "videos" info
        (register_folder_state index_calls 2 (folder_named "videos" false) (new_registry 0)))
unfolding shared_with new_registry lookup
either_order_example =
    either_order index_calls 2 (folder_named "videos" false) info (new_registry 0) refl refl refl
      refl

-- A database with nothing in it.
abbrev no_files : Database ℕ
no_files = record {
  drop_all_files = λ s. (s, none);
  get_device_sequence = λ s. (pos 0, none);
  update = λ s fs. (s, none);
}

unregistered : lookup "videos" (run index_calls 2 history (new_registry 0)).folder_states ≡ none
unfolding run call register_folder_state add_index_info folder_running_locked folder_paused_locked
    start_locked open_handler finish_handler clean_up new_index_handler start_sequence cleanup
    shared_with new_registry lookup store delete pause
unregistered = refl

run-Refused_example : Refused "videos" none 3 (
    receive_index no_files
      (run index_calls 2 history (new_registry 0))
      "videos"
      none
      []
      true
      (pos 1)
      (pos 4)
      3)
run-Refused_example =
    run-Refused index_calls 2 history 0 no_files "videos" none [] true (pos 1) (pos 4) 3
      unregistered
