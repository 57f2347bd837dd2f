-- ===== src/Tests/Changed.antt =====
-- The listener of the files, on small inputs.
use mcshub.Base.{◌≡◌, refl, true, false, none, some, List, [], ◌∷◌, pos, str, text_eq}
use mcshub.Base.Map.{find}
use mcshub.Exec.{ok}
use mcshub.ProgArgs.{Arguments, initial_arguments}
use mcshub.Settings.Listener.{
  srv_conf, main_dir, no_mask, file_mask, before_last, Event, Snapshot, Listening, on_change,
  on_files,
}
use mcshub.Settings.Listener.Alone.{Concerns, file, SameFor, on_change-SameFor}
use mcshub.Settings.Listener.Kept.{on_files-IsSafe}
use mcshub.Settings.Listener.Order.{removed, created, on_files_recreated}
use mcshub.Settings.Safe.{IsSafe}
use mcshub.Tests.Documents.{Document, empty, documents}
use mcshub.Tests.Portals.{test_conf}
use mcshub.Tests.Units.{arguments, test_conf_domain}
use mcshub.Tests.Hub.{no_files}

abbrev pub snapshot : Snapshot Document
snapshot = record { files = no_files; parse = λ path. some empty; is_directory = λ name. some true }

on_files-IsSafe_example :
    IsSafe
      (on_files documents arguments
        (λ l. pos 4)
        8
        test_conf
        ((removed (str "play"), snapshot) ∷ (created (str "play"), snapshot) ∷ [])
        (test_conf, [])).1.0
on_files-IsSafe_example =
    on_files-IsSafe documents arguments (λ l. pos 4) 8 test_conf (test_conf_domain, tt)
      ((removed (str "play"), snapshot) ∷ (created (str "play"), snapshot) ∷ []) test_conf []
      (test_conf_domain, tt)

abbrev written_file : Event
written_file = record {
  category = srv_conf;
  path = str "." ∷ str "play" ∷ str "mcshub.yml" ∷ [];
  subject = [];
  mask = file_mask;
}

written_Concerns : Concerns written_file (str "play")
unfolding before_last
written_Concerns = file refl refl

abbrev listening : Listening
listening = record { new_conf = test_conf; calls = [] }

on_change-SameFor_example :
    SameFor
      (str "lobby")
      test_conf
      (on_change documents arguments
        (λ l. pos 4)
        8
        test_conf
        test_conf
        (written_file, snapshot)
        listening).1.new_conf
on_change-SameFor_example =
    on_change-SameFor documents arguments (λ l. pos 4) 8 test_conf test_conf written_file snapshot
      (str "play") (str "lobby") listening written_Concerns (λ e. cc)

abbrev mcsman_arguments : Arguments
mcsman_arguments = record arguments { mcsman = true }

play_apart : text_eq (str "play") (str "default") ≡ false
unfolding text_eq
play_apart = refl

play_no_file : text_eq (str "play") mcsman_arguments.confname ≡ false
unfolding text_eq initial_arguments
play_no_file = refl

-- What the removal of the directory tells beside its own event.
abbrev parent_told : Event
parent_told = record {
  category = main_dir;
  path = str "." ∷ [];
  subject = str "play";
  mask = record no_mask { in_delete = true };
}

abbrev batch : List (Event × Snapshot Document)
batch =
    (removed (str "play"), snapshot)
    ∷ (parent_told, snapshot)
    ∷ (created (str "play"), snapshot)
    ∷ []

on_files_recreated_example :
    ((on_files documents mcsman_arguments (λ l. pos 4) 8 test_conf batch (test_conf, [])).0 ≡ ok tt)
    × (find
          (str "play")
          (on_files documents mcsman_arguments
            (λ l. pos 4)
            8
            test_conf
            batch
            (test_conf, [])).1.0.servers
        ≡ none)
on_files_recreated_example =
    on_files_recreated documents mcsman_arguments refl (λ l. pos 4) 8 test_conf (str "play")
      snapshot snapshot test_conf [] [] ((parent_told, snapshot) ∷ []) tt
      ((refl, refl, refl, refl, refl, λ e. cc e), tt) refl play_apart play_no_file
