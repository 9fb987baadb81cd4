-- ===== src/Scenarios/Buttons.antt =====
-- A file is selected, its upload is started by the page's button, and a second start is not offered.
use gothrough.Base.{◌≡◌, refl, Bool, true, false, none, is_some, List, [], ◌∷◌, Text, codes}
use gothrough.Upload.Types.{File}
use gothrough.Queue.State.{empty_queue, refresh_file_list, pending_count}
use gothrough.Queue.Machine as Machine
use gothrough.Queue.Actions.{handle_selection, select_files}
use gothrough.Queue.Machine.{QueueEvent, selects, starts}
use gothrough.UploadPage.{controls, is_offered, step, run}
use gothrough.UploadPage.Agreement.{Agrees}
use gothrough.UploadPage.Buttons.{run-empty_Agrees, press_start-run}

abbrev notes : File
notes = record {
  name = codes "notes.txt";
  size = 5;
  last_modified = 7;
  webkit_relative_path = [];
  dropped_path = none;
}

abbrev nothing_known : Text → Bool
nothing_known key = false

abbrev one_selected : List QueueEvent
one_selected = selects (notes ∷ []) 0 ∷ []

run-empty_Agrees_example :
    Agrees (
      run nothing_known [] empty_queue
        (selects (notes ∷ []) 0 ∷ starts none 1 ∷ starts none 2 ∷ []))
run-empty_Agrees_example =
    run-empty_Agrees nothing_known [] (selects (notes ∷ []) 0 ∷ starts none 1 ∷ starts none 2 ∷ [])

selected :
    ((run nothing_known [] empty_queue one_selected).mounted ≡ true)
    × (is_offered (run nothing_known [] empty_queue one_selected) (starts none 1) ≡ true)
unfolding run step is_offered Machine.step handle_selection refresh_file_list controls select_files
    pending_count
selected = (refl, refl)

press_start-run_example :
    (is_some (run nothing_known [] empty_queue one_selected).run ≡ false)
    × (is_some
          (step nothing_known []
            (run nothing_known [] empty_queue one_selected)
            (starts none 1)).run
        ≡ true)
press_start-run_example =
    press_start-run nothing_known [] (run nothing_known [] empty_queue one_selected) none 1
      (run-empty_Agrees nothing_known [] one_selected) selected.0 selected.1
