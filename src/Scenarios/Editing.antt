-- ===== src/Scenarios/Editing.antt =====
-- A file that is edited, whose preview is then taken away.
use gothrough.Base.{none, some, List, [], ◌∷◌, length, Text, codes, Bool, false}
use gothrough.Preview.{Info, PreviewEvent, loads, edits, types, closes, mount, run}
use gothrough.Preview.Facts.{Inv}
use gothrough.Preview.Drafts.{run-mount-Inv}

abbrev knows_nothing : Text → Bool
knows_nothing _ = false

abbrev old_text : Info
old_text = record { text = codes "old"; version = some (codes "1") }

abbrev edited : List PreviewEvent
edited = loads old_text ∷ edits ∷ types (codes "new") ∷ closes ∷ []

run-mount-Inv_example :
    Inv
      (codes "a.txt")
      (run (codes "a.txt") length knows_nothing (mount (codes "a.txt") none) edited)
run-mount-Inv_example = run-mount-Inv (codes "a.txt") length knows_nothing none edited
