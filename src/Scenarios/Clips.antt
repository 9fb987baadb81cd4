-- ===== src/Scenarios/Clips.antt =====
-- Two records, of which one is removed while a poll and a late answer come.
use gothrough.Base.{◌≡◌, refl, Bool, true, false, none, some, List, [], ◌∷◌, Text, codes}
use gothrough.Remote
use gothrough.Remote.{Answer}
use gothrough.Clipboard.{
  Clip, removing, acting, Board, start_mutation, auto_refresh, BoardEvent, polls, removes, succeeds,
  list_resolves, step, run, opened,
}
use gothrough.Clipboard.Mutations.{effect, step-BoardInv}
use gothrough.Clipboard.History.{opened-BoardInv, succeeds-effect}

abbrev always : Text → Bool
always _ = true

abbrev clip : Text → Clip
clip id = record { id = id; text = codes "x"; is_image = false }

abbrev both : Answer (List Clip)
both = record { result = some (clip (codes "1") ∷ clip (codes "2") ∷ []); commit = none }

abbrev listed : Board
listed = step always opened (list_resolves 0 both)

abbrev removal : Board
removal = step always listed (removes (codes "1"))

abbrev meanwhile : List BoardEvent
meanwhile = polls ∷ list_resolves 0 both ∷ []

removal-operation : removal.operation ≡ some (acting (removing (codes "1")))
unfolding step start_mutation Remote.step Remote.mount Remote.refresh
removal-operation = refl

removal-mounted : (run always removal meanwhile).remote.mounted ≡ true
unfolding step run start_mutation auto_refresh Remote.step Remote.mount Remote.refresh
    Remote.on_resolved Remote.find_flight Remote.set_error Remote.cancel Remote.abort_flights
    Remote.announce Remote.open_request Remote.resolved Remote.finish Remote.release Remote.accept
    Remote.land
removal-mounted = refl

succeeds-effect_example :
    (step always (run always removal meanwhile) (succeeds (clip []))).remote.data'
    ≡ effect (removing (codes "1")) (clip []) removal.remote.data'
succeeds-effect_example =
    succeeds-effect always (removing (codes "1")) (clip []) removal meanwhile
      (step-BoardInv always listed (removes (codes "1"))
        (step-BoardInv always opened (list_resolves 0 both) opened-BoardInv))
      removal-operation (tt, (tt, tt)) removal-mounted
