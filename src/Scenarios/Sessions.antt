-- ===== src/Scenarios/Sessions.antt =====
-- A session that is opened by a password, runs out, and is asked for again.
use gothrough.Base.{◌≡◌, refl, true, false, some, List, [], ◌∷◌, bit, codes}
use gothrough.Access.{
  AccessState, RequestFailure, opening_gate, locked, is_open, GateEvent, checked, types, submits,
  logged_in, other_fails, run, step, login_succeeded, submit, type_password, check_succeeded, login,
  intercept, is_auth_required, lock,
}
use gothrough.Access.Verdicts.{last_verdict, run-is_open, run-opening_IsSingle}

abbrev expired : RequestFailure
expired = record { status = some 401; code = codes "AUTH_REQUIRED" }

abbrev granted : AccessState
granted = record { enabled = true; authenticated = true }

abbrev history : List GateEvent
history =
    checked true locked
    ∷ types (codes "secret")
    ∷ submits
    ∷ submits
    ∷ logged_in granted
    ∷ other_fails expired
    ∷ types (codes "wrong")
    ∷ submits
    ∷ []

run-is_open_example :
    is_open (run opening_gate history) ≡ last_verdict opening_gate history (is_open opening_gate)
run-is_open_example = run-is_open opening_gate history

run-opening_IsSingle_example :
    (run opening_gate history).logins ≡ bit (run opening_gate history).busy
run-opening_IsSingle_example = run-opening_IsSingle history

-- It is open after the login, and closed once the session has run out.
open_then_closed :
    (is_open (
        run opening_gate
          (checked true locked ∷ types (codes "secret") ∷ submits ∷ logged_in granted ∷ []))
      ≡ true)
    × (is_open (run opening_gate history) ≡ false)
unfolding run step login_succeeded submit type_password check_succeeded login intercept
    is_auth_required lock
open_then_closed = (refl, refl)
