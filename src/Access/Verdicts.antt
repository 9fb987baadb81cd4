-- ===== src/Access/Verdicts.antt =====
-- The last word of the server opens or closes the gate, and one login is awaited at a time.
use gothrough.Base.{
  ◌≡◌, refl, ap, ◌∙◌, Bool, false, ◌&&◌, Option, none, some, List, [], ◌∷◌, if◌then◌else◌, ◌==◌,
  bit, arith,
}
use gothrough.Access.{
  RequestFailure, Gate, opening_gate, is_open, lock, is_auth_required, intercept, is_ignored,
  check_succeeded, check_failed, login, submit, type_password, login_succeeded, login_failed,
  begin_logout, logout_succeeded, logout_failed, GateEvent, checked, check_fails, types, submits,
  logs_out, logged_out, unmounts, logged_in, login_fails, logout_fails, other_fails, step, run,
}

-- What the server says of the session by an answer that the page takes up: it is granted or not.
abbrev pub denial : RequestFailure → Gate → Option Bool
denial f g = if is_auth_required f && g.mounted then some false else none

abbrev pub verdict : Gate → GateEvent → Option Bool
verdict g (checked watched a) = if is_ignored watched g then none else some a.authenticated
verdict g (logged_in a) = if g.logins == 0 then none else some a.authenticated
verdict g logged_out = some false
verdict g (login_fails f) = if g.logins == 0 then none else denial f g
verdict g (check_fails watched f) = denial f g
verdict g (logout_fails f) = denial f g
verdict g (other_fails f) = denial f g
verdict g _ = none

abbrev pub heed : Option Bool → Bool → Bool
heed none before = before
heed (some v) before = v

-- The last verdict of a history, or `before` where there is none.
abbrev pub last_verdict : Gate → List GateEvent → Bool → Bool
last_verdict g [] before = before
last_verdict g (e ∷ es) before = last_verdict (step g e) es (heed (verdict g e) before)

intercept-is_open :
    (f : RequestFailure) (g : Gate) → is_open (intercept f g) ≡ heed (denial f g) (is_open g)
unfolding intercept lock
intercept-is_open f g = ground arith

step-is_open : (g : Gate) (e : GateEvent) → is_open (step g e) ≡ heed (verdict g e) (is_open g)
unfolding step check_succeeded check_failed type_password submit login begin_logout logout_succeeded
    login_succeeded login_failed logout_failed
step-is_open g (checked watched a) = ground arith
step-is_open g (check_fails watched f) = ground (arith, intercept-is_open f g)
step-is_open g (types t) = ground arith
step-is_open g submits = ground arith
step-is_open g logs_out = ground arith
step-is_open g logged_out = refl
step-is_open g unmounts = refl
step-is_open g (logged_in a) = ground arith
step-is_open g (login_fails f) = ground (arith, intercept-is_open f g)
step-is_open g (logout_fails f) = intercept-is_open f g
step-is_open g (other_fails f) = intercept-is_open f g

-- In every history of the gate the pages are shown exactly where the last verdict that the server
-- gave (an answer to a check or to the login that is awaited, a logout that succeeded, or a failure
-- of any request that asks for a login) granted the session.
pub run-is_open :
    (g : Gate) (es : List GateEvent) → is_open (run g es) ≡ last_verdict g es (is_open g)
unfolding run
run-is_open g [] = refl
run-is_open g (e ∷ es) =
    run-is_open (step g e) es ∙ ap (last_verdict (step g e) es) (step-is_open g e)

-- The form waits exactly while one login is awaited.
abbrev pub IsSingle : Gate → Type 0
IsSingle g = g.logins ≡ bit g.busy

intercept-IsSingle : (f : RequestFailure) (g : Gate) → IsSingle g → IsSingle (intercept f g)
unfolding intercept lock
intercept-IsSingle f g h = ground arith

step-IsSingle : (g : Gate) (e : GateEvent) → IsSingle g → IsSingle (step g e)
unfolding step check_succeeded check_failed type_password submit login begin_logout logout_succeeded
    login_succeeded login_failed logout_failed
step-IsSingle g (checked watched a) h = ground arith
step-IsSingle g (check_fails watched f) h = ground (arith, intercept-IsSingle f g h)
step-IsSingle g (types t) h = ground arith
step-IsSingle g submits h = ground arith
step-IsSingle g logs_out h = ground arith
step-IsSingle g logged_out h = h
step-IsSingle g unmounts h = h
step-IsSingle g (logged_in a) h = ground arith
step-IsSingle g (login_fails f) h = ground (arith, intercept-IsSingle f g h)
step-IsSingle g (logout_fails f) h = intercept-IsSingle f g h
step-IsSingle g (other_fails f) h = intercept-IsSingle f g h

-- In every history of the gate from its opening, the number of logins that are awaited is one while
-- the form is busy and zero otherwise, so a second one is never sent beside the first.
pub run-opening_IsSingle : (es : List GateEvent) → IsSingle (run opening_gate es)
unfolding run
run-opening_IsSingle es = run-IsSingle opening_gate es refl
  where
    run-IsSingle : (g : Gate) (rest : List GateEvent) → IsSingle g → IsSingle (run g rest)
    run-IsSingle g [] h = h
    run-IsSingle g (e ∷ rest) h = run-IsSingle (step g e) rest (step-IsSingle g e h)
