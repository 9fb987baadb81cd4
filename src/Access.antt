-- ===== src/Access.antt =====
-- components/AccessGate.tsx with the interceptor of services/http.ts: the login and its expiry.
pub mod Verdicts
use gothrough.Base.{
  ℕ, ◌-◌, suc, ◌≡◌, Bool, true, false, ◌&&◌, ◌||◌, not, Option, none, some, is_some, List, [], ◌∷◌,
  if◌then◌else◌, ◌==◌, ltb, Text, text_eq, is_empty, codes,
}

pub record AccessState : Type 0 where
  pub enabled : Bool
  pub authenticated : Bool

-- A failure of a request: the status and the code of its response, if it has one.
pub record RequestFailure : Type 0 where
  pub status : Option ℕ
  pub code : Text

-- `logins` counts the login requests that are awaited; `mounted` holds until the cleanup has aborted
-- the first check and removed the listener.
pub record Gate : Type 0 where
  pub access : Option AccessState
  pub password : Text
  pub error : Text
  pub busy : Bool
  pub mounted : Bool
  pub logins : ℕ

abbrev pub opening_gate : Gate
opening_gate = record {
  access = none;
  password = [];
  error = [];
  busy = false;
  mounted = true;
  logins = 0;
}

abbrev pub locked : AccessState
locked = record { enabled = true; authenticated = false }

abbrev pub is_open : Gate → Bool
is_open g = elim g.access [ none ↦ false | some a ↦ a.authenticated ]

-- The form is drawn, and its field enabled.
abbrev pub has_form : Gate → Bool
has_form g = is_some g.access && not (is_open g)

unfoldable pub lock : Gate → Gate
lock g = if g.mounted then record g { access = some locked; error = codes "auth.expired" } else g

abbrev pub has_status : ℕ → Option ℕ → Bool
has_status n none = false
has_status n (some m) = m == n

unfoldable pub is_auth_required : RequestFailure → Bool
is_auth_required f = has_status 401 f.status && text_eq f.code (codes "AUTH_REQUIRED")

-- The interceptor, which comes before the caller's own catch.
unfoldable pub intercept : RequestFailure → Gate → Gate
intercept f g = if is_auth_required f then lock g else g

-- check: `watched` is the first one, with the signal that the cleanup aborts.
abbrev pub is_ignored : Bool → Gate → Bool
is_ignored watched g = watched && not g.mounted

unfoldable pub check_succeeded : Bool → AccessState → Gate → Gate
check_succeeded watched a g =
    if is_ignored watched g then g else record g { access = some a; error = [] }

pub check_failed : Bool → RequestFailure → Gate → Gate
check_failed watched f g =
    let h = intercept f g in
    if is_ignored watched h then h else record h { error = codes "auth.unavailable" }

unfoldable pub login : Gate → Gate
login g = if g.busy then g else record g { busy = true; error = []; logins = suc g.logins }

unfoldable pub submit : Gate → Gate
submit g = if not (has_form g) || (g.busy || is_empty g.password) then g else login g

unfoldable pub type_password : Text → Gate → Gate
type_password t g = if not (has_form g) || g.busy then g else record g { password = t }

abbrev pub settle_login : Gate → Gate
settle_login g = record g { busy = false; logins = g.logins - 1 }

unfoldable pub login_succeeded : AccessState → Gate → Gate
login_succeeded a g =
    if g.logins == 0 then g else settle_login (record g { password = []; access = some a })

unfoldable pub login_error : Option ℕ → Text
login_error status =
    if has_status 401 status
    then codes "auth.invalid"
    else if has_status 429 status
    then codes "auth.rateLimited"
    else codes "auth.unavailable"

pub login_failed : RequestFailure → Gate → Gate
login_failed f g =
    let h = intercept f g in
    if g.logins == 0 then g else settle_login (record h { error = login_error f.status })

pub begin_logout : Gate → Gate
begin_logout g = if is_open g then record g { error = [] } else g

pub logout_succeeded : Gate → Gate
logout_succeeded g = record g { password = []; access = some locked }

pub logout_failed : RequestFailure → Gate → Gate
logout_failed f g = record (intercept f g) { error = codes "auth.unavailable" }

-- `other_fails` is a failure of any other request of the program.
pub data GateEvent : Type 0 where
  checked : Bool → AccessState → GateEvent
  check_fails : Bool → RequestFailure → GateEvent
  types : Text → GateEvent
  submits logs_out logged_out unmounts : GateEvent
  logged_in : AccessState → GateEvent
  login_fails logout_fails other_fails : RequestFailure → GateEvent

unfoldable pub step : Gate → GateEvent → Gate
step g (checked watched a) = check_succeeded watched a g
step g (check_fails watched f) = check_failed watched f g
step g (types t) = type_password t g
step g submits = submit g
step g logs_out = begin_logout g
step g logged_out = logout_succeeded g
step g unmounts = record g { mounted = false }
step g (logged_in a) = login_succeeded a g
step g (login_fails f) = login_failed f g
step g (logout_fails f) = logout_failed f g
step g (other_fails f) = intercept f g

unfoldable pub run : Gate → List GateEvent → Gate
run g [] = g
run g (e ∷ es) = run (step g e) es
