-- ===== src/Preview.antt =====
-- components/FilePreview.tsx: the preview of a file, whose text can be edited and saved.
pub mod Facts
pub mod Choices
pub mod Drafts
use gothrough.Base.{
  ℕ, ◌≤◌, ◌≡◌, refl, Bool, true, false, ◌&&◌, ◌||◌, not, Option, none, some, is_some, ltb,
  if◌then◌else◌, Text, text_eq, codes, is_empty, List, [], ◌∷◌,
}
use gothrough.Messages.{Message, plain}
use gothrough.Errors.{get_error_body, api_error_descriptor}
use gothrough.Upload.Retry.{HttpError, HttpResponse}

-- What the editor reads of a FilePreviewInfo.
pub record Info : Type 0 where
  pub text : Text
  pub version : Option Text

-- EditorDraft
pub record Draft : Type 0 where
  pub name : Text
  pub info : Info
  pub text : Text

pub data Action : Type 0 where
  closing cancelling reloading_file : Action

-- `shared` is the draft of the context. `loading` is the first request; `saving` holds what the
-- save in flight sent and on which base; `gone` is set once the page has called onClose or let a
-- blocked navigation proceed, and unmounts the component.
pub record Preview : Type 0 where
  pub shared : Option Draft
  pub info : Option Info
  pub error : Message
  pub editing : Bool
  pub draft : Text
  pub saving : Option (Text × Info)
  pub reloading : Bool
  pub edit_error : Message
  pub conflict : Bool
  pub saved : Bool
  pub pending_action : Option Action
  pub blocked : Bool
  pub loading : Bool
  pub gone : Bool

-- `remember` and `discard` of EditorDraftProvider
pub remember : Draft → Option Draft
remember d = if text_eq d.text d.info.text then none else some d

unfoldable pub discard : Text → Option Draft → Option Draft
discard name none = none
discard name (some d) = if text_eq d.name name then none else some d

abbrev pub no_message : Message
no_message = plain []

abbrev pub is_text_of : Option Info → Text → Bool
is_text_of none draft = false
is_text_of (some i) draft = text_eq draft i.text

-- `dirty`
abbrev pub is_dirty : Preview → Bool
is_dirty s = s.editing && not (is_text_of s.info s.draft)

abbrev pub has_version : Option Info → Bool
has_version none = false
has_version (some i) = elim i.version [ none ↦ false | some v ↦ not (is_empty v) ]

abbrev pub is_busy : Preview → Bool
is_busy s = is_some s.saving || s.reloading

abbrev pub has_pending_action : Preview → Bool
has_pending_action s = s.blocked || is_some s.pending_action

unfoldable pub reload : Preview → Preview
reload s = if is_busy s then s else record s { reloading = true; edit_error = no_message }

-- The first request is made unless a draft of this file is restored.
pub restore : Text → Option Draft → Option Draft
restore name none = none
restore name (some d) = if text_eq d.name name then some d else none

abbrev pub fresh_preview : Option Draft → Preview
fresh_preview shared = record {
  shared = shared;
  info = none;
  error = no_message;
  editing = false;
  draft = [];
  saving = none;
  reloading = false;
  edit_error = no_message;
  conflict = false;
  saved = false;
  pending_action = none;
  blocked = false;
  loading = true;
  gone = false;
}

pub mount_restored : Option Draft → Option Draft → Preview
mount_restored shared none = fresh_preview shared
mount_restored shared (some d) = record (fresh_preview shared) {
  info = some d.info;
  editing = true;
  draft = d.text;
  loading = false;
}

unfoldable pub mount : Text → Option Draft → Preview
mount name shared = mount_restored shared (restore name shared)

-- The first request's answer.
pub on_loaded : Info → Preview → Preview
on_loaded i s = if s.loading && not s.gone then record s { info = some i; loading = false } else s

abbrev pub save_as : Info → Preview → Preview
save_as i s = record s { saving = some (s.draft, i); edit_error = no_message; saved = false }

pub save_info : Option Info → Preview → Preview
save_info none s = s
save_info (some i) s = save_as i s

-- The button that edits stands where the text is not edited.
pub edit_info : Option Info → Preview → Preview
edit_info none s = s
edit_info (some i) s =
    if s.editing || (not (has_version (some i)) || s.reloading)
    then s
    else record s { draft = i.text; editing = true; edit_error = no_message; saved = false }

module _ (name : Text) where
  pub perform_action : Action → Preview → Preview
  perform_action closing s = record s { shared = discard name s.shared; gone = true }
  perform_action reloading_file s = reload s
  perform_action cancelling s = record s {
    shared = discard name s.shared;
    editing = false;
    edit_error = no_message;
  }

  pub request_action : Action → Preview → Preview
  request_action action s =
      if is_busy s
      then s
      else if is_dirty s
      then record s { pending_action = some action }
      else perform_action action s

  pub close : Preview → Preview
  close s =
      if s.blocked
      then record s { blocked = false; pending_action = none }
      else if is_some s.pending_action
      then record s { pending_action = none }
      else request_action closing s

  pub confirm_action : Option Action → Preview → Preview
  confirm_action none s = s
  confirm_action (some action) s = perform_action action (record s { pending_action = none })

  -- The panel is disabled while the file is saved or reloaded.
  pub confirm_discard : Preview → Preview
  confirm_discard s =
      if is_busy s
      then s
      else if s.blocked
      then record s {
        shared = discard name s.shared;
        pending_action = none;
        blocked = false;
        gone = true;
      }
      else confirm_action s.pending_action s

  -- The text area's onChange
  pub type_in : Option Info → Text → Preview → Preview
  type_in none text s = record s { draft = text }
  type_in (some i) text s = record s {
    draft = text;
    shared = remember (record { name = name; info = i; text = text });
  }

  unfoldable pub type_text : Text → Preview → Preview
  type_text text s =
      if not s.editing || (is_busy s || has_pending_action s) then s else type_in s.info text s

  pub save_succeeded : Option (Text × Info) → Text → Preview → Preview
  save_succeeded none version s = s
  save_succeeded (some (text, i)) version s =
      if s.gone then record s { saving = none } else record s {
        shared = discard name s.shared;
        info = some (record { text = text; version = some version });
        editing = false;
        conflict = false;
        saved = true;
        saving = none;
      }

  pub reload_succeeded : Info → Preview → Preview
  reload_succeeded i s = if not s.reloading || s.gone then s else record s {
    shared = discard name s.shared;
    info = some i;
    draft = i.text;
    editing = false;
    conflict = false;
    saved = false;
    reloading = false;
  }

pub keep_editing : Preview → Preview
keep_editing s = record s { blocked = false; pending_action = none }

-- The effect that lets a blocked navigation go on.
pub proceed : Preview → Preview
proceed s =
    if s.blocked && (not (is_dirty s) && not (is_some s.saving))
    then record s { blocked = false; gone = true }
    else s

abbrev pub max_text_bytes : ℕ
max_text_bytes = 1048576

-- `utf8_length` is the length of the text encoder's output.
pub save : (Text → ℕ) → Preview → Preview
save utf8_length s =
    if is_busy s
      || (has_pending_action s
          || (not (is_dirty s)
              || (s.conflict
                  || (not (has_version s.info) || ltb max_text_bytes (utf8_length s.draft)))))
    then s
    else save_info s.info s

abbrev pub is_conflict : Option HttpResponse → Bool
is_conflict none = false
is_conflict (some response) = elim response.data_code [
  | none ↦ false
  | some code ↦ text_eq code (codes "TEXT_CONFLICT")
]

module _ (exists : Text → Bool) where
  pub load_failed : HttpError → Preview → Preview
  load_failed e s =
      if s.loading && not s.gone
      then record s { error = api_error_descriptor exists e; loading = false }
      else s

  pub save_failed : HttpError → Preview → Preview
  save_failed e s = if s.gone then record s { saving = none } else record s {
    edit_error = api_error_descriptor exists e;
    conflict = is_conflict (get_error_body e);
    saving = none;
  }

  pub reload_failed : HttpError → Preview → Preview
  reload_failed e s =
      if not s.reloading || s.gone
      then s
      else record s { edit_error = api_error_descriptor exists e; reloading = false }

pub data PreviewEvent : Type 0 where
  edits saves closes confirms keeps blocks proceeds unmounts : PreviewEvent
  loads reloads : Info → PreviewEvent
  types save_succeeds : Text → PreviewEvent
  requests : Action → PreviewEvent
  load_fails save_fails reload_fails : HttpError → PreviewEvent

-- The router blocks a navigation, and the page around unmounts the preview, at any time.
module _ (name : Text) (utf8_length : Text → ℕ) (exists : Text → Bool) where
  unfoldable pub step : Preview → PreviewEvent → Preview
  step s edits = edit_info s.info s
  step s saves = save utf8_length s
  step s closes = close name s
  step s confirms = confirm_discard name s
  step s keeps = keep_editing s
  step s blocks = record s { blocked = true }
  step s proceeds = proceed s
  step s unmounts = record s { gone = true }
  step s (loads i) = on_loaded i s
  step s (reloads i) = reload_succeeded name i s
  step s (types text) = type_text name text s
  step s (save_succeeds version) = save_succeeded name s.saving version s
  -- the buttons stand beside the text of the file
  step s (requests action) = if is_some s.info then request_action name action s else s
  step s (load_fails e) = load_failed exists e s
  step s (save_fails e) = save_failed exists e s
  step s (reload_fails e) = reload_failed exists e s

  unfoldable pub run : Preview → List PreviewEvent → Preview
  run s [] = s
  run s (e ∷ es) = run (step s e) es
