-- ===== src/Clipboard.antt =====
-- pages/Clipboard/ClipboardPage.tsx: publishing, removing and clearing records, one at a time, and
-- copying them.
pub mod Mutations
pub mod Meanwhile
pub mod History
use gothrough.Base.{
  ℕ, ◌*◌, ◌≡◌, refl, Bool, true, false, ◌&&◌, ◌||◌, not, Option, none, some, is_some, List, [], ◌∷◌,
  keep, take, if◌then◌else◌, ltb, Text, text_eq, codes,
}
use gothrough.Messages.{Message, plain, message, end}
use gothrough.Remote
use gothrough.Remote.{
  Remote, Answer, RemoteEvent, resolves, rejects, initial, mount, set_error, cancel,
  cancel_background, refresh, find_flight, on_resolved, on_rejected,
}

-- What the page reads of a ClipboardEntry.
pub record Clip : Type 0 where
  pub id : Text
  pub text : Text
  pub is_image : Bool

-- What the page reads of an image file, and of ClipboardImageSettings.
pub record ImageFile : Type 0 where
  pub kind : Text
  pub size : ℕ

pub record ImageSettings : Type 0 where
  pub enabled : Bool
  pub max_size_mb : ℕ

pub data Mutation : Type 0 where
  publishing publishing_image clearing : Mutation
  removing : Text → Mutation

-- `operation.current` is held while the action is awaited, and then while the list is reloaded.
pub data Operation : Type 0 where
  acting : Mutation → Operation
  reloading : Operation

pub record Board : Type 0 where
  pub remote : Remote (List Clip)
  pub operation : Option Operation
  pub busy : Bool
  pub notice : Message
  pub text : Text
  pub confirming : Option Text
  pub confirming_all : Bool
  pub manual_copy : Option Clip
  pub previewing : Option Clip
  pub copy_in_progress : Option Clip
  pub copying : Bool
  pub image_file : Option ImageFile
  pub image_settings : Remote (Option ImageSettings)

-- runMutation up to the await of its action
unfoldable pub start_mutation : Mutation → Board → Board
start_mutation m b = if is_some b.operation then b else record b {
  remote = set_error (plain []) (cancel b.remote);
  operation = some (acting m);
  busy = true;
  notice = plain [];
}

abbrev pub drop_copy : Text → Option Clip → Option Clip
drop_copy id none = none
drop_copy id (some clip) = if text_eq clip.id id then none else some clip

abbrev pub without : Text → List Clip → List Clip
without id = keep (λ (clip : Clip). not (text_eq clip.id id))

abbrev pub put_entries : (List Clip → List Clip) → Board → Board
put_entries f b = record b { remote = record b.remote { data' = f b.remote.data' } }

-- CLIPBOARD_MAX_ENTRIES
abbrev pub max_entries : ℕ
max_entries = 100

-- The onSuccess of each; `clip` is the record that the server has made of a text or an image.
pub on_success : Mutation → Clip → Board → Board
on_success publishing clip b = record (put_entries (λ clips. take max_entries (clip ∷ clips)) b) {
  text = [];
}
on_success publishing_image clip b =
    record (put_entries (λ clips. take max_entries (clip ∷ clips)) b) { image_file = none }
on_success (removing id) clip b = record (put_entries (without id) b) {
  confirming = none;
  confirming_all = false;
  manual_copy = drop_copy id b.manual_copy;
}
on_success clearing clip b = record (put_entries (λ _. []) b) {
  confirming = none;
  confirming_all = false;
  manual_copy = none;
}

abbrev pub success_message : Mutation → Message
success_message publishing = message (codes "文本已发布。") end
success_message publishing_image = message (codes "图片已发布。") end
success_message (removing id) = message (codes "记录已删除。") end
success_message clearing = message (codes "全部记录已删除。") end

-- refresh of the page
abbrev pub reload : Board → Board
reload b = record b { confirming_all = false; remote = refresh false b.remote }

abbrev pub forget_validator : Board → Board
forget_validator b = record b { remote = record b.remote { validator = none } }

-- The action has resolved, up to the await of the reload; or the page is gone.
pub mutation_done : Option Operation → Clip → Board → Board
mutation_done (some (acting m)) clip b =
    if b.remote.mounted
    then record (reload
        (record (on_success m clip (forget_validator b)) { notice = success_message m })) {
          operation = some reloading;
        }
    else record b { operation = none }
mutation_done _ clip b = b

-- The finally block
abbrev pub release_operation : Board → Board
release_operation b = record b {
  operation = none;
  busy = if b.remote.mounted then false else b.busy;
}

pub mutation_failed : Option Operation → Message → Board → Board
mutation_failed (some (acting m)) failure b =
    release_operation
      (if b.remote.mounted then record b { remote = set_error failure b.remote } else b)
mutation_failed _ failure b = b

pub reload_done : Option Operation → Board → Board
reload_done (some reloading) b = release_operation b
reload_done _ b = b

-- imageInvalid, of a file; and whether it may be published.
abbrev pub is_too_large : ImageFile → Option ImageSettings → Bool
is_too_large file none = false
is_too_large file (some settings) = ltb (settings.max_size_mb * 1024 * 1024) file.size

abbrev pub is_invalid : ImageFile → Option ImageSettings → Bool
is_invalid file settings =
    not (text_eq file.kind (codes "image/png") || text_eq file.kind (codes "image/jpeg"))
    || is_too_large file settings

abbrev pub is_enabled : Option ImageSettings → Bool
is_enabled none = false
is_enabled (some settings) = settings.enabled

abbrev pub can_publish_image : ImageFile → Option ImageSettings → Bool
can_publish_image file settings = is_enabled settings && not (is_invalid file settings)

-- publish: an image where one is chosen, and else the text; the test of a text is `text.trim()` and
-- the length in bytes
pub publish : (Text → Bool) → Board → Board
publish publishable b = elim b.image_file [
  | some file ↦
      if can_publish_image file b.image_settings.data' then start_mutation publishing_image b else b
  | none ↦ if publishable b.text then start_mutation publishing b else b
]

-- The field of the composer, and a paste into the page
pub choose_image : Option ImageFile → Board → Board
choose_image file b = if b.busy then b else record b { image_file = file }

-- cancelBackground of the page
abbrev pub stop_poll : Board → Board
stop_poll b = record b { remote = cancel_background b.remote }

-- copy up to its await, and what comes of it
pub copy : Clip → Board → Board
copy clip b =
    if is_some b.copy_in_progress
    then b
    else record (stop_poll b) { copy_in_progress = some clip; copying = true; notice = plain [] }

abbrev pub release_copy : Board → Board
release_copy b = record b {
  copy_in_progress = none;
  copying = if b.remote.mounted then false else b.copying;
}

pub copied : Option Clip → Board → Board
copied none b = b
copied (some clip) b = release_copy (
    if b.remote.mounted
    then record b { manual_copy = none; notice = message (codes "已复制到剪贴板。") end }
    else b)

pub copy_failed : Option Clip → Board → Board
copy_failed none b = b
copy_failed (some clip) b =
    release_copy (if b.remote.mounted then record b { manual_copy = some clip } else b)

abbrev is_some_clip : List Clip → Bool
is_some_clip [] = false
is_some_clip (_ ∷ _) = true

pub ask_all : Board → Board
ask_all b =
    if b.remote.loading || (b.busy || not (is_some_clip b.remote.data'))
    then b
    else record (stop_poll b) { confirming = none; confirming_all = true }

-- autoRefresh, where no text is selected, and the button that reloads, which is disabled while the
-- page is busy
unfoldable pub auto_refresh : Board → Board
auto_refresh b =
    if is_some b.operation || is_some b.copy_in_progress
    then b
    else record b { remote = refresh true b.remote }

unfoldable pub manual_refresh : Board → Board
manual_refresh b = if b.busy then b else reload b

unfoldable pub type_text : Text → Board → Board
type_text text b = if b.busy then b else record b { text = text }

pub data BoardEvent : Type 0 where
  publishes clears polls refreshes reloaded unmounts copy_succeeds copy_fails asks_all : BoardEvent
  keeps keeps_all closes_copy closes_preview : BoardEvent
  removes types asks : Text → BoardEvent
  copies previews : Clip → BoardEvent
  chooses : Option ImageFile → BoardEvent
  settings_settle : RemoteEvent (Option ImageSettings) → BoardEvent
  succeeds : Clip → BoardEvent
  fails : Message → BoardEvent
  list_resolves : ℕ → Answer (List Clip) → BoardEvent
  list_rejects : ℕ → Message → BoardEvent

module _ (publishable : Text → Bool) where
  unfoldable pub step : Board → BoardEvent → Board
  step b publishes = publish publishable b
  step b clears = start_mutation clearing b
  step b polls = auto_refresh b
  step b refreshes = manual_refresh b
  step b reloaded = reload_done b.operation b
  step b unmounts = record b {
    remote = Remote.unmount b.remote;
    image_settings = Remote.unmount b.image_settings;
  }
  step b (removes id) = start_mutation (removing id) b
  step b (types text) = type_text text b
  step b (succeeds clip) = mutation_done b.operation clip b
  step b (fails failure) = mutation_failed b.operation failure b
  step b (copies clip) = copy clip b
  step b copy_succeeds = copied b.copy_in_progress b
  step b copy_fails = copy_failed b.copy_in_progress b
  step b (previews clip) = record (stop_poll b) { previewing = some clip }
  step b (asks id) = record (stop_poll b) { confirming = some id }
  step b asks_all = ask_all b
  step b keeps = record b { confirming = none }
  step b keeps_all = record b { confirming_all = false }
  step b closes_copy = record b { manual_copy = none }
  step b closes_preview = record b { previewing = none }
  step b (chooses file) = choose_image file b
  step b (settings_settle e) = record b { image_settings = Remote.step b.image_settings e }
  step b (list_resolves id a) = record b { remote = Remote.step b.remote (resolves id a) }
  step b (list_rejects id m) = record b { remote = Remote.step b.remote (rejects id m) }

  unfoldable pub run : Board → List BoardEvent → Board
  run b [] = b
  run b (e ∷ es) = run (step b e) es

-- The page once its effects have run.
abbrev pub opened : Board
opened = record {
  remote = Remote.step (initial []) RemoteEvent.mounts;
  operation = none;
  busy = false;
  notice = plain [];
  text = [];
  confirming = none;
  confirming_all = false;
  manual_copy = none;
  previewing = none;
  copy_in_progress = none;
  copying = false;
  image_file = none;
  image_settings = Remote.step (initial none) RemoteEvent.mounts;
}
