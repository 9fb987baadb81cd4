-- ===== src/Queue/Speed.antt =====
-- The speeds of useUploadQueue: what was transferred between two ticks of its timer.
use gothrough.Base.{
  ℕ, ◌-◌, ◌*◌, ◌/◌, max, Bool, ◌&&◌, ◌||◌, not, Option, none, some, List, [], ◌∷◌, map, any,
  is_some, ◌==◌, if◌then◌else◌,
}
use gothrough.Queue.State.{Entry, Sample, Queue, refresh_file_list, is_uploading}

abbrev pub sample_of : ℕ → Entry → ℕ × Sample
sample_of now e = (e.id, record { bytes = e.item.transferred_bytes; time = now })

-- `samples.get(item) ?? { bytes: 0, time: now - 500 }`
abbrev pub find_sample : ℕ → ℕ → List (ℕ × Sample) → Sample
find_sample now id [] = record { bytes = 0; time = now - 500 }
find_sample now id ((i, s) ∷ rest) = if i == id then s else find_sample now id rest

-- The speed of an item in whole bytes per second, rounded down.
unfoldable pub speed_of : ℕ → Bool → List (ℕ × Sample) → Entry → ℕ
speed_of now paused samples e =
    let previous = find_sample now e.id samples in
    if is_uploading e.item.state && not paused
    then ((e.item.transferred_bytes - previous.bytes) * 1000) / max 1 (now - previous.time)
    else 0

abbrev pub put_speed : ℕ → Bool → List (ℕ × Sample) → Entry → Entry
put_speed now paused samples e = record e {
  item = record e.item { speed = speed_of now paused samples e };
}

-- The effect as it runs again: its cleanup stops the timer, and it starts one during a run.
unfoldable pub watch_speed : ℕ → Queue → Queue
watch_speed now q =
    if not q.running || (q.global_paused || q.canceling)
    then record q { samples = none }
    else record q { samples = some (map (sample_of now) q.entries) }

abbrev pub has_changed : ℕ → Bool → List (ℕ × Sample) → Entry → Bool
has_changed now paused samples e = not (e.item.speed == speed_of now paused samples e)

abbrev pub has_to_show : ℕ → List (ℕ × Sample) → Queue → Bool
has_to_show now samples q = any (has_changed now q.global_paused samples) q.entries || is_some q.run

abbrev pub sampled : ℕ → List (ℕ × Sample) → Queue → Queue
sampled now samples q = record q {
  entries = map (put_speed now q.global_paused samples) q.entries;
  samples = some (map (sample_of now) q.entries);
}

-- A tick of the timer
unfoldable pub tick_speed : ℕ → Option (List (ℕ × Sample)) → Queue → Queue
tick_speed now none q = q
tick_speed now (some samples) q =
    if has_to_show now samples q
    then refresh_file_list now (sampled now samples q)
    else sampled now samples q
