-- ===== src/Watch.antt =====
-- src/utils/filewatch.rs, and `watch_folder` and `listdir` of src/utils/tools.rs: reloading when a
-- file changes. The watcher is a crate, so what it reports, and when, are the arguments; times are
-- in nanoseconds, and an event stands at the time at which the loop takes it from the channel.
pub mod Debounced
pub mod Listed
mod Tests
use aralez.Prelude.{
  ℕ, ◌-◌, ◌*◌, ◌^◌, Bool, true, false, Option, none, some, List, [], ◌∷◌, ◌++◌, ltb, map,
  if◌then◌else◌, nat_eq, list_eq,
}
use aralez.Outcome.{Outcome, panicked, returned, ◌>>=◌}
use aralez.Text.{Str, bytes, ends_with, replace}
use aralez.Structs.{Configuration}
use aralez.Certificates.{CertificateConfig}

-- `notify::EventKind`, as far as the loops tell the kinds apart.
pub data EventKind : Type 0 where
  modify_data create remove other : EventKind

-- What a loop takes from its channel: an event or an error of the watcher.
pub data Received : Type 0 where
  event : EventKind → Received
  watch_error : Received

-- The kinds that both loops react to.
abbrev pub is_change : Received → Bool
is_change (event modify_data) = true
is_change (event create) = true
is_change (event remove) = true
is_change (event other) = false
is_change watch_error = false

abbrev pub seconds : ℕ → ℕ
seconds n = n * 10 ^ 9

-- `start.elapsed() > Duration::from_secs(2)` at the time `now`.
abbrev pub has_elapsed : ℕ → ℕ → ℕ → Bool
has_elapsed window start now = ltb window (now - start)

-- The loop of `filewatch::start`: the times at which it loads the configuration.
unfoldable pub load_times : ℕ → List (ℕ × Received) → List ℕ
load_times start [] = []
load_times start ((now, received) ∷ rest) =
    let loaded = now ∷ load_times now rest in
    let skipped = load_times start rest in
    if is_change received
    then (if has_elapsed (seconds 2) start now then loaded else skipped)
    else skipped

sends : (ℕ → Option Configuration) → List ℕ → List Configuration
sends load [] = []
sends load (now ∷ times) = elim (load now) [
  | none ↦ sends load times
  | some snd ↦ snd ∷ sends load times
]

-- What it sends; `load` is what `load_configuration` returns at a time.
unfoldable pub file_watch :
    (ℕ → Option Configuration) → ℕ → List (ℕ × Received) → List Configuration
unfolding load_times sends
file_watch load start received = sends load (load_times start received)

-- `listdir`: the entries of the folder, each a path in UTF-8 or one that makes an `unwrap` panic.
unfoldable pub listdir : List (Option Str) → Outcome (List CertificateConfig)
listdir [] = returned []
listdir (none ∷ paths) = panicked
listdir (some path_str ∷ paths) =
    let name = replace (bytes ".crt") [] path_str in
    let y : CertificateConfig = record {
      cert_path = name ++ bytes ".crt";
      key_path = name ++ bytes ".key";
    } in
    listdir paths >>= λ certificate_configs.
    returned
      (if ends_with (bytes ".crt") path_str then y ∷ certificate_configs else certificate_configs)

-- The loop of `watch_folder` takes a message a second at most; `none` is a second without one.
unfoldable pub list_times : ℕ → List (ℕ × Option Received) → List ℕ
list_times start [] = []
list_times start ((now, none) ∷ rest) = list_times start rest
list_times start ((now, some received) ∷ rest) =
    let listed = now ∷ list_times now rest in
    let skipped = list_times start rest in
    if is_change received
    then (if has_elapsed (seconds 1) start now then listed else skipped)
    else skipped

-- What is sent, listing by listing, and whether a listing panics; `read_dir` is what the folder
-- holds at a time, if it can be read.
listings : (ℕ → Option (List (Option Str))) → List ℕ → List (List CertificateConfig) × Bool
unfolding listdir
listings read_dir [] = ([], false)
listings read_dir (now ∷ times) =
    let (rest, panics) = listings read_dir times in
    elim (read_dir now) [
      | none ↦ ([], true)
      | some paths ↦ elim (listdir paths) [
        | panicked ↦ ([], true)
        | returned certificate_configs ↦ (certificate_configs ∷ rest, panics)
      ]
    ]

-- `watch_folder`, which lists the folder at the time `start` first.
unfoldable pub watch_folder :
    (ℕ → Option (List (Option Str)))
    → ℕ
    → List (ℕ × Option Received)
    → List (List CertificateConfig) × Bool
unfolding listings list_times
watch_folder read_dir start received = listings read_dir (start ∷ list_times start received)
