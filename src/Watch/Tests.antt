-- ===== src/Watch/Tests.antt =====
-- The watchers at a few events, and a folder with one certificate.
use aralez.Prelude.{
  ℕ, Option, ◌≡◌, refl, ap, sym, true, none, some, List, [], ◌∷◌, arith, length, length-append,
  list_beq, subst,
}
use aralez.Text.{Str, bytes, starts_with, ends_with, find_str}
use aralez.Text.Laws.{ends_with-append}
use aralez.Watch.{
  Received, event, modify_data, create, other, watch_error, seconds, load_times, list_times,
}
use aralez.Watch.Debounced.{IsDebounced, file_changes, folder_changes, watch-IsDebounced}
use aralez.Watch.Listed.{crt, IsPlain}

abbrev received : List (ℕ × Received)
received =
    (seconds 3, event modify_data)
    ∷ (seconds 4, event modify_data)
    ∷ (seconds 6, event create)
    ∷ (seconds 9, event other)
    ∷ []

abbrev messages : List (ℕ × Option Received)
messages =
    (seconds 3, some (event modify_data)) ∷ (seconds 4, none) ∷ (seconds 5, some watch_error) ∷ []

load_times_run : load_times 0 received ≡ seconds 3 ∷ seconds 6 ∷ []
unfolding load_times
load_times_run = refl

watch-IsDebounced_example :
    IsDebounced (seconds 2) 0 (file_changes received) (load_times 0 received)
    × IsDebounced (seconds 1) 0 (folder_changes messages) (list_times 0 messages)
watch-IsDebounced_example = watch-IsDebounced 0 received messages (omega arith) (omega arith)

abbrev paths : List Str
paths = bytes "c/x.crt" ∷ bytes "c/x.key" ∷ []

crt-IsPlain : IsPlain (bytes "c/x.crt")
unfolding find_str starts_with
crt-IsPlain stem e =
    let len : 3 ≡ length stem = omega (arith, ap length e, length-append {0} stem crt) in
    ap some len

key-IsPlain : IsPlain (bytes "c/x.key")
unfolding ends_with list_beq
key-IsPlain stem e =
    let ends : ends_with crt (bytes "c/x.key") ≡ true =
      subst (λ p. ends_with crt p ≡ true) (sym e) (ends_with-append crt stem) in
    cc
