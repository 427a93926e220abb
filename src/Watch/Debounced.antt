-- ===== src/Watch/Debounced.antt =====
-- How the two loops space out what they do: never twice within the window, and nothing that
-- happens more than a window after the last time is passed over.
use aralez.Prelude.{
  ℕ, ◌+◌, ◌<◌, ◌≤◌, ◌≡◌, refl, sym, ap, inl, inr, Bool, true, false, Option, none, some, List, [],
  ◌∷◌, In, Bool-cases, arith, map, if◌then◌else◌,
}
use aralez.Watch.{Received, is_change, seconds, has_elapsed, load_times, list_times}

-- The times are in order, from `start` on.
abbrev pub Ordered : ℕ → List (ℕ × Bool) → Type 0
Ordered start [] = Unit
Ordered start ((now, _) ∷ rest) = (start ≤ now) × Ordered now rest

-- Each time is more than a window after the one before, the first after `start`.
abbrev pub Apart : ℕ → ℕ → List ℕ → Type 0
Apart window start [] = Unit
Apart window start (now ∷ times) = (start + window < now) × Apart window now times

-- A change at the time `now` falls into the window that a time, or the start, opens.
abbrev pub IsCovered : ℕ → ℕ → List ℕ → ℕ → Type 0
IsCovered window start times now =
    (opened : ℕ) × In opened (start ∷ times) × (opened ≤ now) × (now ≤ opened + window)

-- The times of the changes, each more than a window after the one before, and such that every
-- change falls into the window of one of them or of the start.
pub record IsDebounced (window start : ℕ) (events : List (ℕ × Bool)) (times : List ℕ) : Type 0 where
  pub apart : Apart window start times
  pub changes : (now : ℕ) → In now times → In (now, true) events
  pub covered : (now : ℕ) → In (now, true) events → IsCovered window start times now

-- Both loops, on events of which only their being changes is kept.
debounce : ℕ → ℕ → List (ℕ × Bool) → List ℕ
debounce window start [] = []
debounce window start ((now, change) ∷ rest) =
    let taken = now ∷ debounce window now rest in
    let skipped = debounce window start rest in
    if change then (if has_elapsed window start now then taken else skipped) else skipped

Ordered-earlier :
    (start now : ℕ) (events : List (ℕ × Bool))
    → start ≤ now
    → Ordered now events
    → Ordered start events
Ordered-earlier start now [] le h = tt
Ordered-earlier start now ((t, c) ∷ events) le (first, h) = (omega arith, h)

taken-IsDebounced :
    (window start now : ℕ) (rest : List (ℕ × Bool)) (times : List ℕ)
    → start + window < now
    → IsDebounced window now rest times
    → IsDebounced window start ((now, true) ∷ rest) (now ∷ times)
taken-IsDebounced window start now rest times late d = record {
  apart = (late, d.apart);
  changes = λ t i. elim i [ inl e ↦ inl (ap (λ k. (k, true)) e) | inr j ↦ inr (d.changes t j) ];
  covered = λ t i. elim i [
    | inl e ↦
        let same : t ≡ now = ap (λ k. k.0) e in (now, inr (inl refl), omega arith, omega arith)
    | inr j ↦ let (opened, o, p, q) = d.covered t j in (opened, inr o, p, q)
  ];
}

skipped-IsDebounced :
    (window start now : ℕ) (change : Bool) (rest : List (ℕ × Bool)) (times : List ℕ)
    → (change ≡ true → (start ≤ now) × (now ≤ start + window))
    → IsDebounced window start rest times
    → IsDebounced window start ((now, change) ∷ rest) times
skipped-IsDebounced window start now change rest times soon d = record {
  apart = d.apart;
  changes = λ t i. inr (d.changes t i);
  covered = λ t i. elim i [
    | inl e ↦
        let same : t ≡ now = ap (λ k. k.0) e in
        let (p, q) = soon (sym (ap (λ k. k.1) e)) in (start, inl refl, omega arith, omega arith)
    | inr j ↦ d.covered t j
  ];
}

debounce-IsDebounced :
    (window start : ℕ) (events : List (ℕ × Bool))
    → Ordered start events
    → IsDebounced window start events (debounce window start events)
unfolding debounce
debounce-IsDebounced window start [] h = record {
  apart = tt;
  changes = λ t i. elim i [ ];
  covered = λ t i. elim i [ ];
}
debounce-IsDebounced window start ((now, false) ∷ rest) (le, h) =
    skipped-IsDebounced window start now false rest (debounce window start rest) (λ e. cc)
      (debounce-IsDebounced window start rest (Ordered-earlier start now rest le h))
debounce-IsDebounced window start ((now, true) ∷ rest) (le, h) =
    let taken = debounce-IsDebounced window now rest h in
    let skipped = debounce-IsDebounced window start rest (Ordered-earlier start now rest le h) in
    elim (Bool-cases (has_elapsed window start now)) [
      | inl late ↦
          rw late (
            taken-IsDebounced window start now rest (debounce window now rest) (ground arith) taken)
      | inr soon ↦ rw soon (
          skipped-IsDebounced window start now true rest (debounce window start rest)
            (λ _. (le, ground arith)) skipped)
    ]

-- The events of the file watcher, each with whether it is a change.
abbrev pub file_changes : List (ℕ × Received) → List (ℕ × Bool)
file_changes received = map (λ e. (e.0, is_change e.1)) received

abbrev pub is_folder_change : Option Received → Bool
is_folder_change none = false
is_folder_change (some received) = is_change received

-- The messages of the folder's watcher, each with whether it is a change.
abbrev pub folder_changes : List (ℕ × Option Received) → List (ℕ × Bool)
folder_changes received = map (λ e. (e.0, is_folder_change e.1)) received

load_times-eq-debounce :
    (start : ℕ) (received : List (ℕ × Received))
    → load_times start received ≡ debounce (seconds 2) start (file_changes received)
unfolding load_times debounce
load_times-eq-debounce start [] = refl
load_times-eq-debounce start ((now, r) ∷ rest) =
    ground (arith, load_times-eq-debounce now rest, load_times-eq-debounce start rest)

list_times-eq-debounce :
    (start : ℕ) (received : List (ℕ × Option Received))
    → list_times start received ≡ debounce (seconds 1) start (folder_changes received)
unfolding list_times debounce
list_times-eq-debounce start [] = refl
list_times-eq-debounce start ((now, none) ∷ rest) = list_times-eq-debounce start rest
list_times-eq-debounce start ((now, some r) ∷ rest) =
    ground (arith, list_times-eq-debounce now rest, list_times-eq-debounce start rest)

-- The file watcher loads the configuration only at changes, never twice within two seconds, nor
-- within two seconds of its start, and it passes over a change only within two seconds of a load
-- or of the start. The folder's watcher lists the certificates likewise, with one second for two.
-- Events are taken in the order of their times.
pub watch-IsDebounced :
    (start : ℕ) (received : List (ℕ × Received)) (messages : List (ℕ × Option Received))
    → Ordered start (file_changes received)
    → Ordered start (folder_changes messages)
    → IsDebounced (seconds 2) start (file_changes received) (load_times start received)
      × IsDebounced (seconds 1) start (folder_changes messages) (list_times start messages)
watch-IsDebounced start received messages h k = (
  rw (load_times-eq-debounce start received)
      (debounce-IsDebounced (seconds 2) start (file_changes received) h),
  rw (list_times-eq-debounce start messages)
      (debounce-IsDebounced (seconds 1) start (folder_changes messages) k),
)
