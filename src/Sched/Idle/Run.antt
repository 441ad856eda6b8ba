-- ===== src/Sched/Idle/Run.antt =====
-- The histories of the workers and of the parties that inject.
use stackfull.Base.{ℕ, Bool, false, Option, none, some, List, [], ◌∷◌, get_elem?, replicate}
use stackfull.Sched.Idle.{
  Worker, busy, Producer, outside, pushes, System, run_worker, turn, find, run_producer, move,
}

pub data Event : Type 0 where
  -- A worker makes its next access, and if that is a pop of a busy queue may give up; finds a task of
  -- its own; or goes its other way on; a party begins to inject, or makes its next
  -- access, with the timekeeper that it sees.
  works : ℕ → Bool → Event
  finds turns injects : ℕ → Event
  notifies : ℕ → Option ℕ → Event

abbrev pub begin : System → ℕ → Producer → System
begin s t outside = move s t pushes
begin s t p = s

abbrev pub at_worker : System → ℕ → (Worker → System) → System
at_worker s i f = elim (get_elem? s.workers i) [ none ↦ s | some w ↦ f w ]

abbrev pub at_producer : System → ℕ → (Producer → System) → System
at_producer s t f = elim (get_elem? s.producers t) [ none ↦ s | some p ↦ f p ]

unfoldable pub advance : System → Event → System
advance s (works i gives_up) = at_worker s i (λ w. run_worker gives_up s i w w.point)
advance s (finds i) = at_worker s i (λ w. find s i w w.point)
advance s (turns i) = at_worker s i (λ w. turn s i w w.point)
advance s (injects t) = at_producer s t (begin s t)
advance s (notifies t keeper) = at_producer s t (run_producer s t keeper)

unfoldable pub history : System → List Event → System
history s [] = s
history s (e ∷ es) = history (advance s e) es

-- Workers that run tasks, and parties that inject none yet.
abbrev pub started : ℕ → ℕ → System
started workers parties = record {
  injected = 0;
  searching = 0;
  workers = replicate workers (record { point = busy; is_idle = false; token = false });
  producers = replicate parties outside;
}
