-- ===== src/Semafors/Examples.antt =====
-- Runs of the threads of semafors/main.c, and the theorems at one of them.
use soi_laboratoria_2025z.Base.{◌≡◌, ◌≢◌, refl, List, [], ◌∷◌, arith}
use soi_laboratoria_2025z.Semafors.Defs.{
  dough, meat, Item, produced, Event, silent, pushed, Step, blocked, crashed, moved, Kitchen,
  Thread, producer_of, consumer_of, step, start, Run, stop, then_step, init_buffer,
}
use soi_laboratoria_2025z.Semafors.Safety.{
  InSection, Run-exclusive, Run-never_crashed, AllOrdered, Run-AllOrdered,
}
use soi_laboratoria_2025z.Semafors.Progress.{Run-moves}

abbrev garbage : Item
garbage = record { id = 7; type = 0 }

-- The state after a step, or the one before when the thread waits.
abbrev next_state : Kitchen → Step Kitchen → Kitchen
next_state s blocked = s
next_state s crashed = s
next_state s (moved e s') = s'

abbrev after : List Thread → Kitchen
after [] = start 2 garbage
after (t ∷ ts) = next_state (after ts) (step t (after ts))

abbrev event_of : Step Kitchen → Event
event_of blocked = silent
event_of crashed = silent
event_of (moved e s') = e

-- The dough producer up to the end of its first `buffer_push`, the last step first.
abbrev schedule : List Thread
schedule = producer_of dough ∷ producer_of dough ∷ producer_of dough ∷ producer_of dough ∷ []

abbrev dough_in : List Event
dough_in = pushed dough (produced dough 0) ∷ silent ∷ silent ∷ silent ∷ []

dough_in-Run : Run (start 2 garbage) (after schedule) dough_in
unfolding step init_buffer
dough_in-Run =
    then_step (producer_of dough)
      (then_step (producer_of dough)
        (then_step (producer_of dough) (then_step (producer_of dough) stop refl) refl) refl)
      refl

-- A consumer that finds its buffer empty waits.
consumer_blocked : step (consumer_of meat) (start 2 garbage) ≡ blocked
unfolding step init_buffer
consumer_blocked = refl

dough-InSection : InSection (producer_of dough) dough (after schedule)
unfolding step init_buffer
dough-InSection = (refl, refl)

Run-exclusive_example : producer_of dough ≡ producer_of dough
Run-exclusive_example =
    Run-exclusive 2 garbage (after schedule) dough_in dough (producer_of dough) (producer_of dough)
      dough_in-Run dough-InSection dough-InSection

Run-never_crashed_example : step (consumer_of meat) (after schedule) ≢ crashed
Run-never_crashed_example =
    Run-never_crashed 2 garbage (after schedule) dough_in (consumer_of meat) dough_in-Run

Run-AllOrdered_example : AllOrdered 2 dough_in
Run-AllOrdered_example = Run-AllOrdered 2 garbage (after schedule) dough_in dough_in-Run

Run-moves_example : (t : Thread) × (step t (after schedule) ≢ blocked)
Run-moves_example = Run-moves 2 garbage (after schedule) dough_in (omega arith) dough_in-Run
