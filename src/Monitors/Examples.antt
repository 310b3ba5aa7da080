-- ===== src/Monitors/Examples.antt =====
-- Runs of the threads of monitors/main.c, and the theorems at one of them.
use soi_laboratoria_2025z.Base.{◌≡◌, ◌≢◌, ◌⊎◌, refl, List, [], ◌∷◌, arith}
use soi_laboratoria_2025z.Semafors.Defs.{
  filling, Filling, meat, Item, produced, Event, silent, pushed, Step, blocked, crashed, moved,
  Thread, producer_of, consumer_of, init_buffer,
}
use soi_laboratoria_2025z.Semafors.Totals.{weight}
use soi_laboratoria_2025z.Semafors.Safety.{AllOrdered}
use soi_laboratoria_2025z.Monitors.Defs.{
  Kitchen, Action, run, signal, step, start, Run, stop, then_step,
}
use soi_laboratoria_2025z.Monitors.Safety.{
  InMonitor, Run-one_inside, Run-inside_arrays, Run-in_order,
}
use soi_laboratoria_2025z.Monitors.Progress.{Run-goes_on}

abbrev garbage : Item
garbage = record { id = 7; type = 0 }

-- The state after an action, or the one before when it waits.
abbrev next_state : Kitchen → Step Kitchen → Kitchen
next_state s blocked = s
next_state s crashed = s
next_state s (moved e s') = s'

abbrev after : List Action → Kitchen
after [] = start 1 garbage
after (a ∷ rest) = next_state (after rest) (step a (after rest))

abbrev meat_producer : Action
meat_producer = run (producer_of (filling meat))

abbrev meat_consumer : Action
meat_consumer = run (consumer_of meat)

-- The consumer of meat finds nothing and waits; the producer puts a piece of meat into the buffer and wakes
-- it by the signal. The last action first.
abbrev schedule : List Action
schedule =
    signal meat
    ∷ meat_producer
    ∷ meat_producer
    ∷ meat_producer
    ∷ meat_producer
    ∷ meat_consumer
    ∷ meat_consumer
    ∷ []

abbrev meat_in : List Event
meat_in =
    silent
    ∷ pushed (filling meat) (produced (filling meat) 0)
    ∷ silent
    ∷ silent
    ∷ silent
    ∷ silent
    ∷ silent
    ∷ []

meat_in-Run : Run (start 1 garbage) (after schedule) meat_in
unfolding step init_buffer
meat_in-Run =
    then_step (signal meat)
      (then_step meat_producer
        (then_step meat_producer
          (then_step meat_producer
            (then_step meat_producer
              (then_step meat_consumer (then_step meat_consumer stop refl) refl) refl)
            refl)
          refl)
        refl)
      refl

-- The producer that is to signal does not pass by the consumer that waits.
signal_first :
    step meat_producer (
      after (
        meat_producer ∷ meat_producer ∷ meat_producer ∷ meat_producer ∷ meat_consumer
        ∷ meat_consumer ∷ []))
    ≡ blocked
unfolding step init_buffer weight
signal_first = refl

-- The consumer that is woken waits at the mutex until the producer has unlocked it.
woken_waits : step meat_consumer (after schedule) ≡ blocked
unfolding step init_buffer
woken_waits = refl

meat_producer-InMonitor : InMonitor (producer_of (filling meat)) (filling meat) (after schedule)
unfolding step init_buffer
meat_producer-InMonitor = (refl, refl)

Run-one_inside_example : producer_of (filling meat) ≡ producer_of (filling meat)
Run-one_inside_example =
    Run-one_inside 1 garbage (after schedule) meat_in (filling meat) (producer_of (filling meat))
      (producer_of (filling meat)) meat_in-Run meat_producer-InMonitor meat_producer-InMonitor

Run-inside_arrays_example : step meat_producer (after schedule) ≢ crashed
Run-inside_arrays_example =
    Run-inside_arrays 1 garbage (after schedule) meat_in meat_producer meat_in-Run

Run-in_order_example : AllOrdered 1 meat_in
Run-in_order_example = Run-in_order 1 garbage (after schedule) meat_in meat_in-Run

Run-goes_on_example :
    ((t : Thread) × (step (run t) (after schedule) ≢ blocked))
    ⊎ ((f : Filling) × (step (signal f) (after schedule) ≢ blocked))
Run-goes_on_example = Run-goes_on 1 garbage (after schedule) meat_in (omega arith) meat_in-Run
