-- ===== src/Monitors/Defs.antt =====
-- The threads of monitors/main.c on the monitors of monitor.c. A step of a thread is a call to produce an
-- item or make a pierog, or one statement of `monitor_put` and `monitor_get`: the calls of pthreads, the
-- test of a loop, the access to the array.
use soi_laboratoria_2025z.Base.{
  ℕ, zero, suc, ◌+◌, ◌-◌, ◌≡◌, Option, none, some, List, [], ◌∷◌, if◌then◌else◌, ◌==◌,
}
use soi_laboratoria_2025z.Semafors.Defs.{
  Kind, dough, Filling, Item, letter, Buffer, init_buffer, buffer_push, buffer_pop, Got, nothing,
  filled, kind_of, Event, silent, pushed, popped, made, Step, blocked, crashed, moved, Thread,
  producer_of, consumer_of, set_station, set_cook,
}
use soi_laboratoria_2025z.Semafors.Totals.{total}

-- `array`, `capacity`, `in` and `out` are those of `ring`; `lock` is 1 while a thread has the mutex. The
-- threads that wait on a condition are those whose next statement is `wait_full` or `wait_empty`.
pub record BufferMonitor : Type 0 where
  pub ring : Buffer
  pub count : ℕ
  pub lock : ℕ

abbrev pub monitor_init : (size : ℕ) → (garbage : Item) → BufferMonitor
monitor_init size garbage = record { ring = init_buffer size garbage; count = 0; lock = 0 }

-- The statement that a producer is to execute next. `pthread_cond_wait` gives the mutex back in one step
-- with the test before it, and after a wake-up locks again.
pub data Producer : Type 0 where
  produce : Producer
  lock_put test_put wait_full relock_put put : (item : Item) → Producer
  signal_put unlock_put : Producer

-- The statement that a consumer is to execute next.
pub data Consumer : Type 0 where
  lock_get test_get wait_empty relock_get get : (g : Got) → Consumer
  signal_get unlock_get : (g : Got) (item : Item) → Consumer
  make_pierogi : (dough_item filling_item : Item) → Consumer

-- A monitor with its producer and the counter of the items produced.
pub record Station : Type 0 where
  pub monitor : BufferMonitor
  pub global_counter : ℕ
  pub producer : Producer

-- The item that `produce_dough` and the three others return, and their counter after.
abbrev pub produce_item : Kind → (global_counter : ℕ) → Item × ℕ
produce_item k n = (record { id = n; type = letter k }, suc n)

-- `pthread_mutex_lock`, then the state `next`.
unfoldable pub locking : {A : Type 0} → (lock : ℕ) → A → Step A
locking zero next = moved silent next
locking (suc _) next = blocked

-- `monitor_put` from the test on: the producer goes to the statement `q`, with the mutex free or not.
abbrev pub put_at : Station → (lock : ℕ) → Producer → Station
put_at s l q = record s { monitor = record (s.monitor) { lock = l }; producer = q }

unfoldable pub put_item : Kind → Station → Item → Option Buffer → Step Station
put_item k s item none = crashed
put_item k s item (some b) = moved (pushed k item) (record s {
  monitor = record (s.monitor) { ring = b; count = s.monitor.count + 1 };
  producer = signal_put;
})

-- `pthread_cond_signal(&not_empty)` when none of the `waiting` consumers is to be chosen: with consumers
-- that wait, the signal is a step of its own.
unfoldable pub signal_nobody : (waiting : ℕ) → Station → Step Station
signal_nobody zero s = moved silent (record s { producer = unlock_put })
signal_nobody (suc _) s = blocked

-- One step of `producer_dough` or the producer of a filling, in `monitor_put` or between two calls of it.
unfoldable pub producer_step : Kind → (waiting : ℕ) → Station → Producer → Step Station
unfolding locking put_item signal_nobody buffer_push
producer_step k w s produce =
    let (item, n) = produce_item k s.global_counter in
    moved silent (record s { global_counter = n; producer = lock_put item })
producer_step k w s (lock_put item) = locking s.monitor.lock (put_at s 1 (test_put item))
producer_step k w s (test_put item) =
    if s.monitor.count == s.monitor.ring.capacity
    then moved silent (put_at s 0 (wait_full item))
    else moved silent (put_at s s.monitor.lock (put item))
producer_step k w s (wait_full item) = blocked
producer_step k w s (relock_put item) = locking s.monitor.lock (put_at s 1 (test_put item))
producer_step k w s (put item) = put_item k s item (buffer_push s.monitor.ring item)
producer_step k w s signal_put = signal_nobody w s
producer_step k w s unlock_put = moved silent (put_at s 0 produce)

-- The monitor from which a consumer of a filling takes next.
abbrev pub needs : Filling → Consumer → Kind
needs f (lock_get g) = kind_of f g
needs f (test_get g) = kind_of f g
needs f (wait_empty g) = kind_of f g
needs f (relock_get g) = kind_of f g
needs f (get g) = kind_of f g
needs f (signal_get g item) = kind_of f g
needs f (unlock_get g item) = kind_of f g
needs f (make_pierogi d x) = dough

-- After a filling comes the dough, and after the dough the pierog.
abbrev pub after_get : Got → Item → Consumer
after_get nothing item = lock_get (filled item)
after_get (filled x) item = make_pierogi item x

abbrev pub get_at : Station → (lock : ℕ) → Station
get_at s l = record s { monitor = record (s.monitor) { lock = l } }

unfoldable pub got_item : Kind → Station → Got → Option (Item × Buffer) → Step (Consumer × Station)
got_item k s g none = crashed
got_item k s g (some (item, b)) = moved (popped k item) (
  signal_get g item,
  record s { monitor = record (s.monitor) { ring = b; count = s.monitor.count - 1 } },
)

-- A producer that `pthread_cond_signal(&not_full)` wakes: only the producer of a monitor waits for room.
abbrev pub woken : Producer → Producer
woken (wait_full item) = relock_put item
woken q = q

-- One step of the consumer of a filling, at the monitor that it needs.
unfoldable pub consumer_step : Filling → Station → Consumer → Step (Consumer × Station)
unfolding locking got_item buffer_pop
consumer_step f s (lock_get g) = locking s.monitor.lock (test_get g, get_at s 1)
consumer_step f s (test_get g) =
    if s.monitor.count == 0
    then moved silent (wait_empty g, get_at s 0)
    else moved silent (get g, s)
consumer_step f s (wait_empty g) = blocked
consumer_step f s (relock_get g) = locking s.monitor.lock (test_get g, get_at s 1)
consumer_step f s (get g) = got_item (kind_of f g) s g (buffer_pop s.monitor.ring)
consumer_step f s (signal_get g item) =
    moved silent (unlock_get g item, record s { producer = woken s.producer })
consumer_step f s (unlock_get g item) = moved silent (after_get g item, get_at s 0)
consumer_step f s (make_pierogi d x) = moved (made d x) (lock_get nothing, s)

-- `pthread_cond_signal(&not_empty)` of a producer, when it wakes this consumer.
unfoldable pub signal_step : Station → Producer → Consumer → Step (Consumer × Station)
signal_step s signal_put (wait_empty g) =
    moved silent (relock_get g, record s { producer = unlock_put })
signal_step s _ _ = blocked

-- `pthread_cond_wait` may return without a signal.
unfoldable pub wake_step : Station → Consumer → Step (Consumer × Station)
wake_step s (wait_empty g) = moved silent (relock_get g, s)
wake_step s _ = blocked

unfoldable pub wake_producer : Station → Producer → Step Station
wake_producer s (wait_full item) = moved silent (record s { producer = relock_put item })
wake_producer s _ = blocked

pub record Kitchen : Type 0 where
  pub station : Kind → Station
  pub cook : Filling → Consumer

unfoldable pub produced_at : Kind → Kitchen → Step Station → Step Kitchen
unfolding set_station
produced_at k s blocked = blocked
produced_at k s crashed = crashed
produced_at k s (moved e x) = moved e (record s { station = set_station k x s.station })

unfoldable pub consumed_at : Filling → Kind → Kitchen → Step (Consumer × Station) → Step Kitchen
unfolding set_station set_cook
consumed_at f k s blocked = blocked
consumed_at f k s crashed = crashed
consumed_at f k s (moved e (c, x)) =
    moved e (record { station = set_station k x s.station; cook = set_cook f c s.cook })

abbrev pub waits : Consumer → ℕ
waits (wait_empty g) = 1
waits _ = 0

-- What happens next: a statement of a thread, a signal of the producer of the monitor at which the consumer
-- of a filling waits that wakes this consumer, or a wake-up without a signal.
pub data Action : Type 0 where
  run : (t : Thread) → Action
  signal : (f : Filling) → Action
  wake : (t : Thread) → Action

unfoldable pub step : Action → Kitchen → Step Kitchen
unfolding producer_step consumer_step signal_step wake_step wake_producer produced_at consumed_at
    total
step (run (producer_of k)) s =
    produced_at k s
      (producer_step k (total needs k waits s.cook) (s.station k) (s.station k).producer)
step (run (consumer_of f)) s =
    consumed_at f (needs f (s.cook f)) s
      (consumer_step f (s.station (needs f (s.cook f))) (s.cook f))
step (signal f) s =
    let k = needs f (s.cook f) in
    consumed_at f k s (signal_step (s.station k) (s.station k).producer (s.cook f))
step (wake (producer_of k)) s = produced_at k s (wake_producer (s.station k) (s.station k).producer)
step (wake (consumer_of f)) s =
    consumed_at f (needs f (s.cook f)) s (wake_step (s.station (needs f (s.cook f))) (s.cook f))

abbrev pub first_station : (size : ℕ) → (garbage : Item) → Station
first_station size garbage = record {
  monitor = monitor_init size garbage;
  global_counter = 0;
  producer = produce;
}

-- The state in which `main` starts the threads.
abbrev pub start : (size : ℕ) → (garbage : Item) → Kitchen
start size garbage = record {
  station = λ _. first_station size garbage;
  cook = λ _. lock_get nothing;
}

-- A run: the actions in any order, with what they did, the last first.
pub data Run (from : Kitchen) : Kitchen → List Event → Type 0 where
  stop : Run from from []
  then_step :
      {s s' : Kitchen} {es : List Event} {e : Event} (a : Action)
      → Run from s es
      → step a s ≡ moved e s'
      → Run from s' (e ∷ es)
