-- ===== src/Semafors/Defs.antt =====
-- The threads of semafors/main.c on the buffers of buffer.c. A step of a thread is one call of `down`,
-- `up`, `buffer_push`, `buffer_pop`, or of a function that produces an item or makes a pierog.
use soi_laboratoria_2025z.Base.{
  ℕ, zero, suc, ◌+◌, ◌%◌, ◌≡◌, Bool, true, false, Option, none, some, List, [], ◌∷◌, length,
  get_elem?, set, ltb, if◌then◌else◌,
}

pub data Filling : Type 0 where
  meat cheese cabbage : Filling

pub data Kind : Type 0 where
  dough : Kind
  filling : (f : Filling) → Kind

unfoldable pub same_filling : Filling → Filling → Bool
same_filling meat meat = true
same_filling cheese cheese = true
same_filling cabbage cabbage = true
same_filling _ _ = false

unfoldable pub same_kind : Kind → Kind → Bool
unfolding same_filling
same_kind dough dough = true
same_kind (filling f) (filling g) = same_filling f g
same_kind _ _ = false

pub record Item : Type 0 where
  pub id : ℕ
  pub type : ℕ

-- 'D', 'M', 'S' and 'C'
abbrev pub letter : Kind → ℕ
letter dough = 68
letter (filling meat) = 77
letter (filling cheese) = 83
letter (filling cabbage) = 67

-- What `produce_dough` and the three others return at a value of their counter.
abbrev pub produced : Kind → (global_counter : ℕ) → Item
produced k n = record { id = n; type = letter k }

-- `in` and `out` are the indices of the next write and the next read.
pub record Buffer : Type 0 where
  pub array : List Item
  pub capacity : ℕ
  pub at_in : ℕ
  pub at_out : ℕ

-- The items that `malloc` leaves in a new array.
unfoldable pub fresh : ℕ → Item → List Item
fresh zero x = []
fresh (suc n) x = x ∷ fresh n x

unfoldable pub init_buffer : (size : ℕ) → (garbage : Item) → Buffer
unfolding fresh
init_buffer size garbage = record {
  array = fresh size garbage;
  capacity = size;
  at_in = 0;
  at_out = 0;
}

-- `none` when the write is outside of the array.
unfoldable pub buffer_push : Buffer → Item → Option Buffer
buffer_push b x =
    if ltb b.at_in (length b.array)
    then some (record b { array = set b.array b.at_in x; at_in = (b.at_in + 1) % b.capacity })
    else none

-- `none` when the read is outside of the array.
unfoldable pub buffer_pop : Buffer → Option (Item × Buffer)
buffer_pop b = elim (get_elem? b.array b.at_out) [
  | none ↦ none
  | some x ↦ some (x, record b { at_out = (b.at_out + 1) % b.capacity })
]

-- The call that a producer is to make next.
pub data Producer : Type 0 where
  produce : Producer
  down_empty down_mutex push : (item : Item) → Producer
  up_mutex up_full : Producer

-- What a consumer has of a pierog: nothing, or the filling.
pub data Got : Type 0 where
  nothing : Got
  filled : (item : Item) → Got

-- The call that a consumer is to make next.
pub data Consumer : Type 0 where
  down_full take_mutex pop : (g : Got) → Consumer
  give_mutex up_empty : (g : Got) (item : Item) → Consumer
  make_pierogi : (dough_item filling_item : Item) → Consumer

-- A buffer with its semaphores, its producer and the counter of the items produced.
pub record Station : Type 0 where
  pub buffer : Buffer
  pub mutex : ℕ
  pub full : ℕ
  pub empty : ℕ
  pub global_counter : ℕ
  pub producer : Producer

-- What a step does to a buffer, or writes to the file.
pub data Event : Type 0 where
  silent : Event
  pushed popped : (k : Kind) (item : Item) → Event
  made : (dough_item filling_item : Item) → Event

-- A thread waits at a semaphore, goes outside of an array, or makes its step.
pub data Step (A : Type 0) : Type 0 where
  blocked crashed : Step A
  moved : (event : Event) (after : A) → Step A

-- `down`: the next state is given the value that is left.
unfoldable pub down : {A : Type 0} → (sem : ℕ) → (ℕ → A) → Step A
down zero next = blocked
down (suc n) next = moved silent (next n)

unfoldable pub pushed_item : Kind → Station → Item → Option Buffer → Step Station
pushed_item k s item none = crashed
pushed_item k s item (some b) = moved (pushed k item) (record s { buffer = b; producer = up_mutex })

-- One step of `producer_dough` or the producer of a filling.
unfoldable pub producer_step : Kind → Station → Producer → Step Station
unfolding down buffer_push pushed_item
producer_step k s produce = moved silent (record s {
  global_counter = suc s.global_counter;
  producer = down_empty (produced k s.global_counter);
})
producer_step k s (down_empty item) =
    down s.empty (λ n. record s { empty = n; producer = down_mutex item })
producer_step k s (down_mutex item) =
    down s.mutex (λ n. record s { mutex = n; producer = push item })
producer_step k s (push item) = pushed_item k s item (buffer_push s.buffer item)
producer_step k s up_mutex = moved silent (record s { mutex = suc s.mutex; producer = up_full })
producer_step k s up_full = moved silent (record s { full = suc s.full; producer = produce })

-- The buffer from which a consumer of a filling takes next.
abbrev pub kind_of : Filling → Got → Kind
kind_of f nothing = filling f
kind_of f (filled _) = dough

abbrev pub needs : Filling → Consumer → Kind
needs f (down_full g) = kind_of f g
needs f (take_mutex g) = kind_of f g
needs f (pop g) = kind_of f g
needs f (give_mutex g item) = kind_of f g
needs f (up_empty g item) = kind_of f g
needs f (make_pierogi d x) = dough

-- After a filling comes the dough, and after the dough the pierog.
abbrev pub after_taking : Got → Item → Consumer
after_taking nothing item = down_full (filled item)
after_taking (filled x) item = make_pierogi item x

unfoldable pub popped_item :
    Kind → Station → Got → Option (Item × Buffer) → Step (Consumer × Station)
popped_item k s g none = crashed
popped_item k s g (some (item, b)) =
    moved (popped k item) (give_mutex g item, record s { buffer = b })

-- One step of the consumer of a filling, at the buffer that it needs.
unfoldable pub consumer_step : Filling → Station → Consumer → Step (Consumer × Station)
unfolding down buffer_pop popped_item
consumer_step f s (down_full g) = down s.full (λ n. (take_mutex g, record s { full = n }))
consumer_step f s (take_mutex g) = down s.mutex (λ n. (pop g, record s { mutex = n }))
consumer_step f s (pop g) = popped_item (kind_of f g) s g (buffer_pop s.buffer)
consumer_step f s (give_mutex g item) =
    moved silent (up_empty g item, record s { mutex = suc s.mutex })
consumer_step f s (up_empty g item) =
    moved silent (after_taking g item, record s { empty = suc s.empty })
consumer_step f s (make_pierogi d x) = moved (made d x) (down_full nothing, s)

pub record Kitchen : Type 0 where
  pub station : Kind → Station
  pub cook : Filling → Consumer

unfoldable pub set_station : {A : Type 0} → Kind → A → (Kind → A) → Kind → A
unfolding same_kind
set_station k x at j = if same_kind j k then x else at j

unfoldable pub set_cook : {A : Type 0} → Filling → A → (Filling → A) → Filling → A
unfolding same_filling
set_cook f c at g = if same_filling g f then c else at g

pub data Thread : Type 0 where
  producer_of : (k : Kind) → Thread
  consumer_of : (f : Filling) → Thread

unfoldable pub produced_at : Kind → Kitchen → Step Station → Step Kitchen
unfolding set_station
produced_at k s blocked = blocked
produced_at k s crashed = crashed
produced_at k s (moved e x) = moved e (record s { station = set_station k x s.station })

unfoldable pub consumed_at : Filling → Kind → Kitchen → Step (Consumer × Station) → Step Kitchen
unfolding set_station set_cook
consumed_at f k s blocked = blocked
consumed_at f k s crashed = crashed
consumed_at f k s (moved e (c, x)) =
    moved e (record { station = set_station k x s.station; cook = set_cook f c s.cook })

-- One step of one of the seven threads.
unfoldable pub step : Thread → Kitchen → Step Kitchen
unfolding producer_step consumer_step produced_at consumed_at
step (producer_of k) s = produced_at k s (producer_step k (s.station k) (s.station k).producer)
step (consumer_of f) s =
    consumed_at f (needs f (s.cook f)) s
      (consumer_step f (s.station (needs f (s.cook f))) (s.cook f))

abbrev pub first_station : (size : ℕ) → (garbage : Item) → Station
first_station size garbage = record {
  buffer = init_buffer size garbage;
  mutex = 1;
  full = 0;
  empty = size;
  global_counter = 0;
  producer = produce;
}

-- The state in which `main` starts the threads.
abbrev pub start : (size : ℕ) → (garbage : Item) → Kitchen
start size garbage = record {
  station = λ _. first_station size garbage;
  cook = λ _. down_full nothing;
}

-- A run of the threads in any order, with what they did, the last first.
pub data Run (from : Kitchen) : Kitchen → List Event → Type 0 where
  stop : Run from from []
  then_step :
      {s s' : Kitchen} {es : List Event} {e : Event} (t : Thread)
      → Run from s es
      → step t s ≡ moved e s'
      → Run from s' (e ∷ es)
