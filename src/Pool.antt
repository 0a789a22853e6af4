-- ===== src/Pool.antt =====
-- src/Runnable.h, src/Runnable.cpp, src/RunnablePool.h, src/RunnablePool.cpp and
-- src/DispatchingRunnable.h: threads that run an object's operator(), and the pool whose own thread
-- stops and deletes the objects that were added to it. A runnable is named by a number, in the order
-- in which the objects are made. The scheduler's choices are a list of turns.
pub mod Safety
pub mod Progress
pub mod Deadlock
use modem_tester.Common.{
  ℕ, ◌+◌, ◌==◌, ltb, if◌then◌else◌, Bool, true, false, List, [], ◌∷◌, ◌++◌, Option, none, some,
}

-- What an operator() does that other threads can see: a step of its own; addAndStartRunnable of a new
-- object; stop () and delete of another object, as ActivityState::exit does inside a dispatch.
pub data Body : Type 0 where
  finish : Body
  work : Body → Body
  add : Body → Body → Body
  wait : ℕ → Body → Body

-- A runnable: not made yet; with a thread that has not set _running; with a thread in operator(), where
-- _running is true; with a thread that has returned from it; joined and deleted.
pub data Life : Type 0 where
  fresh : Life
  begun working : Body → Life
  over gone : Life

-- Where RunnablePool::operator() is; in its loop over _runnables, the pointers visited and those left.
pub data Place : Type 0 where
  testing locking : Place
  collecting : List (Option ℕ) → List (Option ℕ) → Place
  sleeping finished : Place

pub record System : Type 0 where
  -- _runnables, with nullptr as none
  pub runnables : List (Option ℕ)
  pub place : Place
  -- the pool's _stopRequested
  pub stop_requested : Bool
  pub life : ℕ → Life
  -- the number of the next object
  pub next : ℕ

-- A turn moves the system, waits for a lock or a thread, or uses a pointer that is null or deleted.
pub data Turned : Type 0 where
  moved : System → Turned
  waits faults : Turned

abbrev pub set_life : ℕ → Life → System → System
set_life i l s = record s { life = λ j. if j == i then l else s.life j }

-- Whether the pool's thread holds _mut from one turn to the next.
abbrev pub is_locked : Place → Bool
is_locked (collecting visited rest) = true
is_locked _ = false

-- addAndStartRunnable of a new object, when _mut is free
abbrev pub add_and_start : Body → System → System
add_and_start b s = record s {
  runnables = s.runnables ++ some s.next ∷ [];
  life = λ j. if j == s.next then begun b else s.life j;
  next = s.next + 1;
}

-- `_thr->join (); delete` on the runnable with that life: `go` is what follows.
abbrev pub join : Life → Turned → Turned
join fresh go = faults
join (begun b) go = waits
join (working b) go = waits
join over go = go
join gone go = faults

-- lifecycle, one step of the thread i
unfoldable pub thread_at : Life → ℕ → System → Turned
thread_at (begun b) i s = moved (set_life i (working b) s)
thread_at (working finish) i s = moved (set_life i over s)
thread_at (working (work b)) i s = moved (set_life i (working b) s)
thread_at (working (add a b)) i s =
    if is_locked s.place then waits else moved (add_and_start a (set_life i (working b) s))
thread_at (working (wait j b)) i s =
    join (s.life j) (moved (set_life j gone (set_life i (working b) s)))
thread_at _ i s = waits

-- erase (remove_if (…, isnull), end ())
abbrev pub remove_null : List (Option ℕ) → List (Option ℕ)
remove_null [] = []
remove_null (none ∷ l) = remove_null l
remove_null (some r ∷ l) = some r ∷ remove_null l

-- RunnablePool::operator(), one step
unfoldable pub pool_at : Place → System → Turned
pool_at testing s = moved (record s { place = if s.stop_requested then finished else locking })
pool_at locking s = moved (record s { place = collecting [] s.runnables })
pool_at (collecting visited []) s =
    moved (record s { runnables = remove_null visited; place = sleeping })
pool_at (collecting visited (none ∷ rest)) s = faults
pool_at (collecting visited (some r ∷ rest)) s =
    join (s.life r)
      (moved (record (set_life r gone s) { place = collecting (visited ++ none ∷ []) rest }))
pool_at sleeping s = moved (record s { place = testing })
pool_at finished s = waits

pub data Turn : Type 0 where
  pool : Turn
  thread : ℕ → Turn
  -- stop () of the pool itself
  stops : Turn

unfoldable pub turn : Turn → System → Turned
unfolding pool_at thread_at
turn pool s = pool_at s.place s
turn (thread i) s = thread_at (s.life i) i s
turn stops s = moved (record s { stop_requested = true })

-- A turn that cannot move is passed over.
abbrev pub keep : System → Turned → System
keep s (moved t) = t
keep s waits = s
keep s faults = s

unfoldable pub run : List Turn → System → System
unfolding turn
run [] s = s
run (t ∷ ts) s = run ts (keep s (turn t s))

-- The constructor of the pool, when the objects 0 … n - 1, which are not in it, have been started.
abbrev pub create : ℕ → (ℕ → Body) → System
create n body = record {
  runnables = [];
  place = testing;
  stop_requested = false;
  life = λ i. if ltb i n then begun (body i) else fresh;
  next = n;
}
