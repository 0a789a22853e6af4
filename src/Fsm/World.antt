-- ===== src/Fsm/World.antt =====
-- The state that the state objects of src/BaseFSM.h share, and the calls that they make on asio and
-- on the threads (the interface of src/AISO.h), as a trace with the newest call first. A state
-- object is named by the value of its enumerator in MasterStateId_t or RemoteStateId_t.
use modem_tester.Common.{ℕ, ◌==◌, ◌≡◌, refl, Bool, false, if◌then◌else◌, List, [], ◌∷◌, ◌++◌}
use mathlib.Core.List.{reverse}
use modem_tester.Events.{Event}

pub data Effect : Type 0 where
  -- the methods of AISOBase; a read names the object that is called back, and the buffer's size
  write write_some : List ℕ → Effect
  async_read_some async_read : ℕ → ℕ → Effect
  cancel : Effect
  -- a timer created and waited for (object, milliseconds), and one canceled and deleted
  wait_timer : ℕ → ℕ → Effect
  cancel_timer : ℕ → Effect
  -- Runnable::start and Runnable::stop of an object's activity
  start_runnable stop_runnable : ℕ → Effect
  -- _wrongEventHandler
  wrong_event : Event → Effect

pub record World : Type 0 where
  -- _ioStream != nullptr
  pub io_stream : Bool
  -- _timeout, in milliseconds
  pub timeout : ℕ
  -- _timer, _runnable and _factory of each state object: not nullptr
  pub timer : ℕ → Bool
  pub runnable : ℕ → Bool
  pub factory : ℕ → Bool
  -- the objects whose reads were issued, are not canceled and have not completed, newest first
  pub reads : List ℕ
  pub trace : List Effect

-- Static storage: every pointer is null, and `_timeout` is one second.
abbrev pub initial : World
initial = record {
  io_stream = false;
  timeout = 1000;
  timer = λ k. false;
  runnable = λ k. false;
  factory = λ k. false;
  reads = [];
  trace = [];
}

abbrev pub emit : Effect → World → World
emit e w = record w { trace = e ∷ w.trace }

abbrev pub update : (ℕ → Bool) → ℕ → Bool → ℕ → Bool
update f k b j = if j == k then b else f j

-- What a handler ends in: it returns, it calls ::exit with a status, or it faults (a failed assert
-- or a null pointer that is read).
pub data Result (A : Type 0) : Type 0 where
  ok : A → Result A
  quit : ℕ → World → Result A
  fault : Result A

infixl 5 ◌>>=◌
abbrev pub ◌>>=◌ : {A B : Type 0} → Result A → (A → Result B) → Result B
ok a >>= f = f a
quit c w >>= f = quit c w
fault >>= f = fault

-- The handler does not fault, and where it returns the property holds.
abbrev pub Holds : {A : Type 0} → (A → Type 0) → Result A → Type 0
Holds P (ok a) = P a
Holds P (quit c w) = Unit
Holds P fault = ⊥

pub >>=-Holds :
    {A B : Type 0} (P : A → Type 0) (Q : B → Type 0) (m : Result A) (f : A → Result B)
    → Holds P m
    → ((a : A) → P a → Holds Q (f a))
    → Holds Q (m >>= f)
>>=-Holds P Q (ok a) f h k = k a h
>>=-Holds P Q (quit c w) f h k = tt
>>=-Holds P Q fault f h k = absurd h

-- The handler returns, and the property holds.
abbrev pub Returns : {A : Type 0} → (A → Type 0) → Result A → Type 0
Returns P (ok a) = P a
Returns P (quit c w) = ⊥
Returns P fault = ⊥

pub Returns-ok :
    {A : Type 0} (P : A → Type 0) (r : Result A) → Returns P r → (a : A) × (r ≡ ok a) × P a
Returns-ok P (ok a) h = (a, refl, h)
Returns-ok P (quit c w) h = absurd h
Returns-ok P fault h = absurd h

pub >>=-Returns :
    {A B : Type 0} (P : A → Type 0) (Q : B → Type 0) (m : Result A) (f : A → Result B)
    → Returns P m
    → ((a : A) → P a → Returns Q (f a))
    → Returns Q (m >>= f)
>>=-Returns P Q (ok a) f h k = k a h
>>=-Returns P Q (quit c w) f h k = absurd h
>>=-Returns P Q fault f h k = absurd h

-- The bytes that a trace has put on the line, newest first.
unfoldable pub written : List Effect → List ℕ
written [] = []
written (write bs ∷ t) = reverse bs ++ written t
written (write_some bs ∷ t) = reverse bs ++ written t
written (_ ∷ t) = written t
