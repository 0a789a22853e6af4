-- ===== src/TimerPtr.antt =====
-- A member `boost::asio::basic_waitable_timer<TheClock> *` of the activities, with what C++ leaves
-- undefined: a call through a pointer that owns no timer, and a second delete.
use modem_tester.Common.{Bool, true, false, Option, none, some}

-- Not initialised, null, the owner of a timer, or the address of a deleted one.
pub data TimerPtr : Type 0 where
  wild null live freed : TimerPtr

-- `p != nullptr`; an uninitialised member may compare either way, and is never compared.
abbrev pub is_set : TimerPtr → Bool
is_set null = false
is_set _ = true

-- `delete p`
abbrev pub delete : TimerPtr → Option TimerPtr
delete null = some null
delete live = some freed
delete wild = none
delete freed = none

-- `p->cancel ()`, `p->expires_from_now (…)` and `p->async_wait (…)`
abbrev pub use_timer : TimerPtr → Option TimerPtr
use_timer live = some live
use_timer _ = none
