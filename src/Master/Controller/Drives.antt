-- ===== src/Master/Controller/Drives.antt =====
-- The controller and the machine that it drives (src/master/MasterController.cpp,
-- src/master/MasterFSM.cpp): periodicAction looks at the state of the machine, and the events that it
-- hands to the pool (src/DispatchingRunnable.h) are dispatched before anything else happens.
use modem_tester.Common.{
  ℕ, ◌≡◌, ◌≢◌, refl, true, ◌⊎◌, inl, inr, List, [], ◌∷◌, ◌++◌, arith, subst, Bool-cases, suc, zero,
  ◌∙◌,
}
use modem_tester.Events.{Event, availability_mode_command, end_mode_command, end_test}
use modem_tester.Fsm.World.{Result, ok, ◌>>=◌, Holds, Returns, Returns-ok}
use modem_tester.Fsm.Library.{TinyFsm}
use modem_tester.Master.{MasterState, Machine, idle, availability_mode, dispatch}
use modem_tester.Master.Invariant.{Sound, dispatch-Sound}
use modem_tester.Master.Protocol.{next, moves, Follows, master-dispatch-Follows}
use modem_tester.Master.Controller.{Controller, periodic_action}

module _ (lib : TinyFsm MasterState) where
  -- The events of a list, the newest of which is the first, are dispatched in their order.
  unfoldable dispatch_all : List Event → Machine → Result Machine
  unfolding dispatch
  dispatch_all [] m = ok m
  dispatch_all (e ∷ es) m = dispatch_all es m >>= dispatch lib e

  -- The timer of the controller expires: what it posts is dispatched.
  unfoldable pub tick : Controller → Machine → Result (Controller × Machine)
  unfolding periodic_action dispatch_all
  tick c m =
      let c' = periodic_action m.current (record c { dispatched = [] }) in
      dispatch_all c'.dispatched m >>= λ n. ok (c', n)

  -- The controller has reason to post nothing: it is trying an availability test, or the machine is
  -- neither idle nor in AvailabilityMode.
  abbrev pub Waits : Controller → MasterState → Type 0
  Waits c q = (c.trying_availability ≡ true) ⊎ ((q ≢ idle) × (q ≢ availability_mode))

  -- Nothing was posted, for a reason, and the machine is as it was; or one event was posted that the machine does
  -- not ignore in its state, and the machine has moved with it.
  abbrev pub Drives : Controller → Machine → Controller × Machine → Type 0
  Drives before m (c, n) =
      Sound n
      × (((c.dispatched ≡ []) × (n ≡ m) × Waits before m.current)
          ⊎ ((e : Event) × (c.dispatched ≡ e ∷ [])
              × (moves m.current e ≡ true)
              × (n.current ≡ next m.current e)))

  -- Which event periodicAction posts, if any.
  Posts : Controller → MasterState → List Event → Type 0
  Posts c q es =
      ((es ≡ []) × Waits c q) ⊎ ((e : Event) × (es ≡ e ∷ []) × (moves q e ≡ true) × (e ≢ end_test))

  action-Posts :
      (q : MasterState) (c : Controller)
      → Posts c q (periodic_action q (record c { dispatched = [] })).dispatched
  unfolding periodic_action Posts
  action-Posts idle c = elim (Bool-cases c.trying_availability) [
    | inl e ↦ inl (rw e refl, inl e)
    | inr e ↦ inr (availability_mode_command, rw e refl, refl, λ h. cc h)
  ]
  action-Posts availability_mode c = elim (Bool-cases c.trying_availability) [
    | inl e ↦ inl (rw e refl, inl e)
    | inr e ↦ inr (end_mode_command, rw e refl, refl, λ h. cc h)
  ]
  action-Posts q c = inl (refl, inr (λ h. cc h, λ h. cc h))

  dispatch_all-Drives :
      (es : List Event) (before c : Controller) (m : Machine)
      → c.dispatched ≡ es
      → Posts before m.current es
      → Sound m
      → Returns (Drives before m) (dispatch_all es m >>= λ n. ok (c, n))
  unfolding dispatch_all Posts
  dispatch_all-Drives es before c m d (inl (e, w)) s =
      rw (e, dispatch_all) (s, inl (d ∙ e, refl, w))
  dispatch_all-Drives es before c m d (inr (ev, e, mv, ne)) s =
      let (n, eq, f) =
        Returns-ok (Follows m.current ev m.world) (dispatch lib ev m)
          (master-dispatch-Follows lib ev m s ne) in
      let sound : Sound n = subst (Holds Sound) eq (dispatch-Sound lib ev m s) in
      rw (e, dispatch_all, eq) (sound, inr (ev, d ∙ e, mv, f.moved))

  -- The machine is sound. Whatever the controller remembers, when its timer expires it posts one event
  -- that the machine does not ignore in its state, which is handled to the end, and the machine moves
  -- as its table says and is sound; or it posts nothing and the machine stays as it is, which happens
  -- only if the controller is trying an availability test, or the machine is neither idle nor in
  -- AvailabilityMode.
  pub controller-Drives : (c : Controller) (m : Machine) → Sound m → Returns (Drives c m) (tick c m)
  unfolding tick
  controller-Drives c m s =
      dispatch_all-Drives _ c (periodic_action m.current (record c { dispatched = [] })) m refl
        (action-Posts m.current c) s

  -- The timer expires n times, and nothing else happens; also what is posted, the newest first.
  unfoldable pub ticks : ℕ → Controller → Machine → Result (List Event × Controller × Machine)
  unfolding tick
  ticks zero c m = ok ([], c, m)
  ticks (suc n) c m =
      tick c m >>= λ (d, k). ticks n d k >>= λ (posted, c2, m2). ok (posted ++ d.dispatched, c2, m2)

  posts_nothing :
      (c d : Controller) (m : Machine)
      → periodic_action m.current (record c { dispatched = [] }) ≡ d
      → d.dispatched ≡ []
      → tick c m ≡ ok (d, m)
  unfolding tick dispatch_all
  posts_nothing c d m p e = rw (p, e, dispatch_all) refl

  tries_on :
      (c : Controller) (q : MasterState)
      → q ≡ idle
      → c.trying_availability ≡ true
      → (d : Controller) × (periodic_action q (record c { dispatched = [] }) ≡ d)
        × (d.dispatched ≡ [])
        × (d.trying_availability ≡ true)
  unfolding periodic_action
  tries_on c q i t =
      let d = periodic_action q (record c { dispatched = [] }) in
      (d, refl, ground arith, ground arith)

  -- The controller is trying an availability test, and the machine is idle, as after a test that ended
  -- before the controller saw AvailabilityMode. However often its timer expires, no event is posted at
  -- any of the expiries, the machine stays as it is, and the controller goes on trying.
  pub controller-stuck :
      (n : ℕ) (c : Controller) (m : Machine)
      → m.current ≡ idle
      → c.trying_availability ≡ true
      → (d : Controller) × (ticks n c m ≡ ok ([], d, m)) × (d.trying_availability ≡ true)
  unfolding ticks
  controller-stuck zero c m i t = (c, refl, t)
  controller-stuck (suc n) c m i t =
      let (d, p, e, t') = tries_on c m.current i t in
      let (last, r, t'') = controller-stuck n d m i t' in
      (last, rw (posts_nothing c d m p e, ticks, r, e) refl, t'')
