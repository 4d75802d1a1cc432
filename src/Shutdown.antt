-- ===== src/Shutdown.antt =====
-- The shutdown latch: `ShutdownCoordinator` of src/shutdown.rs. A `Notify` of tokio is a parameter. One
-- future of `shutdown_signal` and any number of calls of `trigger`, or of the task of `install`, take
-- their atomic steps in any order.
pub mod Laws
use agent_locksmith.Prelude.{ℕ, suc, ◌≡◌, Bool, true, false, Result, ok, err, leb, if◌then◌else◌}

-- `tokio::sync::Notify`, as its documentation has it: a `Notified` future is woken by every
-- `notify_waiters` that comes after it was made, and by nothing else; `woken` is whether it resolves.
pub record Notify : Type 1 where
  pub State : Type 0
  pub Notified : Type 0
  pub notified : State → Notified
  pub notify_waiters : State → State
  pub woken : State → Notified → Bool
  pub not_yet : (n : State) → woken n (notified n) ≡ false
  pub wakes : (n : State) → woken (notify_waiters n) (notified n) ≡ true
  pub stays : (n : State) (f : Notified) → woken n f ≡ true → woken (notify_waiters n) f ≡ true

-- Where the future of `shutdown_signal` stands: before its first load of the flag, before it makes its
-- `Notified`, before its second load, in its `await`, and after its end.
pub data Waiter (Notified : Type 0) : Type 0 where
  first_load registering finished : Waiter Notified
  second_load : Notified → Waiter Notified
  awaiting : Notified → Waiter Notified

module _ (notify : Notify) where
  -- `triggers` counts the calls that have set the flag and not yet notified, `notified_once` is whether
  -- one has notified.
  pub record Coordinator : Type 0 where
    pub triggered : Bool
    pub waiters : notify.State
    pub triggers : ℕ
    pub notified_once : Bool
    pub signal : Waiter notify.Notified

  abbrev pub step_signal : Bool → notify.State → Waiter notify.Notified → Waiter notify.Notified
  step_signal triggered n first_load = if triggered then finished else registering
  step_signal triggered n registering = second_load (notify.notified n)
  step_signal triggered n (second_load f) = if triggered then finished else awaiting f
  step_signal triggered n (awaiting f) = if notify.woken n f then finished else awaiting f
  step_signal triggered n finished = finished

  -- the next step of the future
  unfoldable pub shutdown_signal : Coordinator → Coordinator
  shutdown_signal c = record c { signal = step_signal c.triggered c.waiters c.signal }

  -- `triggered.store(true, …)`
  unfoldable pub trigger_store : Coordinator → Coordinator
  trigger_store c = record c { triggered = true; triggers = suc c.triggers }

  -- `notify_waiters()` of a call that has set the flag; the others are `n`
  unfoldable pub trigger_notify : Coordinator → ℕ → Coordinator
  trigger_notify c n = record c {
    waiters = notify.notify_waiters c.waiters;
    triggers = n;
    notified_once = true;
  }

  abbrev pub new : notify.State → Coordinator
  new n = record {
    triggered = false;
    waiters = n;
    triggers = 0;
    notified_once = false;
    signal = first_load;
  }

  -- The steps in any order, with how many of them were the future's.
  pub data Interleaving (c : Coordinator) : ℕ → Coordinator → Type 0 where
    start : Interleaving c 0 c
    advances :
        {taken : ℕ} {mid : Coordinator}
        → Interleaving c taken mid
        → Interleaving c (suc taken) (shutdown_signal mid)
    stores :
        {taken : ℕ} {mid : Coordinator}
        → Interleaving c taken mid
        → Interleaving c taken (trigger_store mid)
    notifies :
        {taken : ℕ} {mid : Coordinator} (n : ℕ)
        → Interleaving c taken mid
        → mid.triggers ≡ suc n
        → Interleaving c taken (trigger_notify mid n)

-- `drain_or_timeout` for a task that takes `takes` seconds
pub data DrainTimeout : Type 0 where
  drain_timeout : DrainTimeout

unfoldable pub drain_or_timeout {ℓ} : {A : Type ℓ} → ℕ → ℕ → A → Result A DrainTimeout
drain_or_timeout drain_window takes out =
    if leb takes drain_window then ok out else err drain_timeout
