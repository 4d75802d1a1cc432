-- ===== src/Shutdown/Laws.antt =====
-- The shutdown signal arrives, and only after a trigger: about src/shutdown.rs.
use agent_locksmith.Prelude.{
  ℕ, suc, subst, ◌≡◌, ◌≤◌, ◌-◌, ◌⊎◌, refl, ap, ◌∙◌, Bool, true, false, arith, Bool-cases, inl, inr,
}
use agent_locksmith.Shutdown.{
  Notify, Waiter, first_load, registering, finished, second_load, awaiting, Coordinator,
  step_signal, shutdown_signal, trigger_store, trigger_notify, new, Interleaving, start, advances,
  stores, notifies,
}

-- how many steps the future still needs once a call has notified
abbrev pub left : {N : Type 0} → Waiter N → ℕ
left first_load = 1
left registering = 2
left (second_load f) = 1
left (awaiting f) = 1
left finished = 0

left-zero : {N : Type 0} (w : Waiter N) → left w ≡ 0 → w ≡ finished
left-zero first_load h = absurd (omega arith)
left-zero registering h = absurd (omega arith)
left-zero (second_load f) h = absurd (omega arith)
left-zero (awaiting f) h = absurd (omega arith)
left-zero finished h = refl

left-le : {N : Type 0} (w : Waiter N) → left w ≤ 2
left-le first_load = omega arith
left-le registering = omega arith
left-le (second_load f) = omega arith
left-le (awaiting f) = omega arith
left-le finished = omega arith

module _ (notify : Notify) where
  -- a future that the last `notify_waiters` came before, or that is woken
  abbrev Held : notify.State → Waiter notify.Notified → Type 0
  Held n first_load = Unit
  Held n registering = Unit
  Held n (second_load f) = (f ≡ notify.notified n) ⊎ (notify.woken n f ≡ true)
  Held n (awaiting f) = (f ≡ notify.notified n) ⊎ (notify.woken n f ≡ true)
  Held n finished = Unit

  -- what holds before the flag is set
  abbrev Unwoken : notify.State → Waiter notify.Notified → Type 0
  Unwoken n first_load = Unit
  Unwoken n registering = Unit
  Unwoken n (second_load f) = f ≡ notify.notified n
  Unwoken n (awaiting f) = f ≡ notify.notified n
  Unwoken n finished = ⊥

  -- what holds after a call has notified
  abbrev Called : notify.State → Waiter notify.Notified → Type 0
  Called n first_load = Unit
  Called n registering = Unit
  Called n (second_load f) = Unit
  Called n (awaiting f) = notify.woken n f ≡ true
  Called n finished = Unit

  record Inv (c : Coordinator notify) : Type 0 where
    pub held : Held c.waiters c.signal
    pub idle : c.triggered ≡ false → (c.triggers ≡ 0) × (c.notified_once ≡ false)
    pub unwoken : c.triggered ≡ false → Unwoken c.waiters c.signal
    pub called : c.notified_once ≡ true → Called c.waiters c.signal

  step-Held :
      (t : Bool) (n : notify.State) (w : Waiter notify.Notified)
      → Held n w
      → Held n (step_signal notify t n w)
  step-Held true n first_load h = tt
  step-Held false n first_load h = tt
  step-Held t n registering h = inl refl
  step-Held true n (second_load f) h = tt
  step-Held false n (second_load f) h = h
  step-Held t n (awaiting f) h = elim (Bool-cases (notify.woken n f)) [
    | inl y ↦ rw y tt
    | inr e ↦ rw e h
  ]
  step-Held t n finished h = tt

  step-Unwoken :
      (n : notify.State) (w : Waiter notify.Notified)
      → Unwoken n w
      → Unwoken n (step_signal notify false n w)
  step-Unwoken n first_load h = tt
  step-Unwoken n registering h = refl
  step-Unwoken n (second_load f) h = h
  step-Unwoken n (awaiting f) h = rw (ap (notify.woken n) h ∙ notify.not_yet n) h
  step-Unwoken n finished h = h

  step-Called :
      (n : notify.State) (w : Waiter notify.Notified)
      → Called n w
      → Called n (step_signal notify true n w) × (left (step_signal notify true n w) ≤ left w - 1)
  step-Called n first_load h = (tt, omega arith)
  step-Called n registering h = (tt, omega arith)
  step-Called n (second_load f) h = (tt, omega arith)
  step-Called n (awaiting f) h = rw h (tt, omega arith)
  step-Called n finished h = (tt, omega arith)

  wake :
      (n : notify.State) (w : Waiter notify.Notified)
      → Held n w
      → Held (notify.notify_waiters n) w × Called (notify.notify_waiters n) w
  wake n first_load h = (tt, tt)
  wake n registering h = (tt, tt)
  wake n (second_load f) (inl e) = (inr (rw e (notify.wakes n)), tt)
  wake n (second_load f) (inr y) = (inr (notify.stays n f y), tt)
  wake n (awaiting f) (inl e) = (inr (rw e (notify.wakes n)), rw e (notify.wakes n))
  wake n (awaiting f) (inr y) = (inr (notify.stays n f y), notify.stays n f y)
  wake n finished h = (tt, tt)

  triggered_of : (c : Coordinator notify) → Inv c → c.notified_once ≡ true → c.triggered ≡ true
  triggered_of c inv once = elim (Bool-cases c.triggered) [
    | inl y ↦ y
    | inr e ↦ let (_, never) = inv.idle e in ground arith
  ]

  step-Inv : (c : Coordinator notify) → Inv c → Inv (shutdown_signal notify c)
  unfolding shutdown_signal
  step-Inv c inv = record {
    held = step-Held c.triggered c.waiters c.signal inv.held;
    idle = inv.idle;
    unwoken = λ off. rw off (step-Unwoken c.waiters c.signal (inv.unwoken off));
    called =
        λ once. rw (triggered_of c inv once) (step-Called c.waiters c.signal (inv.called once)).0;
  }

  store-Inv : (c : Coordinator notify) → Inv c → Inv (trigger_store notify c)
  unfolding trigger_store
  store-Inv c inv = record {
    held = inv.held;
    idle = λ off. ground arith;
    unwoken = λ off. ground arith;
    called = inv.called;
  }

  notify-Inv :
      (c : Coordinator notify) (n : ℕ)
      → c.triggers ≡ suc n
      → Inv c
      → Inv (trigger_notify notify c n)
  unfolding trigger_notify
  notify-Inv c n some_call inv =
      let (held, called) = wake c.waiters c.signal inv.held in
      record {
        held = held;
        idle = λ off. let (nobody, _) = inv.idle off in ground arith;
        unwoken =
            λ off. let (nobody, _) = inv.idle off in absurd (omega (arith, nobody, some_call));
        called = λ once. called;
      }

  Interleaving-Inv :
      (c c' : Coordinator notify) (k : ℕ) → Inv c → Interleaving notify c k c' → Inv c'
  Interleaving-Inv c c' k inv start = inv
  Interleaving-Inv c c' k inv (advances {mid = m} past) =
      step-Inv m (Interleaving-Inv c m _ inv past)
  Interleaving-Inv c c' k inv (stores {mid = m} past) =
      store-Inv m (Interleaving-Inv c m _ inv past)
  Interleaving-Inv c c' k inv (notifies {mid = m} n past h) =
      notify-Inv m n h (Interleaving-Inv c m _ inv past)

  new-Inv : (n : notify.State) → Inv (new notify n)
  new-Inv n = record {
    held = tt;
    idle = λ off. (refl, refl);
    unwoken = λ off. tt;
    called = λ once. tt;
  }

  counts :
      (c c' : Coordinator notify) (k : ℕ)
      → Inv c
      → c.notified_once ≡ true
      → Interleaving notify c k c'
      → (c'.notified_once ≡ true) × (left c'.signal ≤ 2 - k)
  unfolding shutdown_signal trigger_store trigger_notify
  counts c c' k inv once start = (once, left-le c.signal)
  counts c c' k inv once (advances {taken = j} {mid = m} past) =
      let (on, less) = counts c m j inv once past in
      let there = Interleaving-Inv c m j inv past in
      (
        on,
        rw (triggered_of m there on) (
            let (_, fewer) = step-Called m.waiters m.signal (there.called on) in
            omega (arith, less, fewer)),
      )
  counts c c' k inv once (stores {mid = m} past) = counts c m k inv once past
  counts c c' k inv once (notifies {mid = m} n past h) =
      let (_, less) = counts c m k inv once past in (refl, less)

-- Once one call of `trigger` has notified, the future of `shutdown_signal` ends at its second step at
-- the latest, in whatever order its steps and those of any number of calls have come before and come in
-- between; no wake-up is lost.
pub shutdown_signal-arrives :
    (notify : Notify) (n : notify.State) (c c' : Coordinator notify) (before taken : ℕ)
    → Interleaving notify (new notify n) before c
    → c.notified_once ≡ true
    → Interleaving notify c taken c'
    → 2 ≤ taken
    → c'.signal ≡ finished
shutdown_signal-arrives notify n c c' before taken past once later enough =
    let inv = Interleaving-Inv notify (new notify n) c before (new-Inv notify n) past in
    let (_, few) = counts notify c c' taken inv once later in left-zero c'.signal (omega arith)

-- The future of `shutdown_signal` never ends before a call has set the flag.
pub finished-triggered :
    (notify : Notify) (n : notify.State) (c : Coordinator notify) (taken : ℕ)
    → Interleaving notify (new notify n) taken c
    → c.signal ≡ finished
    → c.triggered ≡ true
finished-triggered notify n c taken past over =
    let inv = Interleaving-Inv notify (new notify n) c taken (new-Inv notify n) past in
    elim (Bool-cases c.triggered) [
      | inl y ↦ y
      | inr off ↦ absurd (subst (Unwoken notify c.waiters) over (inv.unwoken off))
    ]
