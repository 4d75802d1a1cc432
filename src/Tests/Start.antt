-- ===== src/Tests/Start.antt =====
-- The start and the end of the daemon: environment variables, and the shutdown latch.
use agent_locksmith.Prelude.{
  ℕ, suc, ◌≡◌, refl, true, false, Option, none, some, arith, ltb, if◌then◌else◌, Bool-cases, inl,
  inr, subst,
}
use agent_locksmith.Text.{Text, codes, ◌==◌}
use agent_locksmith.Text.Split.{Free}
use agent_locksmith.Config.{expand_env_vars}
use agent_locksmith.Config.Expand.{braces, Braceless, IsExpanded, expand_env_vars-IsExpanded}
use agent_locksmith.Shutdown.{
  Notify, Coordinator, finished, new, start, advances, stores, notifies, shutdown_signal,
  trigger_store, trigger_notify,
}
use agent_locksmith.Shutdown.Laws.{shutdown_signal-arrives}

abbrev env : Text → Option Text
env name = if name == codes "PORT" then some (codes "9200") else none

braceless : Braceless env
braceless name value h = elim (Bool-cases (name == codes "PORT")) [
  | inl same ↦ let e : codes "9200" ≡ value = ground arith in subst (Free b'}') e (ground arith)
  | inr other ↦ ground arith
]

expand_env_vars-IsExpanded_example :
    (t : Text) × (expand_env_vars env (suc (braces (codes "port: ${PORT}"))) (codes "port: ${PORT}")
      ≡ some t)
    × IsExpanded t
expand_env_vars-IsExpanded_example =
    expand_env_vars-IsExpanded env (codes "port: ${PORT}") braceless

not_below : (n : ℕ) → ltb n n ≡ false
not_below n = ground arith

below_next : (n : ℕ) → ltb n (suc n) ≡ true
below_next n = ground arith

stays_below : (n f : ℕ) → ltb f n ≡ true → ltb f (suc n) ≡ true
stays_below n f h = ground arith

-- a future is the number of notifications before it
abbrev notify : Notify
notify = record {
  State = ℕ;
  Notified = ℕ;
  notified = λ n. n;
  notify_waiters = suc;
  woken = λ n f. ltb f n;
  not_yet = not_below;
  wakes = below_next;
  stays = stays_below;
}

-- the future has made its `Notified` when the call sets the flag and notifies
abbrev called : Coordinator notify
called =
    trigger_notify notify
      (trigger_store notify (shutdown_signal notify (shutdown_signal notify (new notify 0)))) 0

shutdown_signal-arrives_example :
    (shutdown_signal notify (shutdown_signal notify called)).signal ≡ finished
unfolding shutdown_signal trigger_store trigger_notify
shutdown_signal-arrives_example =
    shutdown_signal-arrives notify 0 called (shutdown_signal notify (shutdown_signal notify called))
      2 2 (notifies 0 (stores (advances (advances start))) refl) refl (advances (advances start))
      (omega arith)
