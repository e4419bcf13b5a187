-- ===== src/SessionManager/Reach.antt =====
-- Every history of the manager: calls, timers that fire and factories that settle, in any order.
use eufy_sdk.Prelude.{ℕ, Option}
use eufy_sdk.SessionManager.{
  Manager, PowerTier, start, register, retain, remove, close, close_all, release, hold,
  bump_command, hold_expires, idle_expires, reset_when_unused,
}
use eufy_sdk.SessionManager.Invariant.{Inv, start-Inv}
use eufy_sdk.SessionManager.Drops.{discard-Inv}
use eufy_sdk.SessionManager.Steps.{
  retain-Inv, register-Inv, release-Inv, hold-Inv, hold_expires-Inv, idle_expires-Inv,
  reset_when_unused-Inv, close_all-Inv,
}
use eufy_sdk.SessionManager.Opens.{
  Open, acquire, register_early, open_resolves, open_fails, acquire-Inv, register_early-Inv,
  open_resolves-Inv, open_fails-Inv,
}

-- One step of a manager. A release may come from any caller at any time, and the power tiers may be
-- others at each step.
pub data Step (m : Manager) : Manager → Type 0 where
  registers : (sn session : ℕ) → Step m (register sn session m)
  acquires : (sn : ℕ) → Step m (acquire sn m).1
  registers_early : (o : Open) (s : ℕ) → Step m (register_early o s m)
  resolves : (o : Open) (s : ℕ) → Step m (open_resolves o s m).1
  fails : (o : Open) → Step m (open_fails o m).1
  retains : (sn : ℕ) → Step m (retain sn m)
  releases : (p : ℕ → Option PowerTier) (sn : ℕ) → Step m (release p sn m).0
  holds : (p : ℕ → Option PowerTier) (sn : ℕ) → Step m (hold p sn m)
  bumps : (p : ℕ → Option PowerTier) (sn : ℕ) → Step m (bump_command p sn m)
  hold_fires : (p : ℕ → Option PowerTier) (t : ℕ) → Step m (hold_expires p t m).0
  idle_fires : (p : ℕ → Option PowerTier) (sn : ℕ) → Step m (idle_expires p sn m).0
  resets : (p : ℕ → Option PowerTier) (sn : ℕ) → Step m (reset_when_unused p sn m).0
  removes : (sn : ℕ) → Step m (remove sn m).0
  closes : (sn : ℕ) → Step m (close sn m).0
  closes_all : Step m (close_all m).0

pub data Reach : Manager → Type 0 where
  here : Reach start
  next : {m n : Manager} → Reach m → Step m n → Reach n

Step-Inv : {m n : Manager} → Step m n → Inv m → Inv n
unfolding remove close
Step-Inv {m} (registers sn s) v = register-Inv sn s m v
Step-Inv {m} (acquires sn) v = acquire-Inv sn m v
Step-Inv {m} (registers_early o s) v = register_early-Inv o s m v
Step-Inv {m} (resolves o s) v = open_resolves-Inv o s m v
Step-Inv {m} (fails o) v = open_fails-Inv o m v
Step-Inv {m} (retains sn) v = retain-Inv sn m v
Step-Inv {m} (releases p sn) v = release-Inv p sn m v
Step-Inv {m} (holds p sn) v = hold-Inv p sn m v
Step-Inv {m} (bumps p sn) v = unfold bump_command in hold-Inv p sn m v
Step-Inv {m} (hold_fires p t) v = hold_expires-Inv p t m v
Step-Inv {m} (idle_fires p sn) v = idle_expires-Inv p sn m v
Step-Inv {m} (resets p sn) v = reset_when_unused-Inv p sn m v
Step-Inv {m} (removes sn) v = discard-Inv sn m v
Step-Inv {m} (closes sn) v = discard-Inv sn m v
Step-Inv {m} closes_all v = close_all-Inv m v

-- In every reachable state, whoever releases whatever and however the stations are powered: each hold
-- timer that is live belongs to the entry that is on the map under its serial, which lists it, and each
-- that an entry lists is live, its own, and listed once; a station's idle timer is pending only where
-- nothing is retained; and a deferred reset is pending only while more is retained than there are holds.
pub Reach-Inv : {m : Manager} → Reach m → Inv m
Reach-Inv here = start-Inv
Reach-Inv (next r s) = Step-Inv s (Reach-Inv r)
