-- ===== src/Mock/Server.antt =====
-- The mutex around a context, `Arc<Mutex<Context>>`, as one request at a time meets it. A guard that
-- is dropped by a panic poisons the mutex, after which `lock().unwrap()` panics; a lock taken while
-- its own request holds it is never granted, nor is any after that.
use vit_testing.Mock.Run.{Run, returns, panics, running}

pub data Lock : Type 0 where
  unlocked locked poisoned : Lock

pub record Server (X : Type 0) : Type 0 where
  pub context : X
  pub lock : Lock

-- How a handler ends: with a value, a rejection, a panic, or not.
pub data Outcome (E A : Type 0) : Type 0 where
  done : A → Outcome E A
  rejects : E → Outcome E A
  crashes : Outcome E A
  hangs : Outcome E A

abbrev pub Handler : Type 0 → Type 0 → Type 0 → Type 0
Handler X E A = Server X → Outcome E A × Server X

module _ {X E A B : Type 0} where
  abbrev pub continue : Outcome E A → (A → Handler X E B) → Handler X E B
  continue (done a) f s = f a s
  continue (rejects e) f s = (rejects e, s)
  continue crashes f s = (crashes, s)
  continue hangs f s = (hangs, s)

  infixl 5 ◌>>=◌ ◌>>◌
  abbrev pub ◌>>=◌ : Handler X E A → (A → Handler X E B) → Handler X E B
  ◌>>=◌ m f s = let (r, s') = m s in continue r f s'

  abbrev pub ◌>>◌ : Handler X E A → Handler X E B → Handler X E B
  m >> n = m >>= λ _. n

module _ {X E A : Type 0} where
  abbrev pub pure : A → Handler X E A
  pure a s = (done a, s)

  abbrev pub fail : E → Handler X E A
  fail e s = (rejects e, s)

  -- A panic outside any guard.
  abbrev pub crash : Handler X E A
  crash s = (crashes, s)

  under_guard : X → Run (A × X) → Outcome E A × Server X
  under_guard x (returns (a, x')) = (done a, record { context = x'; lock = unlocked })
  under_guard x panics = (crashes, record { context = x; lock = poisoned })
  under_guard x running = (hangs, record { context = x; lock = locked })

  -- What a panic had changed is no longer seen, as the mutex is poisoned.
  with_lock_at : Lock → (X → Run (A × X)) → Handler X E A
  with_lock_at unlocked f s = under_guard s.context (f s.context)
  with_lock_at locked f s = (hangs, s)
  with_lock_at poisoned f s = (crashes, s)

  -- One statement that locks, works on the context and drops its guard.
  unfoldable pub with_lock : (X → Run (A × X)) → Handler X E A
  unfolding with_lock_at under_guard
  with_lock f s = with_lock_at s.lock f s

  -- What is done through a guard that a variable holds.
  abbrev pub held : (X → A × X) → Handler X E A
  held f s = let (a, x) = f s.context in (done a, record s { context = x })

module _ {X E : Type 0} where
  acquire_at : Lock → Handler X E (Unit {0})
  acquire_at unlocked s = (done tt, record s { lock = locked })
  acquire_at locked s = (hangs, s)
  acquire_at poisoned s = (crashes, s)

  -- A guard that a variable holds: taken here, and dropped by `release`.
  unfoldable pub acquire : Handler X E (Unit {0})
  unfolding acquire_at
  acquire s = acquire_at s.lock s

  abbrev pub release : Handler X E (Unit {0})
  release s = (done tt, record s { lock = unlocked })
