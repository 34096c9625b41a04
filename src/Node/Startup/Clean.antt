-- ===== src/Node/Startup/Clean.antt =====
-- What `Run` leaves behind: its listener and its workers.
use distributed_p2p_ledger.Base.{
  ℕ, ◌+◌, ◌==◌, ◌≤◌, ◌≡◌, refl, inl, inr, not, ◌&&◌, ◌||◌, Option, none, some, if◌then◌else◌, Bool,
  Bool-cases, true, false, List, [], ◌∷◌, arith, Result, ok, err,
}
use distributed_p2p_ledger.Storage.ChainFile.{Disk}
use distributed_p2p_ledger.Gossip.{Engine}
use distributed_p2p_ledger.Node.Config.{NodeConfig}
use distributed_p2p_ledger.Node.Startup.{
  World, Action, binds, starts_sync, starts_miner, serves, shuts_server, closes_server,
  cancels_workers, awaits_workers, start_engine, stop_actions, run_engine, run_started, run_node,
  run_node-checks, run_node-starts,
}

-- Whether a listener was bound, whether it is open, whether connections of clients may be open, how many
-- workers may run, and whether their context is canceled.
pub record Resources : Type 0 where
  pub bound : Bool
  pub listening : Bool
  pub connected : Bool
  pub workers : ℕ
  pub canceled : Bool

abbrev pub nothing : Resources
nothing = record {
  bound = false;
  listening = false;
  connected = false;
  workers = 0;
  canceled = false;
}

-- What the calls of net, net/http, context and sync do. A worker is only sure to end once its context is
-- canceled: a Wait for it before that does not return, which is `none`. Shutdown closes the listener
-- first; connections that are in use when its time is over stay open until Close.
unfoldable pub perform : Action → Resources → Option Resources
perform binds r = some (record r { bound = true; listening = true })
perform starts_sync r = some (record r { workers = r.workers + 1 })
perform starts_miner r = some (record r { workers = r.workers + 1 })
perform serves r = some (record r { connected = true })
perform (shuts_server done) r =
    some (record r { listening = false; connected = not done && r.connected })
perform closes_server r = some (record r { listening = false; connected = false })
perform cancels_workers r = some (record r { canceled = true })
perform awaits_workers r =
    if r.canceled || r.workers == 0 then some (record r { workers = 0 }) else none

-- There are workers only behind a bound listener, and at most two.
pub record IsOrderly (r : Resources) : Type 0 where
  pub bound_first : r.bound ≡ false → r.workers ≡ 0
  pub few : r.workers ≤ 2

-- Nothing is open, and nothing runs.
pub record IsDown (r : Resources) : Type 0 where
  pub closed : r.listening ≡ false
  pub disconnected : r.connected ≡ false
  pub ended : r.workers ≡ 0

-- From here on no action waits for ever, all is orderly, and at the end nothing is open and nothing runs.
abbrev pub EndsClean : List Action → Option Resources → Type 0
EndsClean actions none = ⊥
EndsClean [] (some r) = IsOrderly r × IsDown r
EndsClean (a ∷ actions) (some r) = IsOrderly r × EndsClean actions (perform a r)

abbrev pub IsClean : List Action → Type 0
IsClean actions = EndsClean actions (some nothing)

nothing-IsOrderly : IsOrderly nothing
nothing-IsOrderly = record { bound_first = λ h. refl; few = omega arith }

empty-IsClean : IsClean []
empty-IsClean = (nothing-IsOrderly, record { closed = refl; disconnected = refl; ended = refl })

bound-IsOrderly : (r : Resources) → r.bound ≡ true → r.workers ≤ 2 → IsOrderly r
bound-IsOrderly r b few = record { bound_first = λ h. absurd cc; few = few }

-- The state behind `serves`.
abbrev up : Resources
up = record { bound = true; listening = true; connected = true; workers = 2; canceled = false }

stop_actions-EndsClean : (b : Bool) → EndsClean (stop_actions b) (some up)
unfolding perform stop_actions
stop_actions-EndsClean true = (
  bound-IsOrderly _ refl (omega arith),
  (
    bound-IsOrderly _ refl (omega arith),
    (
      bound-IsOrderly _ refl (omega arith),
      (
        bound-IsOrderly _ refl (omega arith),
        record { closed = refl; disconnected = refl; ended = refl },
      ),
    ),
  ),
)
stop_actions-EndsClean false = (
  bound-IsOrderly _ refl (omega arith),
  (
    bound-IsOrderly _ refl (omega arith),
    (
      bound-IsOrderly _ refl (omega arith),
      (
        bound-IsOrderly _ refl (omega arith),
        (
          bound-IsOrderly _ refl (omega arith),
          record { closed = refl; disconnected = refl; ended = refl },
        ),
      ),
    ),
  ),
)

serving-IsClean :
    (b : Bool) → IsClean (binds ∷ starts_sync ∷ starts_miner ∷ serves ∷ stop_actions b)
unfolding perform
serving-IsClean b = (
  nothing-IsOrderly,
  (
    bound-IsOrderly _ refl (omega arith),
    (
      bound-IsOrderly _ refl (omega arith),
      (bound-IsOrderly _ refl (omega arith), stop_actions-EndsClean b),
    ),
  ),
)

run_engine-IsClean : (w : World) (c : NodeConfig) (g : Engine) → IsClean (run_engine w c g).actions
unfolding run_engine
run_engine-IsClean w c g = elim (Bool-cases w.listens) [
  | inl h ↦ rw (h, run_engine) (serving-IsClean w.shuts_down)
  | inr h ↦ rw (h, run_engine) empty-IsClean
]

run_started-IsClean :
    (w : World) (c : NodeConfig) (r : Result Engine × Disk) → IsClean (run_started w c r).actions
unfolding run_started
run_started-IsClean w c (err e, disk) = empty-IsClean
run_started-IsClean w c (ok g, disk) = run_engine-IsClean w c g

-- Whatever the world answers, `Run` starts its workers only behind a bound listener and has at
-- most two of them, it waits for them only when their context is canceled, so that it does not
-- wait for ever, and when it returns the listener is closed, no connection is open, also if the
-- shutdown took too long, and no worker runs.
pub run_node-IsClean :
    (w : World) (c : NodeConfig) (disk : Disk) → IsClean (run_node w c disk).actions
run_node-IsClean w c disk = elim (Bool-cases c.healthcheck) [
  | inl h ↦ rw (run_node-checks w c disk h) empty-IsClean
  | inr h ↦ rw (run_node-starts w c disk h) (run_started-IsClean w c (start_engine w c disk))
]
