-- ===== src/AsyncRouter.antt =====
-- class AsyncRouter of flinter/linkage/async_router.h: calls go round the connections of an
-- ObjectMap, and wait in a TimeoutPool for their answers. A key, a sequence number, a task, a track
-- and a context are numbers: the last three are addresses. `created` is the context that
-- CreateConnection() gives, which is none where the handler refuses. A context's key is the key it was
-- created for, and no one changes it.
pub mod Calls
pub mod Pending
mod Tests
use flinter.Base.{ℕ, Bool, true, false, ◌==◌, if◌then◌else◌, Option, none, some, List, [], ◌∷◌}
use flinter.Base.Int.{ℤ, pos, ltb_ℤ}
use flinter.ObjectMap.{ObjectMap, add, erase_key, erase_all, release, get_next, set_all, may_return}
use flinter.ObjectMap
use flinter.TimeoutPool.{TimeoutPool, insert, take_out, check}
use flinter.TimeoutPool

-- AsyncRouter::Track; `key` is that of `_context`.
pub record Track : Type 0 where
  pub seq : ℕ
  pub task : ℕ
  pub key : ℕ
  pub context : ℕ

-- The fields of the router, what stands at the address of each track, and what was done to the
-- handler and the tasks: the calls of RouteHandler::OnTimeout(), and the tasks deleted.
pub record AsyncRouter : Type 0 where
  pub map : ObjectMap
  pub timeout : TimeoutPool
  pub tracks : ℕ → Track
  pub clearing : Bool
  pub reported : List (ℕ × ℕ)
  pub deleted_tasks : List ℕ

abbrev pub update : (ℕ → Track) → ℕ → Track → ℕ → Track
update tracks p t q = if p == q then t else tracks q

-- The constructor.
unfoldable pub create : ℤ → AsyncRouter
create default_timeout = record {
  map = record {
    live = [];
    drop = [];
    ptr = none;
    made = [];
    destroyed = [];
    sleeping = 0;
    woken = 0;
  };
  timeout = record {
    default_timeout = if ltb_ℤ (pos 0) default_timeout then default_timeout else pos 5000000000;
    auto_release = true;
    pool = [];
    deleted = [];
  };
  tracks = λ _. record { seq = 0; task = 0; key = 0; context = 0 };
  clearing = false;
  reported = [];
  deleted_tasks = [];
}

-- OnTimeout(), which the destructor of a track calls that is not done.
unfoldable pub on_timeout : ℕ → AsyncRouter → AsyncRouter
on_timeout p r =
    let t = r.tracks p in
    if r.clearing then r else record r {
      map = release t.key t.context r.map;
      reported = (t.seq, t.task) ∷ r.reported;
      deleted_tasks = t.task ∷ r.deleted_tasks;
    }

-- The tracks that the pool has deleted, the newest first.
pub destroy_tracks : List ℕ → AsyncRouter → AsyncRouter
destroy_tracks [] r = r
destroy_tracks (p ∷ l) r = on_timeout p (destroy_tracks l r)

-- The pool's method has run, and what it deleted goes.
unfoldable pub expire : TimeoutPool → AsyncRouter → AsyncRouter
unfolding destroy_tracks
expire t r = destroy_tracks t.deleted (record r { timeout = record t { deleted = [] } })

-- Get(): the context whose channel is given back. `p` is where the new track stands.
unfoldable pub get : ℕ → ℕ → ℤ → ℤ → ℕ → AsyncRouter → Option ℕ × AsyncRouter
get seq task timeout now p r =
    let (found, m) = get_next r.map in
    elim found [
      | none ↦ (none, record r { map = m })
      | some (key, c) ↦ (
        some c,
        expire (insert seq p timeout now r.timeout) (record r {
          map = m;
          tracks = update r.tracks p (record { seq = seq; task = task; key = key; context = c });
        }),
      )
    ]

-- Put(): the task of the call.
unfoldable pub put : ℕ → AsyncRouter → Option ℕ × AsyncRouter
put seq r =
    let (found, t) = take_out seq r.timeout in
    elim found [
      | none ↦ (none, record r { timeout = t })
      | some p ↦ (
        some (r.tracks p).task,
        record r { timeout = t; map = release (r.tracks p).key (r.tracks p).context r.map },
      )
    ]

unfoldable pub cleanup : ℤ → AsyncRouter → AsyncRouter
cleanup now r = expire (check now r.timeout) r

-- Shutdown() up to the wait of EraseAll().
unfoldable pub shutdown : AsyncRouter → AsyncRouter
shutdown r = let r' = expire (TimeoutPool.clear r.timeout) r in record r' { map = erase_all r'.map }

unfoldable pub clear : AsyncRouter → AsyncRouter
clear r =
    let r' = expire (TimeoutPool.clear r.timeout) (record r { clearing = true }) in
    record r' { map = ObjectMap.clear r'.map; clearing = false }

unfoldable pub add_host : ℕ → Option ℕ → AsyncRouter → AsyncRouter
add_host host created r =
    let (c, m) = add host created r.map in
    record r { map = elim c [ none ↦ m | some o ↦ release host o m ] }

unfoldable pub del_host : ℕ → AsyncRouter → AsyncRouter
del_host host r = record r { map = erase_key host r.map }

-- SetAll(), with what Create() would give for each host.
unfoldable pub set_hosts : List (ℕ × Option ℕ) → AsyncRouter → AsyncRouter
set_hosts hosts r = record r { map = set_all hosts r.map }
