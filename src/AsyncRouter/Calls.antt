-- ===== src/AsyncRouter/Calls.antt =====
-- The calls of an AsyncRouter, one after another, and the reference that each pending call has.
use flinter.Base.{ℕ, ◌+◌, ◌<◌, ◌≡◌, ◌&&◌, ◌==◌, Option, none, some, List}
use flinter.Base.Int.{ℤ}
use flinter.Base.Map.{find}
use flinter.ObjectMap.{size_mod}
use flinter.ObjectMap.Totals.{one_if, entries_of}
use flinter.ObjectMap.Taking.{AllNew}
use flinter.TimeoutPool.Weights.{stored_weight}
use flinter.TimeoutPool.Ledger.{stored}
use flinter.AsyncRouter.{
  AsyncRouter, Track, create, get, put, cleanup, shutdown, add_host, del_host, set_hosts,
}

-- Whether a track is of a key and a context.
unfoldable pub has : (ℕ → Track) → ℕ → ℕ → ℕ → ℕ
has tracks k x p = one_if ((tracks p).key == k && (tracks p).context == x)

-- How many pending calls are on a key and a context.
unfoldable pub pending : ℕ → ℕ → AsyncRouter → ℕ
pending k x r = stored_weight (has r.tracks k x) r.timeout.pool

-- A track stands where no pending one does, a new context is none that the map has, and
-- fewer than 2^64 - 1 calls are pending on a context.
pub data Step (r : AsyncRouter) : AsyncRouter → Type 0 where
  get_step :
      (seq task : ℕ) (timeout now : ℤ) (p : ℕ)
      → stored p r.timeout.pool ≡ 0
      → ((k x : ℕ) → pending k x r + 1 < size_mod)
      → Step r (get seq task timeout now p r).1
  put_step : (seq : ℕ) → Step r (put seq r).1
  cleanup_step : (now : ℤ) → Step r (cleanup now r)
  shutdown_step : Step r (shutdown r)
  add_step :
      (host : ℕ) (created : Option ℕ)
      → ((o : ℕ) → find host r.map.live ≡ none → created ≡ some o → entries_of host o r.map ≡ 0)
      → ((k x : ℕ) → pending k x r + 1 < size_mod)
      → Step r (add_host host created r)
  del_step : (host : ℕ) → Step r (del_host host r)
  set_step : (hosts : List (ℕ × Option ℕ)) → AllNew hosts r.map → Step r (set_hosts hosts r)

pub data Runs (default_timeout : ℤ) : AsyncRouter → Type 0 where
  start : Runs default_timeout (create default_timeout)
  after : {r r' : AsyncRouter} → Runs default_timeout r → Step r r' → Runs default_timeout r'
