-- ===== src/Route/Pool.antt =====
-- `BackendState` and `RamBackendPool` of src/route/mod.rs: the state of each backend, and the
-- operations that configure it and record results. A circuit's `u8` only ever holds the three
-- constants. The clock is `now`, in the units of `open_duration`.
pub mod Breaker
pub mod Configure
use brigh_to_router.Prelude.{
  ℕ, ◌+◌, ◌-◌, ◌%◌, Bool, true, false, not, Option, none, some, List, [], ◌∷◌, ltb, leb, ◌==◌,
  if◌then◌else◌, u32_mod,
}
use brigh_to_router.Prelude.Eq.{ℕ_eq}
use brigh_to_router.Prelude.Maps.{Map, lookup, insert, remove, modify}
use brigh_to_router.Prelude.Text.{Text}
use brigh_to_router.Contract.Config.{Backend}

pub data Circuit : Type 0 where
  closed opened half_open : Circuit

pub record BackendState : Type 0 where
  pub inflight : ℕ
  pub consecutive_failures : ℕ
  pub circuit : Circuit
  pub half_open_probe : Bool
  pub opened_until : Option ℕ
  pub weight : ℕ
  pub max_inflight : ℕ
  pub enabled : Bool
  pub base_url : Option Text

unfoldable pub new_state : Backend → BackendState
new_state b = record {
  inflight = 0;
  consecutive_failures = 0;
  circuit = closed;
  half_open_probe = true;
  opened_until = none;
  weight = b.weight;
  max_inflight = b.max_inflight;
  enabled = b.enabled;
  base_url = some b.base_url;
}

pub record RamBackendPool : Type 0 where
  pub states : Map ℕ BackendState
  pub open_duration : ℕ

-- A pool without backends. Its counters and their database are in Route/Counter.antt.
pub new_with_open_duration : ℕ → RamBackendPool
new_with_open_duration d = record { states = []; open_duration = d }

-- 30 seconds, in nanoseconds.
pub new : RamBackendPool
new = new_with_open_duration 30_000_000_000

pub reconfigure : Backend → BackendState → BackendState
reconfigure b s = record s {
  weight = b.weight;
  max_inflight = b.max_inflight;
  enabled = b.enabled;
  base_url = some b.base_url;
}

upsert : Backend → Option BackendState → Map ℕ BackendState → Map ℕ BackendState
unfolding reconfigure
upsert b none m = insert b.id (new_state b) m
upsert b (some s) m = insert b.id (reconfigure b s) m

unfoldable pub upsert_backend : RamBackendPool → Backend → RamBackendPool
unfolding upsert
upsert_backend p b = record p { states = upsert b (lookup b.id p.states) p.states }

-- The first loop of `sync_backends`, at one id that the snapshot lacks.
retire : ℕ → Option BackendState → Map ℕ BackendState → Map ℕ BackendState
retire id none m = remove id m
retire id (some s) m =
    if s.inflight == 0 then remove id m else insert id (record s { enabled = false }) m

unfoldable pub is_missing : Option Backend → Bool
is_missing none = true
is_missing (some b) = false

retire_all : List (ℕ × BackendState) → Map ℕ Backend → Map ℕ BackendState → Map ℕ BackendState
unfolding retire is_missing
retire_all [] snapshot m = m
retire_all ((id, s) ∷ current) snapshot m =
    retire_all current snapshot
      (if is_missing (lookup id snapshot) then retire id (lookup id m) m else m)

upsert_all : List (ℕ × Backend) → RamBackendPool → RamBackendPool
upsert_all [] p = p
upsert_all ((id, b) ∷ rest) p = upsert_all rest (upsert_backend p b)

unfoldable pub sync_backends : RamBackendPool → Map ℕ Backend → RamBackendPool
unfolding retire_all upsert_all
sync_backends p snapshot =
    upsert_all snapshot (record p { states = retire_all p.states snapshot p.states })

-- Opening the circuit at `now`.
abbrev trip : ℕ → ℕ → BackendState → BackendState
trip now open_duration s = record s {
  circuit = opened;
  opened_until = some (now + open_duration);
  half_open_probe = false;
  consecutive_failures = 0;
}

failed_in : Circuit → ℕ → ℕ → ℕ → BackendState → BackendState
failed_in closed failures now open_duration s =
    if leb 3 failures then trip now open_duration s else s
failed_in half_open failures now open_duration s = trip now open_duration s
failed_in opened failures now open_duration s = record s {
  opened_until = some (now + open_duration);
}

-- `note_result` on the state of the backend. `fetch_add` wraps around.
unfoldable pub note : Bool → ℕ → ℕ → BackendState → BackendState
unfolding failed_in
note true now open_duration s = record s {
  circuit = closed;
  opened_until = none;
  half_open_probe = true;
  consecutive_failures = 0;
}
note false now open_duration s =
    let failures = (s.consecutive_failures + 1) % u32_mod in
    failed_in s.circuit failures now open_duration (record s { consecutive_failures = failures })

unfoldable pub note_result : RamBackendPool → ℕ → Bool → ℕ → RamBackendPool
note_result p id ok now = record p { states = modify id (note ok now p.open_duration) p.states }

-- `inflight`, for the metrics.
inflight_of : Option BackendState → ℕ
inflight_of none = 0
inflight_of (some s) = s.inflight

unfoldable pub inflight : RamBackendPool → ℕ → ℕ
unfolding inflight_of
inflight p id = inflight_of (lookup id p.states)

-- `dec_inflight`, which a lease's `Drop` calls.
unfoldable pub dec_inflight : RamBackendPool → ℕ → RamBackendPool
dec_inflight p id = record p {
  states = modify id (λ s. record s { inflight = s.inflight - 1 }) p.states;
}
