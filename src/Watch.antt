-- ===== src/Watch.antt =====
-- src/swap_rust.rs: a watched value. A handle compares the address of the value that it saw last
-- with the address of the shared one; the address of nothing is 0.
pub mod Changes
pub mod Handles
pub mod Versions
use velkar_gpu.Base.{ℕ, Bool, true, false, Option, none, some, List, [], ◌∷◌, ◌==◌, if◌then◌else◌}

-- `Option<Arc<T>>`: an address, and what is there.
pub record Cell (A : Type 0) : Type 0 where
  pub address : ℕ
  pub value : Option A

-- A handle: `shared.inner` and `cached`.
pub record WatchSwap (A : Type 0) : Type 0 where
  pub inner : Cell A
  pub cached : Cell A

module _ {A : Type 0} where
  -- `val.into().map(Arc::new)`; `fresh` is the address that the allocator gives.
  abbrev pub cell : ℕ → Option A → Cell A
  cell fresh none = record { address = 0; value = none }
  cell fresh (some a) = record { address = fresh; value = some a }

  unfoldable pub empty : WatchSwap A
  empty = record { inner = cell 0 none; cached = cell 0 none }

  unfoldable pub init : ℕ → Option A → WatchSwap A
  init fresh val = record { inner = cell fresh val; cached = cell fresh val }

  unfoldable pub swap : ℕ → Option A → WatchSwap A → WatchSwap A
  swap fresh val w = record w { inner = cell fresh val }

  -- `get_changed_inner`: whether the value changed, and the handle that has seen it.
  unfoldable pub has_changed : WatchSwap A → Bool
  has_changed w = if w.cached.address == w.inner.address then false else true

  unfoldable pub update_cached : WatchSwap A → WatchSwap A
  unfolding has_changed
  update_cached w = if has_changed w then record w { cached = w.inner } else w

  -- `get_changed`: the new value, which may be that there is none.
  unfoldable pub get_changed : WatchSwap A → Option (Option A)
  unfolding has_changed
  get_changed w = if has_changed w then some w.inner.value else none

  -- What another handle has stored since.
  abbrev pub observe : Cell A → WatchSwap A → WatchSwap A
  observe c w = record w { inner = c }

  -- `wait_for_change`, with the values of the shared cell at its looks, one for each time that the
  -- thread is woken; `none` where it still waits after them.
  unfoldable pub wait_for_change : List (Cell A) → WatchSwap A → Option (WatchSwap A)
  unfolding has_changed
  wait_for_change [] w = none
  wait_for_change (c ∷ looks) w =
      let w' = observe c w in
      let rest = wait_for_change looks w' in
      if has_changed w' then some (record w' { cached = c }) else rest
