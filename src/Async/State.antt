-- ===== src/Async/State.antt =====
-- The members of `AsyncSocketStream`, and the contexts that requests wait in.
use sylar_windows.Prelude.{
  ℕ, ◌-◌, ◌^◌, List, [], ◌∷◌, Bool, true, false, Option, none, ◌==◌, if◌then◌else◌,
}

-- `Ctx`: a scheduler, a fiber and a timer are numbers that name them, and `none` is a null pointer.
pub record Ctx : Type 0 where
  pub sn : ℕ
  pub timeout : ℕ
  pub result : ℕ
  pub timed : Bool
  pub scheduler : Option ℕ
  pub fiber : Option ℕ
  pub timer : Option ℕ
  pub result_str : List ℕ

-- The values of `Error`, as `uint32_t`.
abbrev pub ok : ℕ
ok = 0

abbrev pub timed_out : ℕ
timed_out = 2 ^ 32 - 1

abbrev pub io_error : ℕ
io_error = 2 ^ 32 - 2

-- `Ctx()`.
abbrev pub new_ctx : Ctx
new_ctx = record {
  sn = 0;
  timeout = 0;
  result = 0;
  timed = false;
  scheduler = none;
  fiber = none;
  timer = none;
  result_str = b'o' ∷ b'k' ∷ [];
}

-- A call of `scd->schedule(&fiber)` for a context.
pub record Wake : Type 0 where
  pub ctx : ℕ
  pub scheduler : ℕ
  pub fiber : ℕ

-- A stream, and what it has done to the rest of the program. Contexts are shared objects: `objects` is
-- where they lie, `ctxs` (serial number and object, in the order that the hash table is walked in) and
-- `queue` refer to them. `wakes` and `cancelled` are the fibers scheduled and the timers cancelled so
-- far, the last first, and `disconnects` counts the calls of the disconnect callback.
pub record Stream : Type 0 where
  pub ctxs : List (ℕ × ℕ)
  pub queue : List ℕ
  pub objects : ℕ → Ctx
  pub sem : ℕ
  pub wait_sem : ℕ
  pub connected : Bool
  pub has_disconnect_cb : Bool
  pub wakes : List Wake
  pub cancelled : List ℕ
  pub disconnects : ℕ

-- `AsyncSocketStream(sock, owner)`, on a socket that is connected.
abbrev pub new_stream : (ℕ → Ctx) → Stream
new_stream objects = record {
  ctxs = [];
  queue = [];
  objects = objects;
  sem = 0;
  wait_sem = 2;
  connected = true;
  has_disconnect_cb = false;
  wakes = [];
  cancelled = [];
  disconnects = 0;
}

abbrev pub update : ℕ → Ctx → (ℕ → Ctx) → ℕ → Ctx
update i c objects j = if j == i then c else objects j

abbrev pub set_ctx : ℕ → Ctx → Stream → Stream
set_ctx i c s = record s { objects = update i c s.objects }
