-- ===== src/Async/Pool.antt =====
-- `AsyncSocketStreamManager`: a set of streams that `get` takes in turn. Streams are numbers that name
-- them, and so are callbacks.
use sylar_windows.Prelude.{
  ℕ, zero, suc, ◌+◌, ◌^◌, ◌%◌, List, [], ◌∷◌, ◌++◌, map, length, Bool, false, Option, none, some,
  if◌then◌else◌,
}

pub record Pool : Type 0 where
  pub size : ℕ
  pub idx : ℕ
  pub datas : List ℕ
  pub connect_cb : Option ℕ
  pub disconnect_cb : Option ℕ

-- What a call does to the streams.
pub data Call : Type 0 where
  set_connect : ℕ → Option ℕ → Call
  set_disconnect : ℕ → Option ℕ → Call
  close : ℕ → Call

abbrev pub new_pool : Pool
new_pool = record { size = 0; idx = 0; datas = []; connect_cb = none; disconnect_cb = none }

-- The callbacks that a pool has are given to a stream.
abbrev pub hand_over : Option ℕ → (ℕ → Option ℕ → Call) → ℕ → List Call
hand_over none set i = []
hand_over (some c) set i = set i (some c) ∷ []

abbrev pub concat_map : (ℕ → List Call) → List ℕ → List Call
concat_map f [] = []
concat_map f (i ∷ is) = f i ++ concat_map f is

abbrev pub callbacks_for : Pool → ℕ → List Call
callbacks_for p i =
    hand_over p.connect_cb set_connect i ++ hand_over p.disconnect_cb set_disconnect i

-- `add`; `m_size` is a `uint32_t`.
unfoldable pub add : ℕ → Pool → Pool × List Call
add i p = (record p { datas = p.datas ++ i ∷ []; size = (p.size + 1) % 2 ^ 32 }, callbacks_for p i)

unfoldable pub clear_pool : Pool → Pool × List Call
clear_pool p = (record p { datas = []; size = 0 }, map close p.datas)

-- `setConnection`: the streams before are closed at the end.
unfoldable pub set_connection : List ℕ → Pool → Pool × List Call
set_connection streams p = (
  record p { datas = streams; size = length streams % 2 ^ 32 },
  concat_map (callbacks_for p) streams ++ map close p.datas,
)

unfoldable pub set_connect_cb : Option ℕ → Pool → Pool × List Call
set_connect_cb v p = (record p { connect_cb = v }, map (λ i. set_connect i v) p.datas)

unfoldable pub set_disconnect_cb : Option ℕ → Pool → Pool × List Call
set_disconnect_cb v p = (record p { disconnect_cb = v }, map (λ i. set_disconnect i v) p.datas)

abbrev pub get_elem? : List ℕ → ℕ → Option ℕ
get_elem? [] n = none
get_elem? (x ∷ xs) zero = some x
get_elem? (x ∷ xs) (suc n) = get_elem? xs n

-- The streams are asked whether they are connected.
abbrev pub connected_at : (ℕ → Bool) → Option ℕ → Bool
connected_at connected none = false
connected_at connected (some i) = connected i

-- The loop of `get`, with `left` rounds to go: `fetch_add` wraps around at 2 ^ 32, and the remainder is
-- taken by a size that is not 0 when the loop runs.
unfoldable pub get_loop : (ℕ → Bool) → List ℕ → ℕ → ℕ → ℕ → Option ℕ × ℕ
get_loop connected datas size zero idx = (none, idx)
get_loop connected datas size (suc left) idx =
    let rest = get_loop connected datas size left ((idx + 1) % 2 ^ 32) in
    if connected_at connected (get_elem? datas (idx % size))
    then (get_elem? datas (idx % size), (idx + 1) % 2 ^ 32)
    else rest

unfoldable pub get : (ℕ → Bool) → Pool → Option ℕ × Pool
get connected p =
    let r = get_loop connected p.datas p.size p.size p.idx in (r.0, record p { idx = r.1 })
