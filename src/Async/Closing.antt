-- ===== src/Async/Closing.antt =====
-- What the calls of `doRsp` that a stream makes do to the waits: none is doubled, and none is lost.
use sylar_windows.Prelude.{
  ℕ, ◌+◌, ◌≤◌, ◌≡◌, arith, List, [], ◌∷◌, Bool, true, Option, none, some, ◌==◌, refl, if-cases,
  subst,
}
use sylar_windows.Async.State.{Ctx, Stream, set_ctx, new_stream, new_ctx, io_error}
use sylar_windows.Async.Contexts.{
  do_rsp, lookup, remove, on_timeout, get_and_del_ctx, add_ctx, enqueue, fail_all, answer, take_out,
  put_in, inner_close, send_all, write_round, respond, wait_for_response,
}
use sylar_windows.Async.Answers.{
  waiting, wakes_of, score, IsQuiet, IsQuiet-refl, set_ctx-IsQuiet, IsQuiet-score, do_rsp-score_le,
}

pub on_timeout-score_le : (i j : ℕ) (s : Stream) → score i (on_timeout j s) ≤ score i s
unfolding on_timeout
on_timeout-score_le i j s = before i j (record s { ctxs = remove (s.objects j).sn s.ctxs })
  where
    before :
        (i j : ℕ) (s : Stream)
        → score i (do_rsp j (set_ctx j (record (s.objects j) { timed = true }) s)) ≤ score i s
    before i j s =
        let q = set_ctx-IsQuiet j (record (s.objects j) { timed = true }) s refl refl in
        omega (
          arith,
          do_rsp-score_le i j (set_ctx j (record (s.objects j) { timed = true }) s),
          IsQuiet-score i s _ q,
        )

abbrev pub failed : ℕ → Stream → Stream
failed j s =
    set_ctx j
      (record (s.objects j) {
        result = io_error;
        result_str = b'i' ∷ b'o' ∷ b'_' ∷ b'e' ∷ b'r' ∷ b'r' ∷ b'o' ∷ b'r' ∷ [];
      })
      s

pub failed-IsQuiet : (j : ℕ) (s : Stream) → IsQuiet s (failed j s)
failed-IsQuiet j s = set_ctx-IsQuiet j _ s refl refl

pub fail_all-score_le :
    (i : ℕ) (es : List (ℕ × ℕ)) (s : Stream) → score i (fail_all es s) ≤ score i s
unfolding fail_all
fail_all-score_le i [] s = omega arith
fail_all-score_le i (e ∷ es) s = omega (
  arith,
  fail_all-score_le i es (do_rsp e.1 (failed e.1 s)),
  do_rsp-score_le i e.1 (failed e.1 s),
  IsQuiet-score i s _ (failed-IsQuiet e.1 s),
)

pub inner_close-score_le : (i : ℕ) (s : Stream) → score i (inner_close s) ≤ score i s
unfolding inner_close
inner_close-score_le i s = fail_all-score_le i s.ctxs _

send_all-score_le :
    (i : ℕ) (send : ℕ → Bool) (is : List ℕ) (s : Stream)
    → score i (send_all send is s).1 ≤ score i s
unfolding send_all
send_all-score_le i send [] s = omega arith
send_all-score_le i send (j ∷ is) s =
    if-cases (λ (r : List ℕ × Stream). score i r.1 ≤ score i s) (send j) _ _
      (λ e. send_all-score_le i send is s) (λ e. inner_close-score_le i s)

pub write_round-score_le :
    (i : ℕ) (send : ℕ → Bool) (s : Stream) → score i (write_round send s).1 ≤ score i s
unfolding write_round
write_round-score_le i send s = send_all-score_le i send s.queue (record s { queue = [] })

answer-score_le :
    (i result : ℕ) (result_str : List ℕ) (o : Option ℕ) (s : Stream)
    → score i (answer result result_str (o, s)) ≤ score i s
answer-score_le i result result_str none s = omega arith
answer-score_le i result result_str (some j) s =
    let t = set_ctx j (record (s.objects j) { result = result; result_str = result_str }) s in
    omega (arith, do_rsp-score_le i j t, IsQuiet-score i s t (set_ctx-IsQuiet j _ s refl refl))

take_out-score :
    (i sn result : ℕ) (result_str : List ℕ) (o : Option ℕ) (s : Stream)
    → score i (answer result result_str (take_out sn o s)) ≤ score i s
take_out-score i sn result result_str none s = answer-score_le i result result_str none s
take_out-score i sn result result_str (some j) s =
    answer-score_le i result result_str (some j) (record s { ctxs = remove sn s.ctxs })

pub respond-score_le :
    (i sn result : ℕ) (result_str : List ℕ) (s : Stream)
    → score i (respond sn result result_str s) ≤ score i s
unfolding respond get_and_del_ctx
respond-score_le i sn result result_str s =
    take_out-score i sn result result_str (lookup sn s.ctxs) s

add_ctx-IsQuiet : (i : ℕ) (s : Stream) → IsQuiet s (add_ctx i s)
unfolding add_ctx
add_ctx-IsQuiet i s = go (lookup (s.objects i).sn s.ctxs)
  where
    go : (o : Option ℕ) → IsQuiet s (put_in i o s)
    go none = record { scheduler = λ i. refl; fiber = λ i. refl; wakes = refl }
    go (some j) = IsQuiet-refl s

waiting-le : (o : Option ℕ) → waiting o ≤ 1
waiting-le none = omega arith
waiting-le (some scd) = omega arith

-- The new wait of a context that was never woken.
fresh_wait :
    (i j : ℕ) (c : Ctx) (s : Stream)
    → wakes_of j s.wakes ≡ 0
    → score i s ≤ 1
    → score i (set_ctx j c s) ≤ 1
fresh_wait i j c s h k =
    if-cases (λ (d : Ctx). waiting d.scheduler + wakes_of i s.wakes ≤ 1) (i == j) c (s.objects i)
      (λ e.
        let z : wakes_of i s.wakes ≡ 0 =
          subst (λ n. wakes_of n s.wakes ≡ 0) {x = j} {y = i} (ground arith) h in
        omega (arith, z, waiting-le c.scheduler))
      (λ e. k)

pub wait_for_response-score_le :
    (k i sn timeout_ms scd f t : ℕ) (s : Stream)
    → wakes_of i s.wakes ≡ 0
    → score k s ≤ 1
    → score k (wait_for_response i sn timeout_ms scd f t s) ≤ 1
unfolding wait_for_response enqueue
wait_for_response-score_le k i sn timeout_ms scd f t s h b =
    let c = record new_ctx {
      sn = sn;
      timeout = timeout_ms;
      scheduler = some scd;
      fiber = some f;
    } in
    let a = set_ctx i c s in
    let s' = add_ctx i a in
    let q = set_ctx-IsQuiet i (record (s'.objects i) { timer = some t }) s' refl refl in
    omega (
      arith,
      fresh_wait k i c s h b,
      IsQuiet-score k a s' (add_ctx-IsQuiet i a),
      IsQuiet-score k s' (set_ctx i (record (s'.objects i) { timer = some t }) s') q,
    )

-- What can happen to a stream, in any order: a request by a context that was not woken yet, a response
-- with any serial number, the timeout of any context, the end of the connection, a round of the
-- writer.
pub data Step : Stream → Stream → Type 0 where
  requests :
      (i sn timeout_ms scd f t : ℕ) (s : Stream)
      → s.connected ≡ true
      → wakes_of i s.wakes ≡ 0
      → Step s (wait_for_response i sn timeout_ms scd f t s)
  responds :
      (sn result : ℕ) (result_str : List ℕ) (s : Stream) → Step s (respond sn result result_str s)
  times_out : (i : ℕ) (s : Stream) → Step s (on_timeout i s)
  closes : (s : Stream) → Step s (inner_close s)
  writes : (send : ℕ → Bool) (s : Stream) → Step s (write_round send s).1

pub data Reaches : Stream → Stream → Type 0 where
  stays : (s : Stream) → Reaches s s
  goes : (s t u : Stream) → Reaches s t → Step t u → Reaches s u

Step-score : (k : ℕ) (s t : Stream) → Step s t → score k s ≤ 1 → score k t ≤ 1
Step-score k _ _ (requests i sn timeout_ms scd f t s c h) b =
    wait_for_response-score_le k i sn timeout_ms scd f t s h b
Step-score k _ _ (responds sn result result_str s) b =
    omega (arith, respond-score_le k sn result result_str s)
Step-score k _ _ (times_out i s) b = omega (arith, on_timeout-score_le k i s)
Step-score k _ _ (closes s) b = omega (arith, inner_close-score_le k s)
Step-score k _ _ (writes send s) b = omega (arith, write_round-score_le k send s)

Reaches-score : (k : ℕ) (s t : Stream) → Reaches s t → score k s ≤ 1 → score k t ≤ 1
Reaches-score k _ _ (stays s) b = b
Reaches-score k _ _ (goes s t u r p) b = Step-score k t u p (Reaches-score k s t r b)

-- However responses, timeouts and the end of the connection interleave with requests, no context of a
-- stream is woken twice, if none waits at the start and none is used again after its wake.
pub woken_once :
    (objects : ℕ → Ctx) (i : ℕ) (s : Stream)
    → (objects i).scheduler ≡ none
    → Reaches (new_stream objects) s
    → wakes_of i s.wakes ≤ 1
woken_once objects i s h r =
    let start : score i (new_stream objects) ≤ 1 = rw h (omega arith) in
    let end = Reaches-score i (new_stream objects) s r start in omega arith
