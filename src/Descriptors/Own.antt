-- ===== src/Descriptors/Own.antt =====
-- `get` gives a descriptor its own context, but two threads may make one each.
use sylar_windows.Prelude.{
  ℕ, ◌+◌, ◌<◌, ◌≡◌, ◌≢◌, refl, sym, ap, ◌∙◌, arith, List, [], ◌∷◌, Bool, true, false, Option, none,
  some, ◌==◌, if-true, if-false, if-cases, Bool-cases, inl, inr,
}
use sylar_windows.Descriptors.State.{
  FdCtx, System, minus_one, init, new_fd_ctx, set_timeout, FdManager, Look, answers, creates,
  look_at, look, put, create, after_look, get, del, Call, creates_for, deletes, sets_timeout,
  sets_user_nonblock, sets_sys_nonblock, change, run, run_all,
}

-- What `m_datas` has for a descriptor: nothing, or an object that has been made for it.
abbrev pub IsOwn : FdManager → ℕ → Option ℕ → Type 0
IsOwn s fd none = Unit
IsOwn s fd (some i) = (i < s.next) × ((s.objects i).fd ≡ fd)

abbrev pub OwnsAll : FdManager → Type 0
OwnsAll s = (fd : ℕ) → IsOwn s fd (s.datas fd)

pub new_fd_ctx-fd : (sys : System) (fd : ℕ) → (new_fd_ctx sys fd).fd ≡ fd
unfolding new_fd_ctx init
new_fd_ctx-fd sys fd = refl

put_here {ℓ} : {A : Type ℓ} → (i : ℕ) (a : A) (f : ℕ → A) → put i a f i ≡ a
put_here i a f = if-true (i == i) _ _ (ground arith)

-- An object keeps its descriptor under a change that does.
change-fd :
    (i : ℕ) (f : FdCtx → FdCtx) (s : FdManager) (j : ℕ)
    → ((c : FdCtx) → (f c).fd ≡ c.fd)
    → ((change i f s).objects j).fd ≡ (s.objects j).fd
change-fd i f s j h =
    if-cases {A = FdCtx} (λ c. c.fd ≡ (s.objects j).fd) (j == i) _ _
      (λ e. h (s.objects i) ∙ ap (λ k. (s.objects k).fd) (ground (arith, e))) (λ e. refl)

change-OwnsAll :
    (i : ℕ) (f : FdCtx → FdCtx) (s : FdManager)
    → ((c : FdCtx) → (f c).fd ≡ c.fd)
    → OwnsAll s
    → OwnsAll (change i f s)
change-OwnsAll i f s h o fd = go (s.datas fd) (o fd)
  where
    go : (d : Option ℕ) → IsOwn s fd d → IsOwn (change i f s) fd d
    go none p = tt
    go (some j) p = (p.0, change-fd i f s j h ∙ p.1)

set_timeout-fd : (sys : System) (type v : ℕ) (c : FdCtx) → (set_timeout sys type v c).fd ≡ c.fd
unfolding set_timeout
set_timeout-fd sys type v c =
    if-cases {A = FdCtx} (λ d. d.fd ≡ c.fd) (type == sys.so_rcvtimeo) _ _ (λ e. refl) (λ e. refl)

pub create-OwnsAll :
    (sys : System) (fd : ℕ) (s : FdManager) → OwnsAll s → OwnsAll (create sys fd s).1
unfolding create
create-OwnsAll sys fd s o other =
    if-cases (IsOwn (create sys fd s).1 other) (other == fd) (some s.next) (s.datas other)
      (λ e. (
        omega arith,
        ap {A = FdCtx} (λ c. c.fd) (put_here s.next (new_fd_ctx sys fd) s.objects)
            ∙ new_fd_ctx-fd sys fd
            ∙ ground (arith, e),
      ))
      (λ e. kept (s.datas other) (o other))
  where
    kept : (d : Option ℕ) → IsOwn s other d → IsOwn (create sys fd s).1 other d
    kept none p = tt
    kept (some i) p = (
      omega (arith, p.0),
      ap {A = FdCtx} (λ c. c.fd) (if-false (i == s.next) _ _ (ground (arith, p.0))) ∙ p.1,
    )

del-OwnsAll : (fd : ℕ) (s : FdManager) → OwnsAll s → OwnsAll (del fd s)
unfolding del
del-OwnsAll fd s o other =
    if-cases (IsOwn (del fd s) other) (other == fd) none (s.datas other) (λ e. tt)
      (λ e. kept (s.datas other) (o other))
  where
    kept : (d : Option ℕ) → IsOwn s other d → IsOwn (del fd s) other d
    kept none p = tt
    kept (some i) p = p

run-OwnsAll : (sys : System) (c : Call) (s : FdManager) → OwnsAll s → OwnsAll (run sys c s)
unfolding run
run-OwnsAll sys (creates_for fd) s o = create-OwnsAll sys fd s o
run-OwnsAll sys (deletes fd) s o = del-OwnsAll fd s o
run-OwnsAll sys (sets_timeout i type v) s o =
    change-OwnsAll i (set_timeout sys type v) s (set_timeout-fd sys type v) o
run-OwnsAll sys (sets_user_nonblock i v) s o =
    change-OwnsAll i (λ c. record c { user_nonblock = v }) s (λ c. refl) o
run-OwnsAll sys (sets_sys_nonblock i v) s o =
    change-OwnsAll i (λ c. record c { sys_nonblock = v }) s (λ c. refl) o

run_all-OwnsAll :
    (sys : System) (cs : List Call) (s : FdManager) → OwnsAll s → OwnsAll (run_all sys cs s)
unfolding run_all
run_all-OwnsAll sys [] s o = o
run_all-OwnsAll sys (c ∷ cs) s o = run_all-OwnsAll sys cs (run sys c s) (run-OwnsAll sys c s o)

get-IsOwn_now :
    (sys : System) (fd : ℕ) (auto_create : Bool) (s : FdManager)
    → OwnsAll s
    → IsOwn (get sys fd auto_create s).1 fd (get sys fd auto_create s).0
unfolding get look create
get-IsOwn_now sys fd auto_create s o =
    if-cases (λ l. IsOwn (after_look sys fd l s).1 fd (after_look sys fd l s).0) (fd == minus_one) _
      _ (λ e. tt) (λ e. looked auto_create (s.datas fd) (o fd))
  where
    looked :
        (b : Bool) (d : Option ℕ)
        → IsOwn s fd d
        → IsOwn (after_look sys fd (look_at b d) s).1 fd (after_look sys fd (look_at b d) s).0
    looked b (some i) p = p
    looked false none p = tt
    looked true none p = (
      omega arith,
      ap {A = FdCtx} (λ c. c.fd) (put_here s.next (new_fd_ctx sys fd) s.objects)
          ∙ new_fd_ctx-fd sys fd,
    )

-- After any calls on the manager and on the contexts, in any order, get of a descriptor gives null or an
-- FdCtx that has been made, and made for this descriptor.
pub get-IsOwn :
    (sys : System) (cs : List Call) (s : FdManager) (fd : ℕ) (auto_create : Bool)
    → OwnsAll s
    → IsOwn
        (get sys fd auto_create (run_all sys cs s)).1
        fd
        (get sys fd auto_create (run_all sys cs s)).0
get-IsOwn sys cs s fd auto_create o =
    get-IsOwn_now sys fd auto_create (run_all sys cs s) (run_all-OwnsAll sys cs s o)

found :
    (sys : System) (fd i : ℕ) (s : FdManager)
    → (fd == minus_one) ≡ false
    → s.datas fd ≡ some i
    → get sys fd false s ≡ (some i, s)
unfolding get look
found sys fd i s h k =
    ap (λ l. after_look sys fd l s) (if-false (fd == minus_one) _ _ h ∙ ap (look_at false) k)

is_creates : Look → Bool
is_creates (answers o) = false
is_creates creates = true

looked_up : (fd : ℕ) (s : FdManager) → look fd true s ≡ creates → (fd == minus_one) ≡ false
unfolding look is_creates
looked_up fd s h = elim (Bool-cases (fd == minus_one)) [
  | inl e ↦ absurd (ground (arith, ap is_creates (sym (if-true (fd == minus_one) _ _ e) ∙ h)))
  | inr e ↦ e
]

-- Two threads that both find no context of a descriptor in get make one each: from then on get gives the
-- second, and the first, which its thread goes on with, is another.
pub made_twice :
    (sys : System) (fd : ℕ) (s : FdManager)
    → look fd true s ≡ creates
    → (get sys fd false (create sys fd (create sys fd s).1).1).0
        ≡ some (create sys fd (create sys fd s).1).0
      × ((create sys fd s).0 ≢ (create sys fd (create sys fd s).1).0)
unfolding create
made_twice sys fd s h = (
  ap (λ r. r.0)
      (found sys fd (s.next + 1) (create sys fd (create sys fd s).1).1 (looked_up fd s h)
        (put_here fd (some (s.next + 1)) (create sys fd s).1.datas)),
  λ e. ground (arith, e),
)
