-- ===== src/Network/EventLoopThreadPool/RoundRobin.antt =====
-- The calls of GetNextLoop go round the loops.
use native.Mathlib.Nat.{add-mul-mod_self_left, mod-eq_of_lt, mod-lt, mod-add-div}
use omega_streamer.Prelude.{
  ℕ, zero, suc, ◌+◌, ◌-◌, ◌*◌, ◌/◌, ◌%◌, ◌≤◌, ◌<◌, ◌≡◌, ◌∙◌, sym, ap, refl, Option, some, List, [],
  ◌∷◌, length, arith, get_elem?, leb, leb→le, leb-false→lt, Bool-cases, inl, inr, ◌⊎◌,
}
use omega_streamer.Prelude.Int.{ℤ}
use omega_streamer.Network.EventLoopThreadPool.{
  EventLoopThreadPool, max_next, next_after, next_of, get_next_loop, after_calls,
  event_loop_thread_pool, start, stop, PoolCall, starts, stops, gets_next, pool_step, pool_steps,
}

-- A pool with workers, whose counter is within its bound.
pub record IsRunning (p : EventLoopThreadPool) : Type 0 where
  pub workers : 0 < length p.loops
  pub within : p.m_next ≤ max_next

next_after-eq : (n : ℕ) → n ≤ max_next → next_after n ≡ (n + 1) % (max_next + 1)
unfolding next_after
next_after-eq n h = ground arith

next_of-eq :
    (p : EventLoopThreadPool) (ls : List ℕ)
    → 0 < length ls
    → next_of p ls
      ≡ (get_elem? p.loops (p.m_next % length p.loops), record p { m_next = next_after p.m_next })
unfolding next_of
next_of-eq p [] h = absurd (omega arith)
next_of-eq p (l ∷ ls) h = refl

get_next_loop-eq :
    (p : EventLoopThreadPool)
    → 0 < length p.loops
    → get_next_loop p
      ≡ (get_elem? p.loops (p.m_next % length p.loops), record p { m_next = next_after p.m_next })
unfolding get_next_loop
get_next_loop-eq p h = next_of-eq p p.loops h

-- GetNextLoop leaves the loops as they are and counts on, modulo 1000001.
after_calls-eq :
    (n : ℕ) (p : EventLoopThreadPool)
    → IsRunning p
    → ((after_calls n p).loops ≡ p.loops)
      × ((after_calls n p).m_next ≡ (p.m_next + n) % (max_next + 1))
unfolding after_calls
after_calls-eq zero p h = (refl, omega (arith, h.within))
after_calls-eq (suc n) p h =
    let e : (get_next_loop p).1 ≡ record p { m_next = next_after p.m_next } =
      ap (λ (r : Option ℕ × EventLoopThreadPool). r.1) (get_next_loop-eq p h.workers) in
    let counted = next_after-eq p.m_next h.within in
    let (loops, next) =
      after_calls-eq n (record p { m_next = next_after p.m_next })
        (record { workers = h.workers; within = omega (arith, counted) }) in
    (
      ap (λ q. (after_calls n q).loops) e ∙ loops,
      ap (λ q. (after_calls n q).m_next) e ∙ omega (arith, next, counted),
    )

-- The loop that the call behind `i` others gives.
chosen :
    (i : ℕ) (p : EventLoopThreadPool)
    → IsRunning p
    → (get_next_loop (after_calls i p)).0
      ≡ get_elem? p.loops ((p.m_next + i) % (max_next + 1) % length p.loops)
chosen i p h =
    let (loops, next) = after_calls-eq i p h in
    ap (λ (r : Option ℕ × EventLoopThreadPool). r.0)
      (get_next_loop-eq (after_calls i p) (rw loops h.workers))
    ∙ rw (loops, next) refl

get_elem?-lt : {A : Type 0} (xs : List A) (j : ℕ) {x : A} → get_elem? xs j ≡ some x → j < length xs
get_elem?-lt [] j e = cc
get_elem?-lt (y ∷ xs) zero e = omega arith
get_elem?-lt (y ∷ xs) (suc j) e = omega (arith, get_elem?-lt xs j e)

index_at :
    (k size j q : ℕ)
    → k ≡ j + size * q
    → k < max_next + 1
    → j < size
    → k % (max_next + 1) % size ≡ j
index_at k size j q e small lt =
    let inside : k % (max_next + 1) ≡ j + size * q = omega arith in
    ap (λ t. t % size) inside ∙ add-mul-mod_self_left j size q ∙ mod-eq_of_lt lt

-- Among two rounds of calls from a counter `n` there is one at the index `j`: before the counter is reset,
-- or behind that.
reaches_index :
    (n size j : ℕ)
    → n ≤ max_next
    → size ≤ max_next + 1
    → j < size
    → (i : ℕ) × (i < 2 * size) × ((n + i) % (max_next + 1) % size ≡ j)
reaches_index n size j small few lt = elim (Bool-cases (leb (n + size) (max_next + 1))) [
  | inl e ↦
      let fits = leb→le (n + size) (max_next + 1) e in
      let below : n % size < size = mod-lt n (omega arith) in
      let whole : n ≡ n % size + size * (n / size) = sym (mod-add-div n size) in
      elim (Bool-cases (leb (n % size) j)) [
        | inl ahead ↦
            let le = leb→le (n % size) j ahead in
            (
              j - n % size,
              omega arith,
              index_at (n + (j - n % size)) size j (n / size) (omega arith) (omega arith) lt,
            )
        | inr behind ↦
            let gt = leb-false→lt (n % size) j behind in
            let next : size * suc (n / size) ≡ size * (n / size) + size = grind arith in
            (
              j + size - n % size,
              omega arith,
              index_at (n + (j + size - n % size)) size j (suc (n / size)) (omega arith)
                  (omega arith) lt,
            )
      ]
  | inr e ↦
      let wraps = leb-false→lt (n + size) (max_next + 1) e in
      let reset : (n + (max_next + 1 - n + j)) % (max_next + 1) ≡ j = omega arith in
      (max_next + 1 - n + j, omega arith, ap (λ t. t % size) reset ∙ mod-eq_of_lt lt)
]

-- A pool with workers, at most 1000001 of them, and a counter of at most 1000000 gives each of its loops
-- among the next two rounds of calls of GetNextLoop, wherever the counter stands and also when it is reset.
pub IsRunning-gives_all :
    (p : EventLoopThreadPool) (j l : ℕ)
    → IsRunning p
    → length p.loops ≤ max_next + 1
    → get_elem? p.loops j ≡ some l
    → (i : ℕ) × (i < 2 * length p.loops) × ((get_next_loop (after_calls i p)).0 ≡ some l)
IsRunning-gives_all p j l h few there =
    let (i, soon, at_j) =
      reaches_index p.m_next (length p.loops) j h.within few (get_elem?-lt p.loops j there) in
    (i, soon, chosen i p h ∙ ap (get_elem? p.loops) at_j ∙ there)

-- A valid index, in whatever state the pool is.
get_elem?-some :
    {A : Type 0} (xs : List A) (j : ℕ) → j < length xs → (x : A) × (get_elem? xs j ≡ some x)
get_elem?-some [] j h = absurd (omega arith)
get_elem?-some (x ∷ xs) zero h = (x, refl)
get_elem?-some (x ∷ xs) (suc j) h = get_elem?-some xs j (omega arith)

-- What a call of GetNextLoop gives: the base loop where there are no workers, or a worker's loop; never
-- an access beyond the vector.
pub record Gives (p : EventLoopThreadPool) (r : Option ℕ × EventLoopThreadPool) : Type 0 where
  pub loop : ℕ
  pub given : r.0 ≡ some loop
  pub from : ((p.loops ≡ []) × (loop ≡ p.base_loop)) ⊎ ((j : ℕ) × (get_elem? p.loops j ≡ some loop))
  pub counter : r.1.m_next ≤ max_next

pub next_of-Gives :
    (p : EventLoopThreadPool) (ls : List ℕ)
    → p.loops ≡ ls
    → p.m_next ≤ max_next
    → Gives p (next_of p ls)
unfolding next_of
next_of-Gives p [] e h = record {
  loop = p.base_loop;
  given = refl;
  from = inl (e, refl);
  counter = h;
}
next_of-Gives p (x ∷ xs) e h =
    let some_left : 0 < length p.loops = omega (arith, ap length e) in
    let (l, there) =
      get_elem?-some p.loops (p.m_next % length p.loops) (mod-lt p.m_next some_left) in
    record {
      loop = l;
      given = there;
      from = inr (_, there);
      counter = omega (arith, next_after-eq p.m_next h);
    }

pool_step-within :
    (c : PoolCall) (p : EventLoopThreadPool)
    → p.m_next ≤ max_next
    → (pool_step c p).m_next ≤ max_next
unfolding pool_step start stop get_next_loop
pool_step-within (starts started) p h = h
pool_step-within stops p h = h
pool_step-within gets_next p h = (next_of-Gives p p.loops refl h).counter

pool_steps-within :
    (cs : List PoolCall) (p : EventLoopThreadPool)
    → p.m_next ≤ max_next
    → (pool_steps cs p).m_next ≤ max_next
unfolding pool_steps
pool_steps-within [] p h = h
pool_steps-within (c ∷ cs) p h = pool_steps-within cs (pool_step c p) (pool_step-within c p h)

-- Whatever calls of start, stop and GetNextLoop a pool has had, with whatever number of threads: GetNextLoop
-- accesses the vector within its bounds and gives a worker's loop, or gives the base loop where there are
-- no workers; and the counter stays at most 1000000.
pub get_next_loop-Gives :
    (loop : ℕ) (thread_num : ℤ) (cs : List PoolCall)
    → Gives
        (pool_steps cs (event_loop_thread_pool loop thread_num))
        (get_next_loop (pool_steps cs (event_loop_thread_pool loop thread_num)))
unfolding get_next_loop event_loop_thread_pool
get_next_loop-Gives loop thread_num cs =
    next_of-Gives _ _ refl
      (pool_steps-within cs (event_loop_thread_pool loop thread_num) (omega arith))
