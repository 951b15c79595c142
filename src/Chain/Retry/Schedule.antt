-- ===== src/Chain/Retry/Schedule.antt =====
-- chain.client.ts: `withRetry` against the order of its calls, written down as a list.
use internship_project_peanu.Prelude.{
  ℕ, zero, suc, ◌+◌, ◌*◌, ◌^◌, ◌≤◌, ◌≡◌, refl, sym, ap, ◌∙◌, Bool, true, false, not, List, [], ◌∷◌,
  ◌++◌, map, length, length-append, String, if◌then◌else◌, arith, if_elim, Bool-cases, inl, inr,
}
use native.Mathlib.Nat.{two-pow-succ, suc-mul}
use mathlib.Core.List.{append-nil}
use internship_project_peanu.Chain.Retry.{
  RpcError, Reply, value, fault, is_retryable, Retried, Round, decided, exhausted, called,
  after_call, try_clients, gave_up, after_round, attempts, with_retry,
}

-- All calls in their order: each attempt goes through the endpoints from left to right.
abbrev pub schedule : {E : Type 0} → List E → ℕ → ℕ → List (ℕ × E)
schedule clients zero attempt = []
schedule clients (suc left) attempt =
    map (λ c. (attempt, c)) clients ++ schedule clients left (attempt + 1)

-- A reply that ends the run: a value, or an error that is not retried.
abbrev pub is_decisive : {A : Type 0} → Reply A → Bool
is_decisive (value a) = true
is_decisive (fault e) = not (is_retryable e)

abbrev error_of : {A : Type 0} → Reply A → RpcError → RpcError
error_of (value a) last = last
error_of (fault e) last = e

abbrev pub total : List ℕ → ℕ
total [] = 0
total (n ∷ ns) = n + total ns

right_zero : (n : ℕ) → 2 ^ (n + 0) ≡ 2 ^ n
right_zero n = ap (λ k. 2 ^ k) (omega arith)

doubled : (n : ℕ) → 2 ^ (n + 1) ≡ 2 ^ n + 2 ^ n
doubled n = ap (λ k. 2 ^ k) (omega arith) ∙ two-pow-succ n

shifted : (n left : ℕ) → 2 ^ (n + 1 + left) ≡ 2 ^ (n + suc left)
shifted n left = ap (λ k. 2 ^ k) (omega arith)

from_zero : (n : ℕ) → 2 ^ (0 + n) ≡ 2 ^ n
from_zero n = ap (λ k. 2 ^ k) (omega arith)

map-length :
    {E : Type 0} (n : ℕ) (cs : List E) → length {A = ℕ × E} (map (λ c. (n, c)) cs) ≡ length cs
map-length n [] = refl
map-length n (c ∷ cs) = ap suc (map-length n cs)

one_more : (n k : ℕ) → suc n * k ≡ k + n * k
one_more n k = omega (arith, suc-mul n k)

schedule-length :
    {E : Type 0} (clients : List E) (left n : ℕ)
    → length (schedule clients left n) ≡ left * length clients
schedule-length {E = E} clients zero n = omega arith
schedule-length {E = E} clients (suc left) n = omega (
  arith,
  length-append {A = ℕ × E} (map (λ c. (n, c)) clients) (schedule clients left (n + 1)),
  map-length n clients,
  schedule-length clients left (n + 1),
  one_more left (length clients),
)

module _ {A E : Type 0} where
  abbrev cons_call : ℕ × E → List (ℕ × E) × Reply A → List (ℕ × E) × Reply A
  cons_call call (calls, r) = (call ∷ calls, r)

  -- One pass over a list of calls, up to the first decisive reply.
  abbrev pub one_pass : (ℕ → E → Reply A) → List (ℕ × E) → RpcError → List (ℕ × E) × Reply A
  one_pass fn [] last = ([], gave_up last)
  one_pass fn ((n, c) ∷ rest) last =
      let later = one_pass fn rest (error_of (fn n c) last) in
      if is_decisive (fn n c) then ((n, c) ∷ [], fn n c) else cons_call (n, c) later

  -- A round, and what follows it when no endpoint decided.
  abbrev joined :
      List (ℕ × E) × Round A → (RpcError → List (ℕ × E) × Reply A) → List (ℕ × E) × Reply A
  joined (calls, decided r) k = (calls, r)
  joined (calls, exhausted e) k = (calls ++ (k e).0, (k e).1)

  joined-called :
      (call : ℕ × E) (x : List (ℕ × E) × Round A) (k : RpcError → List (ℕ × E) × Reply A)
      → joined (called call x) k ≡ cons_call call (joined x k)
  joined-called call (calls, decided r) k = refl
  joined-called call (calls, exhausted e) k = refl

  abbrev seen : Retried A E → List (ℕ × E) × Reply A
  seen r = (r.calls, r.reply)

  module _ (fn : ℕ → E → Reply A) where
    -- One call, whose reply is `r`.
    after_call-joined :
        (n : ℕ) (c : E) (r : Reply A) (last : RpcError) (later : List (ℕ × E) × Reply A)
        (rest : RpcError → List (ℕ × E) × Round A) (k : RpcError → List (ℕ × E) × Reply A)
        → joined (rest (error_of r last)) k ≡ later
        → joined (after_call (n, c) r rest) k
          ≡ (if is_decisive r then ((n, c) ∷ [], r) else cons_call (n, c) later)
    after_call-joined n c (value a) last later rest k h = refl
    after_call-joined n c (fault e) last later rest k h = elim (Bool-cases (is_retryable e)) [
      | inl again ↦ rw again (joined-called (n, c) (rest e) k ∙ ap (cons_call (n, c)) h)
      | inr fatal ↦ rw fatal refl
    ]

    try_clients-one_pass :
        (n : ℕ) (cs : List E) (rest : List (ℕ × E)) (last : RpcError)
        → joined (try_clients fn n cs last) (one_pass fn rest)
          ≡ one_pass fn (map (λ c. (n, c)) cs ++ rest) last
    unfolding try_clients
    try_clients-one_pass n [] rest last = refl
    try_clients-one_pass n (c ∷ cs) rest last =
        after_call-joined n c (fn n c) last _ (λ e. try_clients fn n cs e) (one_pass fn rest)
          (try_clients-one_pass n cs rest (error_of (fn n c) last))

    after_round-joined :
        (left n : ℕ) (x : List (ℕ × E) × Round A) (clients : List E)
        → seen (after_round left n x (λ e. attempts fn clients left (n + 1) e))
          ≡ joined x (λ e. seen (attempts fn clients left (n + 1) e))
    unfolding attempts
    after_round-joined zero n (calls, decided r) clients = refl
    after_round-joined (suc left) n (calls, decided r) clients = refl
    after_round-joined zero n (calls, exhausted e) clients =
        ap (λ xs. (xs, gave_up e)) (sym (append-nil calls))
    after_round-joined (suc left) n (calls, exhausted e) clients = refl

    joined_ext :
        (x : List (ℕ × E) × Round A) (k k' : RpcError → List (ℕ × E) × Reply A)
        → ((e : RpcError) → k e ≡ k' e)
        → joined x k ≡ joined x k'
    joined_ext (calls, decided r) k k' h = refl
    joined_ext (calls, exhausted e) k k' h = ap (λ y. (calls ++ y.0, y.1)) (h e)

    attempts-one_pass :
        (clients : List E) (left n : ℕ) (last : RpcError)
        → seen (attempts fn clients left n last) ≡ one_pass fn (schedule clients left n) last
    unfolding attempts
    attempts-one_pass clients zero n last = refl
    attempts-one_pass clients (suc left) n last =
        after_round-joined left n (try_clients fn n clients last) clients
        ∙ joined_ext (try_clients fn n clients last) _ (one_pass fn (schedule clients left (n + 1)))
            (λ e. attempts-one_pass clients left (n + 1) e)
        ∙ try_clients-one_pass n clients (schedule clients left (n + 1)) last

    -- The two loops are one pass over the calls in their order: the endpoints from left to right,
    -- and all of them again for each further attempt, up to the first reply that is a value or an
    -- error that is not retried; without one, all calls are made and the last error is wrapped.
    pub with_retry-one_pass :
        (max_retries : ℕ) (clients : List E) (operation : String)
        → let r = with_retry max_retries clients operation fn in
          (r.calls, r.reply)
          ≡ one_pass fn
              (schedule clients max_retries 0)
              (record { message = operation; is_chain_error = false })
    unfolding with_retry
    with_retry-one_pass max_retries clients operation =
        attempts-one_pass clients max_retries 0
          (record { message = operation; is_chain_error = false })

    last_round_sleeps :
        (n : ℕ) (x : List (ℕ × E) × Round A) (rest : RpcError → Retried A E)
        → total (after_round zero n x rest).sleeps ≡ 0
    last_round_sleeps n (calls, decided r) rest = refl
    last_round_sleeps n (calls, exhausted e) rest = refl

    round_sleeps :
        (left n bound : ℕ) (x : List (ℕ × E) × Round A) (last : RpcError)
        (rest : RpcError → Retried A E)
        → ((e : RpcError) → 1_000 * 2 ^ n + total (rest e).sleeps + 1_000 * 2 ^ n ≤ bound)
        → total (after_round (suc left) n x rest).sleeps + 1_000 * 2 ^ n ≤ bound
    round_sleeps left n bound (calls, decided r) last rest k = omega (arith, k last)
    round_sleeps left n bound (calls, exhausted e) last rest k = omega (arith, k e)

    attempts-sleeps :
        (clients : List E) (left n : ℕ) (last : RpcError)
        → total (attempts fn clients (suc left) n last).sleeps + 1_000 * 2 ^ n
          ≤ 1_000 * 2 ^ (n + left)
    unfolding attempts
    attempts-sleeps clients zero n last = omega (
      arith,
      last_round_sleeps n (try_clients fn n clients last) (λ e. attempts fn clients zero (n + 1) e),
      right_zero n,
    )
    attempts-sleeps clients (suc left) n last =
        round_sleeps left n (1_000 * 2 ^ (n + suc left)) (try_clients fn n clients last) last
          (λ e. attempts fn clients (suc left) (n + 1) e)
          (λ e. omega (arith, attempts-sleeps clients left (n + 1) e, doubled n, shifted n left))

    cons_call-length :
        (call : ℕ × E) (x : List (ℕ × E) × Reply A) → length (cons_call call x).0 ≡ length x.0 + 1
    cons_call-length call (calls, r) = omega arith

    one_pass-length :
        (xs : List (ℕ × E)) (last : RpcError) → length (one_pass fn xs last).0 ≤ length xs
    one_pass-length [] last = omega arith
    one_pass-length ((n, c) ∷ rest) last =
        let later = one_pass fn rest (error_of (fn n c) last) in
        if_elim (λ x. length x.0 ≤ suc (length rest)) (is_decisive (fn n c)) ((n, c) ∷ [], fn n c)
          (cons_call (n, c) later) (λ _. omega arith)
          (λ _.
            omega
              (arith, cons_call-length (n, c) later, one_pass-length rest (error_of (fn n c) last)))

    -- However the calls end, each endpoint is called at most once per attempt, and the delays add
    -- up to less than 1000 milliseconds times 2 to the power of the attempts but one.
    pub with_retry-bounds :
        (more : ℕ) (clients : List E) (operation : String)
        → let r = with_retry (suc more) clients operation fn in
          (length r.calls ≤ suc more * length clients) × (total r.sleeps + 1_000 ≤ 1_000 * 2 ^ more)
    unfolding with_retry
    with_retry-bounds more clients operation =
        let start : RpcError = record { message = operation; is_chain_error = false } in
        let same = ap (λ x. length x.0) (attempts-one_pass clients (suc more) 0 start) in
        (
          omega (
            arith,
            same,
            one_pass-length (schedule clients (suc more) 0) start,
            schedule-length clients (suc more) 0,
          ),
          omega (arith, attempts-sleeps clients more 0 start, from_zero more),
        )
