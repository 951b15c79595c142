-- ===== src/Chain/Retry.antt =====
-- chain/chain.client.ts and chain.utils.ts: `withRetry` and `isRetryable`. A call is an attempt and
-- an endpoint; what the endpoint answers is given.
pub mod Schedule
use Prim.Native.Char.{code}
use internship_project_peanu.Prelude.{
  ℕ, zero, suc, ◌+◌, ◌*◌, ◌^◌, ◌==◌, Bool, true, false, not, ◌&&◌, ◌||◌, List, [], ◌∷◌, ◌++◌,
  String, if◌then◌else◌,
}
use internship_project_peanu.Core.{codes, to_lower}

-- What is read of an error: its message, and whether it is a `ChainError`.
pub record RpcError : Type 0 where
  pub message : String
  pub is_chain_error : Bool

-- A value, or an error that is thrown.
pub data Reply (A : Type 0) : Type 0 where
  value : A → Reply A
  fault : RpcError → Reply A

abbrev pub starts_with : List ℕ → List ℕ → Bool
starts_with [] s = true
starts_with (p ∷ ps) [] = false
starts_with (p ∷ ps) (c ∷ s) = p == to_lower c && starts_with ps s

-- `msg.includes(pattern)` on the message in lower case
abbrev pub includes : List ℕ → List ℕ → Bool
includes pattern [] = starts_with pattern []
includes pattern (c ∷ s) = starts_with pattern (c ∷ s) || includes pattern s

abbrev pub some_of : List String → List ℕ → Bool
some_of [] s = false
some_of (p ∷ ps) s = includes (codes p) s || some_of ps s

abbrev pub retryable_patterns : List String
retryable_patterns =
    "econnrefused" ∷ "etimedout" ∷ "econnreset" ∷ "fetch failed" ∷ "network error" ∷ "rate limit"
    ∷ "too many requests" ∷ "429" ∷ "502" ∷ "503" ∷ "504" ∷ []

unfoldable pub is_retryable : RpcError → Bool
is_retryable e = if e.is_chain_error then false else some_of retryable_patterns (codes e.message)

-- What a run did, and how it ended.
pub record Retried (A E : Type 0) : Type 0 where
  pub calls : List (ℕ × E)
  -- the delays in milliseconds
  pub sleeps : List ℕ
  pub reply : Reply A

-- The loop over the endpoints: it returned or threw, or all failed, with the last error.
pub data Round (A : Type 0) : Type 0 where
  decided : Reply A → Round A
  exhausted : RpcError → Round A

-- `new ChainError(... after ... attempts: lastError.message)`
abbrev pub gave_up : {A : Type 0} → RpcError → Reply A
gave_up last = fault (record { message = last.message; is_chain_error = true })

module _ {A E : Type 0} where
  abbrev pub called : ℕ × E → List (ℕ × E) × Round A → List (ℕ × E) × Round A
  called call (calls, r) = (call ∷ calls, r)

  -- `rest` is what the loop does after an error, with it as the last one.
  abbrev pub after_call :
      ℕ × E → Reply A → (RpcError → List (ℕ × E) × Round A) → List (ℕ × E) × Round A
  after_call call (value a) rest = (call ∷ [], decided (value a))
  after_call call (fault e) rest =
      if not (is_retryable e) then (call ∷ [], decided (fault e)) else called call (rest e)

  unfoldable pub try_clients : (ℕ → E → Reply A) → ℕ → List E → RpcError → List (ℕ × E) × Round A
  try_clients fn attempt [] last = ([], exhausted last)
  try_clients fn attempt (c ∷ cs) last =
      after_call (attempt, c) (fn attempt c) (λ e. try_clients fn attempt cs e)

  -- After a round; `rest` is what the later attempts do. It sleeps if there are any.
  abbrev pub after_round : ℕ → ℕ → List (ℕ × E) × Round A → (RpcError → Retried A E) → Retried A E
  after_round left attempt (calls, decided r) rest = record {
    calls = calls;
    sleeps = [];
    reply = r;
  }
  after_round zero attempt (calls, exhausted e) rest = record {
    calls = calls;
    sleeps = [];
    reply = gave_up e;
  }
  after_round (suc left) attempt (calls, exhausted e) rest =
      let later = rest e in
      record {
        calls = calls ++ later.calls;
        sleeps = 1_000 * 2 ^ attempt ∷ later.sleeps;
        reply = later.reply;
      }

  unfoldable pub attempts : (ℕ → E → Reply A) → List E → ℕ → ℕ → RpcError → Retried A E
  attempts fn clients zero attempt last = record { calls = []; sleeps = []; reply = gave_up last }
  attempts fn clients (suc left) attempt last =
      after_round left attempt (try_clients fn attempt clients last)
        (λ e. attempts fn clients left (attempt + 1) e)

  -- The operation's name is the message of the first `lastError`.
  unfoldable pub with_retry : ℕ → List E → String → (ℕ → E → Reply A) → Retried A E
  with_retry max_retries clients operation fn =
      attempts fn clients max_retries 0 (record { message = operation; is_chain_error = false })
