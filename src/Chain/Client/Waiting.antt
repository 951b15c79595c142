-- ===== src/Chain/Client/Waiting.antt =====
-- chain.client.ts: `waitForReceipt` ends, and how.
use internship_project_peanu.Prelude.{
  ℕ, zero, suc, ◌+◌, ◌≤◌, ◌<◌, ◌≡◌, refl, false, Option, none, some, String, ltb, if_elim, subst,
  Bool-cases, inl, inr, arith,
}
use internship_project_peanu.Chain.Retry.{Reply, value, fault}
use internship_project_peanu.Chain.Client.{
  TransactionReceipt, get_receipt, Poll, Waited, confirmed, threw, timed_out, cut, after_poll,
  poll_from, wait_for_receipt,
}

same_round : (k i : ℕ) → k < i + 1 → ltb k i ≡ false → i ≡ k
same_round k i h later = ground arith

module _ (tx_hash : String) (deadline : ℕ) (polls : ℕ → Poll) where
  abbrev answer : ℕ → Reply (Option TransactionReceipt)
  answer i = (get_receipt tx_hash (polls i).client).reply

  -- Every round before `j` found nothing.
  abbrev pub NothingBefore : ℕ → Type 0
  NothingBefore j = (i : ℕ) → i < j → answer i ≡ value none

  -- How the wait ended, at the round `j`.
  abbrev pub EndsAt : ℕ → Waited → Type 0
  EndsAt j (confirmed r) = ((polls j).now < deadline) × (answer j ≡ value (some r))
  EndsAt j (threw e) = ((polls j).now < deadline) × (answer j ≡ fault e)
  EndsAt j timed_out = deadline ≤ (polls j).now
  EndsAt j cut = ⊥

  abbrev pub Ends : Waited → Type 0
  Ends w = (j : ℕ) × NothingBefore j × EndsAt j w

  one_more : (i : ℕ) → NothingBefore i → answer i ≡ value none → NothingBefore (i + 1)
  one_more i before now k h = elim (Bool-cases (ltb k i)) [
    | inl earlier ↦ before k (ground (arith, earlier))
    | inr later ↦ subst (λ j. answer j ≡ value none) (same_round k i h later) now
  ]

  -- A round whose answer is `r`.
  after_poll-Ends :
      (i : ℕ) (r : Reply (Option TransactionReceipt)) (rest : Waited)
      → answer i ≡ r
      → (polls i).now < deadline
      → NothingBefore i
      → (NothingBefore (i + 1) → Ends rest)
      → Ends (after_poll r rest)
  after_poll-Ends i (value (some r)) rest h early before later = (i, before, (early, h))
  after_poll-Ends i (value none) rest h early before later = later (one_more i before h)
  after_poll-Ends i (fault e) rest h early before later = (i, before, (early, h))

  abbrev pub Advances : Type 0
  Advances = (j : ℕ) → (polls j).now + 1 ≤ (polls (j + 1)).now

  poll_from-Ends :
      (fuel i : ℕ)
      → Advances
      → deadline ≤ (polls i).now + fuel
      → NothingBefore i
      → Ends (poll_from tx_hash deadline polls (suc fuel) i)
  unfolding poll_from
  poll_from-Ends zero i advances enough before =
      if_elim Ends (ltb (polls i).now deadline) _ timed_out (λ early. absurd (ground arith))
        (λ late. (i, before, ground arith))
  poll_from-Ends (suc fuel) i advances enough before =
      if_elim Ends (ltb (polls i).now deadline) _ timed_out
        (λ early.
          after_poll-Ends i (answer i) _ refl (ground (arith, early)) before
            (poll_from-Ends fuel (i + 1) advances (omega (arith, enough, advances i))))
        (λ late. (i, before, ground arith))

-- If the clock advances between the rounds, the wait ends, within one round more than its
-- milliseconds: at the first round that found a receipt or threw, which came before the deadline,
-- or without a receipt at a round that came after it; no round before had found one.
pub wait_for_receipt-Ends :
    (tx_hash : String) (start timeout : ℕ) (polls : ℕ → Poll)
    → ((j : ℕ) → (polls j).now + 1 ≤ (polls (j + 1)).now)
    → start ≤ (polls 0).now
    → Ends tx_hash (start + timeout) polls (wait_for_receipt tx_hash start timeout polls)
unfolding wait_for_receipt
wait_for_receipt-Ends tx_hash start timeout polls advances first =
    poll_from-Ends tx_hash (start + timeout) polls timeout 0 advances (omega (arith, first))
      (λ i h. absurd (ground (arith, h)))
