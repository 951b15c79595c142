-- ===== src/Strategy/Scorer/History.antt =====
-- scorer.service.ts: the window of results, against the whole history.
use mathlib.Core.List.{append-nil, append_assoc}
use internship_project_peanu.Prelude.{
  ℕ, zero, suc, ◌+◌, ◌-◌, ◌≤◌, ◌≡◌, refl, ap, sym, ◌∙◌, Bool, List, [], ◌∷◌, ◌++◌, String, ltb,
  if_elim, length, drop, length-append, length-drop, arith,
}
use internship_project_peanu.Prelude.Double.{Double}
use internship_project_peanu.Strategy.Scorer.{
  SignalScorer, last_n, record_result, win_rate, score_history,
}

module _ {A : Type 0} where
  drop_none : (n : ℕ) → drop {A = A} n [] ≡ []
  drop_none zero = refl
  drop_none (suc n) = refl

  again : (xs : List A) (i j : ℕ) → i ≡ j → drop i xs ≡ drop j xs
  again xs i j e = ap (λ k. drop k xs) e

  drop-drop : (j k : ℕ) (xs : List A) → drop k (drop j xs) ≡ drop (j + k) xs
  drop-drop zero k xs = again xs k (0 + k) (omega arith)
  drop-drop (suc j) k [] = drop_none k ∙ sym (drop_none (suc j + k))
  drop-drop (suc j) k (x ∷ xs) =
      drop-drop j k xs ∙ again (x ∷ xs) (suc (j + k)) (suc j + k) (omega arith)

  drop-append : (j : ℕ) (xs ys : List A) → j ≤ length xs → drop j xs ++ ys ≡ drop j (xs ++ ys)
  drop-append zero xs ys h = refl
  drop-append (suc j) [] ys h = ground arith
  drop-append (suc j) (x ∷ xs) ys h = drop-append j xs ys (omega arith)

  -- Cutting to `n` and then to fewer is cutting once.
  last_n-last_n : (m n : ℕ) (xs : List A) → m ≤ n → last_n m (last_n n xs) ≡ last_n m xs
  last_n-last_n m n xs h =
      let cut = length xs - n in
      drop-drop cut (length (drop cut xs) - m) xs
      ∙ again xs (cut + (length (drop cut xs) - m)) (length xs - m)
          (omega (arith, length-drop cut xs))

  -- Cutting before an entry is pushed changes nothing for the cut after it.
  last_n-push : (n : ℕ) (xs ys : List A) → last_n n (last_n n xs ++ ys) ≡ last_n n (xs ++ ys)
  last_n-push n xs ys =
      let cut = length xs - n in
      let tail = drop cut xs ++ ys in
      ap (drop (length tail - n)) (drop-append cut xs ys (omega arith))
      ∙ drop-drop cut (length tail - n) (xs ++ ys)
      ∙ again (xs ++ ys) (cut + (length tail - n)) (length (xs ++ ys) - n)
          (omega (arith, length-append (drop cut xs) ys, length-append xs ys, length-drop cut xs))

module _ {D : Type 0} where
  -- The results in the order in which they are recorded.
  abbrev pub record_results : List (String × Bool) → SignalScorer D → SignalScorer D
  record_results [] s = s
  record_results ((pair, success) ∷ rs) s = record_results rs (record_result pair success s)

  record_result-last_n :
      (pair : String) (success : Bool) (s : SignalScorer D)
      → (record_result pair success s).recent_results
        ≡ last_n 100 (s.recent_results ++ (pair, success) ∷ [])
  unfolding record_result
  record_result-last_n pair success s =
      let results = s.recent_results ++ (pair, success) ∷ [] in
      if_elim (λ r. r ≡ last_n 100 results) (ltb 100 (length results)) (last_n 100 results) results
        (λ _. refl) (λ small. again results 0 (length results - 100) (ground arith))

  abbrev pub IsCapped : SignalScorer D → Type 0
  IsCapped s = length s.recent_results ≤ 100

  -- The window that is kept is the last hundred of all results.
  record_results-last_n :
      (rs : List (String × Bool)) (s : SignalScorer D)
      → IsCapped s
      → (record_results rs s).recent_results ≡ last_n 100 (s.recent_results ++ rs)
  record_results-last_n [] s h =
      again s.recent_results 0 (length s.recent_results - 100) (omega arith)
      ∙ ap (last_n 100) (sym (append-nil s.recent_results))
  record_results-last_n ((pair, success) ∷ rs) s h =
      let pushed = s.recent_results ++ (pair, success) ∷ [] in
      let cut = record_result-last_n pair success s in
      record_results-last_n rs (record_result pair success s)
        (omega (arith, ap length cut, length-drop (length pushed - 100) pushed))
      ∙ ap (λ xs. last_n 100 (xs ++ rs)) cut
      ∙ last_n-push 100 pushed rs
      ∙ ap (last_n 100) (append_assoc s.recent_results ((pair, success) ∷ []) rs)

  -- After any results are recorded, the history score of a pair is the rate over the last twenty of
  -- all results, those already kept and the new ones, though only a hundred are kept.
  pub score_history_whole :
      (f : Double D) (pair : String) (rs : List (String × Bool)) (s : SignalScorer D)
      → IsCapped s
      → (score_history f pair (record_results rs s)
          ≡ win_rate f pair (last_n 20 (s.recent_results ++ rs)))
        × IsCapped (record_results rs s)
  unfolding score_history
  score_history_whole f pair rs s h =
      let whole = s.recent_results ++ rs in
      let kept = record_results-last_n rs s h in
      (
        ap (λ xs. win_rate f pair (last_n 20 xs)) kept
            ∙ ap (win_rate f pair) (last_n-last_n 20 100 whole (omega arith)),
        omega (arith, ap length kept, length-drop (length whole - 100) whole),
      )
