-- ===== src/Exchange/Client/Weights.antt =====
-- exchange.client.ts: the log of the weights when it is pruned, and after a sleep.
use internship_project_peanu.Prelude.{
  ℕ, ◌+◌, ◌-◌, ◌==◌, ◌≤◌, ◌<◌, ◌≡◌, refl, true, List, [], ◌∷◌, ◌++◌, ltb, if_elim, if◌then◌else◌,
  All, lt→ltb, ltb→lt, Bool-cases, inl, inr, arith,
}
use internship_project_peanu.Exchange.Client.{RateLimitConfig, WeightEntry, prune, used, sleep_ms}

-- The weight recorded in the window that ends at `t`.
abbrev pub windowed : ℕ → ℕ → List WeightEntry → ℕ
windowed window_ms t [] = 0
windowed window_ms t (e ∷ es) =
    (if ltb (e.time + window_ms) t then 0 else e.weight) + windowed window_ms t es

pub windowed≤used : (w t : ℕ) (es : List WeightEntry) → windowed w t es ≤ used es
windowed≤used w t [] = omega arith
windowed≤used w t (e ∷ es) = ground (arith, windowed≤used w t es)

pub windowed-append :
    (w t : ℕ) (xs ys : List WeightEntry)
    → windowed w t (xs ++ ys) ≡ windowed w t xs + windowed w t ys
windowed-append w t [] ys = omega arith
windowed-append w t (x ∷ xs) ys = omega (arith, windowed-append w t xs ys)

pub used-append :
    (es : List WeightEntry) (e : WeightEntry) → used (es ++ e ∷ []) ≡ used es + e.weight
used-append [] e = omega arith
used-append (x ∷ es) e = omega (arith, used-append es e)

-- What is pruned is not in a window that ends later.
pub windowed-prune :
    (w now t : ℕ) (es : List WeightEntry)
    → now ≤ t
    → windowed w t (prune w now es) ≡ windowed w t es
unfolding prune
windowed-prune w now t [] h = refl
windowed-prune w now t (e ∷ es) h =
    if_elim (λ xs. windowed w t xs ≡ windowed w t (e ∷ es)) (ltb (e.time + w) now) (prune w now es)
      (e ∷ es) (λ out. ground (arith, windowed-prune w now t es h)) (λ _. refl)

pub used-prune : (w now : ℕ) (es : List WeightEntry) → used (prune w now es) ≤ used es
unfolding prune
used-prune w now [] = omega arith
used-prune w now (e ∷ es) =
    if_elim (λ xs. used xs ≤ used (e ∷ es)) (ltb (e.time + w) now) (prune w now es) (e ∷ es)
      (λ _. omega (arith, used-prune w now es)) (λ _. omega arith)

pub prune-All :
    (P : WeightEntry → Type 0) (w now : ℕ) (es : List WeightEntry)
    → All P es
    → All P (prune w now es)
unfolding prune
prune-All P w now [] h = tt
prune-All P w now (e ∷ es) h =
    if_elim (All P) (ltb (e.time + w) now) (prune w now es) (e ∷ es) (λ _. prune-All P w now es h.1)
      (λ _. h)

abbrev pub Fresh : ℕ → ℕ → List WeightEntry → Type 0
Fresh w now [] = Unit
Fresh w now (e ∷ es) = now ≤ e.time + w

pub prune-Fresh : (w now : ℕ) (es : List WeightEntry) → Fresh w now (prune w now es)
unfolding prune
prune-Fresh w now [] = tt
prune-Fresh w now (e ∷ es) =
    if_elim (Fresh w now) (ltb (e.time + w) now) (prune w now es) (e ∷ es)
      (λ _. prune-Fresh w now es) (λ kept. ground arith)

abbrev pub after_sleep : ℕ → ℕ → ℕ → RateLimitConfig → List WeightEntry → List WeightEntry
after_sleep weight read woke r es =
    if sleep_ms weight read r es == 0 then es else prune r.window_ms woke es

-- The sleep ends after the oldest entry left the window, which weighs enough.
slept_fits :
    (w woke weight limit : ℕ) (e : WeightEntry) (es : List WeightEntry)
    → used (e ∷ es) < limit
    → weight ≤ e.weight
    → e.time + w < woke
    → used (prune w woke (e ∷ es)) + weight < limit
unfolding prune
slept_fits w woke weight limit e es room lighter gone =
    rw (lt→ltb (e.time + w) woke gone) (omega (arith, used-prune w woke es, room, lighter))

zero_ms : (n ms : ℕ) → n ≡ ms → (n == 0) ≡ true → ms ≡ 0
zero_ms n ms same h = ground (arith, same)

pub after_sleep_fits :
    (weight checked read woke : ℕ) (r : RateLimitConfig) (es : List WeightEntry)
    → used es < r.weight_limit
    → weight < r.weight_limit
    → All (λ e. weight ≤ e.weight) es
    → Fresh r.window_ms checked es
    → read < checked + 50
    → read + sleep_ms weight read r es ≤ woke
    → used (after_sleep weight read woke r es) + weight < r.weight_limit
unfolding sleep_ms
after_sleep_fits weight checked read woke r [] room small lighter fresh close slept =
    omega (arith, small)
after_sleep_fits weight checked read woke r (e ∷ es) room small lighter fresh close slept =
    let total = used (e ∷ es) in
    let ms = (r.window_ms + e.time + 50) - read in
    elim (Bool-cases (ltb (total + weight) r.weight_limit)) [
      | inl fits ↦ rw fits (ltb→lt (total + weight) r.weight_limit fits)
      | inr full ↦
          let slept_ms : read + ms ≤ woke = rw full at slept in
          if_elim (λ xs. used xs + weight < r.weight_limit)
            ((if ltb (total + weight) r.weight_limit then 0 else ms) == 0) (e ∷ es)
            (prune r.window_ms woke (e ∷ es))
            (λ none.
              let awake =
                zero_ms (if ltb (total + weight) r.weight_limit then 0 else ms) ms (rw full refl)
                  none in
              omega (arith, awake, fresh, close))
            (λ _.
              slept_fits r.window_ms woke weight r.weight_limit e es room lighter.0
                (omega (arith, slept_ms, fresh, close)))
    ]
