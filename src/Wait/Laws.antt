-- ===== src/Wait/Laws.antt =====
-- respWaitLoop: when the wait ends, and with what.
use frames.Base.{
  pos, negsuc, ℕ, zero, suc, ◌+◌, ◌≤◌, ◌<◌, ◌≡◌, refl, ◌⊎◌, inl, inr, true, false, List, [], ◌∷◌,
  Option, none, some, Error, arith, replicate, ap, ◌∙◌, Bool-cases, eqb_ℤ, eqb_ℤ_iff, leb_ℤ,
}
use frames.Wait.{Event, response, count, tick, Loop, new_loop, last_error, step, run, delete_run}

-- The responses of a run.
abbrev pub responses_in : List Event → ℕ
responses_in [] = 0
responses_in (response e ∷ es) = suc (responses_in es)
responses_in (count n ∷ es) = responses_in es
responses_in (tick ∷ es) = responses_in es

-- The error of the last response that carries one.
abbrev pub failure_in : Option Error → List Event → Option Error
failure_in old [] = old
failure_in old (response e ∷ es) = failure_in (last_error e old) es
failure_in old (count n ∷ es) = failure_in old es
failure_in old (tick ∷ es) = failure_in old es

-- Only responses.
abbrev pub Answers : List Event → Type 0
Answers [] = Unit
Answers (response e ∷ es) = Answers es
Answers (_ ∷ es) = ⊥

-- Responses, and among them, at any place, the count n once.
abbrev pub Interleaves : ℕ → List Event → Type 0
Interleaves n [] = ⊥
Interleaves n (response e ∷ es) = Interleaves n es
Interleaves n (count m ∷ es) = (m ≡ n) × Answers es
Interleaves n (tick ∷ es) = ⊥

-- The count is known: the rest of the responses ends the loop.
run-Answers :
    (s : Loop) (n : ℕ) (es : List Event)
    → s.finished ≡ false
    → s.requests ≡ pos n
    → s.responses < n
    → Answers es
    → s.responses + responses_in es ≡ n
    → ((run s es).finished ≡ true) × ((run s es).async_err ≡ failure_in s.async_err es)
unfolding run
run-Answers s n [] f q lt a h = absurd (omega arith)
run-Answers s n (response e ∷ []) f q lt a h = ground arith
run-Answers s n (response e ∷ response d ∷ es) f q lt a h =
    ground (arith, run-Answers (step s (response e)) n (response d ∷ es))
run-Answers s n (response e ∷ count _ ∷ es) f q lt a h = elim a [ ]
run-Answers s n (response e ∷ tick ∷ es) f q lt a h = elim a [ ]
run-Answers s n (count _ ∷ _) f q lt a h = elim a [ ]
run-Answers s n (tick ∷ _) f q lt a h = elim a [ ]

-- The count comes at once.
run-count :
    (s : Loop) (n : ℕ) (es : List Event)
    → s.finished ≡ false
    → Answers es
    → s.responses + responses_in es ≡ n
    → ((run s (count n ∷ es)).finished ≡ true)
      × ((run s (count n ∷ es)).async_err ≡ failure_in s.async_err es)
unfolding run
run-count s n [] f a h = ground arith
run-count s n (response e ∷ es) f a h =
    ground (arith, run-Answers (step s (count n)) n (response e ∷ es))
run-count s n (count _ ∷ _) f a h = elim a [ ]
run-count s n (tick ∷ _) f a h = elim a [ ]

run-Interleaves :
    (s : Loop) (n : ℕ) (es : List Event)
    → s.finished ≡ false
    → s.requests ≡ negsuc 0
    → Interleaves n es
    → s.responses + responses_in es ≡ n
    → ((run s es).finished ≡ true) × ((run s es).async_err ≡ failure_in s.async_err es)
unfolding run
run-Interleaves s n [] f q a h = elim a [ ]
run-Interleaves s n (response e ∷ es) f q a h =
    rw f (run-Interleaves (step s (response e)) n es (ground arith) q a (omega arith))
run-Interleaves s n (count m ∷ es) f q a h = rw a.0 (run-count s n es f a.1 h)
run-Interleaves s n (tick ∷ es) f q a h = elim a [ ]

-- With a response for each of the n requests that were sent, and the count n at any place among
-- them, the loop ends, and it reports the error of the last response that carries one, if any does.
pub run-ends :
    (n : ℕ) (es : List Event)
    → Interleaves n es
    → responses_in es ≡ n
    → ((run new_loop es).finished ≡ true) × ((run new_loop es).async_err ≡ failure_in none es)
unfolding new_loop
run-ends n es a h = run-Interleaves new_loop n es refl refl a (omega (arith, h))

-- A loop that has ended without an error has counted its requests, and has a response for each.
abbrev IsSound : Loop → Type 0
IsSound s =
    (s.finished ≡ false)
    ⊎ ((e : Error) × (s.async_err ≡ some e))
    ⊎ ((n : ℕ) × (s.requests ≡ pos n) × (n ≤ s.responses))

step-IsSound : (s : Loop) (e : Event) → s.finished ≡ false → IsSound (step s e)
unfolding step
step-IsSound s (response none) f = elim (Bool-cases (eqb_ℤ s.requests (pos (suc s.responses)))) [
  | inl h ↦ inr (inr (suc s.responses, (eqb_ℤ_iff _ _).0 h, omega arith))
  | inr h ↦ inl h
]
step-IsSound s (response (some e)) f = inr (inl (e, refl))
step-IsSound s (count n) f = elim (Bool-cases (leb_ℤ (pos n) (pos s.responses))) [
  | inl h ↦ inr (inr (n, refl, ground arith))
  | inr h ↦ inl h
]
step-IsSound s tick f = elim (Bool-cases s.armed) [
  | inl h ↦ elim (Bool-cases s.active) [
    | inl k ↦ rw (h, k) (inl f)
    | inr k ↦ rw (h, k) (inr (inl (Error.timed_out, refl)))
  ]
  | inr h ↦ rw h (inl f)
]

run-ended : (s : Loop) (es : List Event) → s.finished ≡ true → run s es ≡ s
unfolding run
run-ended s [] f = refl
run-ended s (e ∷ es) f = ground arith

run-nil : (s : Loop) → run s [] ≡ s
unfolding run
run-nil s = refl

run-live :
    (s : Loop) (e : Event) (es : List Event)
    → s.finished ≡ false
    → run s (e ∷ es) ≡ run (step s e) es
unfolding run
run-live s e es f = ground arith

run-IsSound : (s : Loop) (es : List Event) → IsSound s → IsSound (run s es)
run-IsSound s [] h = rw (run-nil s) h
run-IsSound s (e ∷ es) h = elim (Bool-cases s.finished) [
  | inl f ↦ rw (run-ended s (e ∷ es) f) h
  | inr f ↦ rw (run-live s e es f) (run-IsSound (step s e) es (step-IsSound s e f))
]

responses-step :
    (s : Loop) (e : Event) (es : List Event)
    → (step s e).responses + responses_in es ≡ s.responses + responses_in (e ∷ es)
unfolding step
responses-step s (response e) es = omega arith
responses-step s (count n) es = refl
responses-step s tick es = ground arith

responses-run : (s : Loop) (es : List Event) → (run s es).responses ≤ s.responses + responses_in es
responses-run s [] = rw (run-nil s) (omega arith)
responses-run s (e ∷ es) = elim (Bool-cases s.finished) [
  | inl f ↦ omega (arith, ap (λ (t : Loop). t.responses) (run-ended s (e ∷ es) f))
  | inr f ↦
      rw (run-live s e es f) (omega (arith, responses-run (step s e) es, responses-step s e es))
]

-- Whatever comes in whatever order, timer included, a loop that ends without an error has been told
-- a number of requests, and has received at least that many responses.
pub run-ok_counted :
    (es : List Event)
    → (run new_loop es).finished ≡ true
    → (run new_loop es).async_err ≡ none
    → (n : ℕ) × ((run new_loop es).requests ≡ pos n) × (n ≤ responses_in es)
unfolding new_loop
run-ok_counted es f e = elim (run-IsSound new_loop es (inl refl)) [
  | inl h ↦ cc
  | inr (inl (x, h)) ↦ cc
  | inr (inr (n, h, k)) ↦ (n, h, omega (arith, responses-run new_loop es))
]

step_tick_idle : (s : Loop) → s.armed ≡ false → step s tick ≡ s
unfolding step
step_tick_idle s a = ground arith

run_tick_idle :
    (s : Loop) (k : ℕ)
    → s.finished ≡ false
    → s.armed ≡ false
    → (run s (replicate k tick)).finished ≡ false
run_tick_idle s zero f a = ap (λ (t : Loop). t.finished) (run-nil s) ∙ f
run_tick_idle s (suc k) f a =
    ap (λ (t : Loop). t.finished)
      (run-live s tick (replicate k tick) f
        ∙ ap (λ (t : Loop). run t (replicate k tick)) (step_tick_idle s a))
    ∙ run_tick_idle s k f a

-- A loop that has just had a response, and waits for more.
abbrev IsWaiting : Loop → Type 0
IsWaiting s = (s.finished ≡ false) × (s.active ≡ true) × (s.armed ≡ true)

step_response :
    (s : Loop) (e : Option Error)
    → eqb_ℤ s.requests (pos (suc s.responses)) ≡ false
    → IsWaiting (step s (response e))
unfolding step
step_response s e q = (q, refl, refl)

step_tick :
    (s : Loop) → IsWaiting s → ((step s tick).finished ≡ false) × ((step s tick).armed ≡ false)
unfolding step
step_tick s h = ground arith

run_waiting : (s : Loop) (k : ℕ) → IsWaiting s → (run s (replicate k tick)).finished ≡ false
run_waiting s zero h = ap (λ (t : Loop). t.finished) (run-nil s) ∙ h.0
run_waiting s (suc k) h =
    ap (λ (t : Loop). t.finished) (run-live s tick (replicate k tick) h.0)
    ∙ run_tick_idle (step s tick) k (step_tick s h).0 (step_tick s h).1

-- After a response the timer is set once more, and fires once: a loop that waits for more responses
-- and then receives nothing but its timer never ends, however often it would fire, where the loop of
-- DeleteTable gives up on its second timeout.
pub run_after_response :
    (s : Loop) (e : Option Error) (k : ℕ)
    → s.finished ≡ false
    → eqb_ℤ s.requests (pos (suc s.responses)) ≡ false
    → ((run s (response e ∷ replicate k tick)).finished ≡ false)
      × ((delete_run s (response e ∷ tick ∷ tick ∷ [])).finished ≡ true)
unfolding delete_run
run_after_response s e k f q = (
  ap (λ (t : Loop). t.finished) (run-live s (response e) (replicate k tick) f)
      ∙ run_waiting (step s (response e)) k (step_response s e q),
  ground arith,
)
