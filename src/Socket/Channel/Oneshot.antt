-- ===== src/Socket/Channel/Oneshot.antt =====
-- What the receiver of one of tokio's `oneshot` channels gets, `request.await` of src/sta/client.rs and
-- src/ap/client.rs.
use wifi_ctrl.Prelude.{
  ℕ, ◌+◌, ◌≤◌, ◌==◌, List, [], ◌∷◌, Option, none, some, if◌then◌else◌, count, map, false, ◌≡◌, ◌≢◌,
  ◌⊎◌, inl, inr, refl, arith, Option-cases,
}

-- The value, an error as no sender is left, or nothing so far.
pub data Outcome (A : Type 0) : Type 0 where
  got : A → Outcome A
  closed waits : Outcome A

-- The answer that went to channel `c`.
unfoldable pub find_answer : {A : Type 0} → ℕ → List (ℕ × A) → Option A
find_answer c [] = none
find_answer c ((d, a) ∷ answers) = if d == c then some a else find_answer c answers

-- By what was sent, and how often the sender is held.
unfoldable pub outcome_of : {A : Type 0} → Option A → ℕ → Outcome A
outcome_of (some a) held = got a
outcome_of none held = if held == 0 then closed else waits

module _ {A : Type 0} where
  find_answer-none :
      (c : ℕ) (l : List (ℕ × A)) → find_answer c l ≡ none → count c (map (λ a. a.0) l) ≡ 0
  unfolding find_answer
  find_answer-none c [] h = refl
  find_answer-none c ((d, a) ∷ l) h = ground (arith, find_answer-none c l)

  find_answer-cases :
      (c : ℕ) (l : List (ℕ × A))
      → ((a : A) × (find_answer c l ≡ some a))
        ⊎ ((find_answer c l ≡ none) × (count c (map (λ a. a.0) l) ≡ 0))
  find_answer-cases c l = elim (Option-cases (find_answer c l)) [
    | inl h ↦ inr (h, find_answer-none c l h)
    | inr (a, h) ↦ inl (a, h)
  ]

  pub find_answer-unanswered :
      (c : ℕ) (l : List (ℕ × A)) → count c (map (λ a. a.0) l) ≡ 0 → find_answer c l ≡ none
  unfolding find_answer
  find_answer-unanswered c [] h = refl
  find_answer-unanswered c ((d, a) ∷ l) h = ground (arith, find_answer-unanswered c l)

  pub outcome_of-waits : (n : ℕ) → 1 ≤ n → outcome_of {A = A} none n ≡ waits
  unfolding outcome_of
  outcome_of-waits n h = let some_held : (n == 0) ≡ false = ground arith in rw some_held refl

  outcome_of-closed : outcome_of {A = A} none 0 ≡ closed
  unfolding outcome_of
  outcome_of-closed = refl

  outcome_of-got : (a : A) (n : ℕ) → outcome_of (some a) n ≡ got a
  unfolding outcome_of
  outcome_of-got a n = refl

  -- A channel that is answered or held does not get the error.
  pub held-not-closed :
      (c : ℕ) (l : List (ℕ × A)) (n : ℕ)
      → 1 ≤ count c (map (λ a. a.0) l) + n
      → outcome_of (find_answer c l) n ≢ closed
  held-not-closed c l n h e = elim (find_answer-cases c l) [
    | inl (a, f) ↦ let g = outcome_of-got a n in let e' = rw f at e in absurd cc
    | inr (f, z) ↦ let g = outcome_of-waits n (omega arith) in let e' = rw f at e in absurd cc
  ]

  -- A channel that is not held does not wait.
  pub unheld-not-waits :
      (c : ℕ) (l : List (ℕ × A)) (n : ℕ) → n ≡ 0 → outcome_of (find_answer c l) n ≢ waits
  unheld-not-waits c l n h e = elim (find_answer-cases c l) [
    | inl (a, f) ↦ let g = outcome_of-got a n in let e' = rw f at e in absurd cc
    | inr (f, z) ↦ let g = outcome_of-closed in let e' = rw (f, h) at e in absurd cc
  ]
