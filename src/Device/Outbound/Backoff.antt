-- ===== src/Device/Outbound/Backoff.antt =====
-- The waits of `run_outbound` (apps/sidewired/src/main.rs).
use native.Mathlib.Numerals.{unary_clauses}
use side_wire_kernel_su.Base.{
  ℕ, suc, ◌-◌, ◌*◌, ◌^◌, ◌≡◌, refl, ap, ◌∙◌, min, List, [], ◌∷◌, ltb, arith, Bool-cases, inl, inr,
}
use side_wire_kernel_su.Device.Outbound.{
  next_outbound_delay, outbound_backoff_max_secs, Outbound, Attempt, failed_at, Wake, slept,
  after_attempt, after_wake, run_outbound,
}

-- The `k`th wait after a pairing that left a grace of `grace` turns.
abbrev pub expected_wait : ℕ → ℕ → ℕ
expected_wait grace k = min (2 ^ (k - grace)) outbound_backoff_max_secs

abbrev pub waits_from : ℕ → ℕ → List ℕ → List ℕ
waits_from grace k [] = []
waits_from grace k (now ∷ more) = expected_wait grace k ∷ waits_from grace (suc k) more

-- Failures at these times, each followed by a whole wait.
abbrev pub failures : List ℕ → List (Attempt × Wake)
failures [] = []
failures (now ∷ more) = (failed_at now, slept) ∷ failures more

pair_eq : (a b c d : ℕ) → a ≡ c → b ≡ d → ◌≡◌ {A = ℕ × ℕ} (a, b) (c, d)
pair_eq a b c d p q = ap (λ t. (t, b)) p ∙ ap (λ t. (c, t)) q

doubled : (n : ℕ) → min (min (min (2 ^ n) 30 * 2) (2 ^ 64 - 1)) 30 ≡ min (2 ^ suc n) 30
doubled n = simp unary_clauses (omega arith)

grace_step :
    (grace k : ℕ)
    → next_outbound_delay (expected_wait grace k) (grace - k)
      ≡ (expected_wait grace (suc k), grace - suc k)
unfolding next_outbound_delay
grace_step grace k = elim (Bool-cases (ltb 0 (grace - k))) [
  | inl left ↦
      let none_yet : suc k - grace ≡ 0 = ground arith in
      rw (left, none_yet) (ap (λ g. (1, g)) (omega arith))
  | inr over ↦
      let grown : suc k - grace ≡ suc (k - grace) = ground arith in
      rw (over, grown)
        (pair_eq _ (grace - k) (min (2 ^ suc (k - grace)) 30) (grace - suc k) (doubled (k - grace))
          (ground arith))
]

run-failures :
    (grace k : ℕ) (s : Outbound) (times : List ℕ)
    → s.delay ≡ expected_wait grace k
    → s.pairing_grace ≡ grace - k
    → run_outbound s (failures times) ≡ waits_from grace k times
unfolding run_outbound
run-failures grace k s [] delay left = refl
run-failures grace k s (now ∷ more) delay left =
    let next : ◌≡◌ {A = ℕ × ℕ} (next_outbound_delay s.delay s.pairing_grace)
        (expected_wait grace (suc k), grace - suc k) =
      rw (delay, left) (grace_step grace k) in
    let s' : Outbound = after_wake (after_attempt s (failed_at now)) slept in
    ap (λ d. d ∷ run_outbound s' (failures more)) delay
    ∙ ap (λ t. expected_wait grace k ∷ t)
        (run-failures grace (suc k) s' more (ap (λ t. t.0) next) (ap (λ t. t.1) next))

-- When every attempt fails and no pairing comes between: the loop waits one second as often as the
-- grace of the last pairing allows and once more, and then twice as long each time, up to half a
-- minute.
pub run_outbound-failures :
    (grace : ℕ) (s : Outbound) (times : List ℕ)
    → s.delay ≡ 1
    → s.pairing_grace ≡ grace
    → run_outbound s (failures times) ≡ waits_from grace 0 times
run_outbound-failures grace s times delay left =
    let start : 0 - grace ≡ 0 = omega arith in
    run-failures grace 0 s times (rw start delay) (omega (arith, left))
