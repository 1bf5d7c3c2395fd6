-- ===== src/Base/Loops.antt =====
-- Counted loops, and the rules by which the components reason about them.
use Prim.Native.Nat.{ℕ, zero, suc, ◌+◌, ◌≤◌, ◌<◌}
use mathlib.Core.Path.{◌≡◌, refl, ◌∙◌, ap, subst}
use mathlib.Core.Logic.{◌≢◌, inl, inr}
use mathlib.Core.Bool.{Bool, true, false, ◌||◌}
use mathlib.Core.Option.{Option, none, some}
use native.Mathlib.Omega.{arith}
use native.Mathlib.Decide.{ℕ_discrete}
use moto_ctrl.Base.Tests.{if◌then◌else◌, Bool-cases}

-- for (k = i; k < i + n; k++) s = body(k, s);
unfoldable pub for_range {ℓ} : {S : Type ℓ} → ℕ → ℕ → (ℕ → S → S) → S → S
for_range zero i body s = s
for_range (suc n) i body s = for_range n (suc i) body (body i s)

-- An invariant of the body is an invariant of the loop.
pub for_range_keeps {ℓ κ} :
    {S : Type ℓ} (P : S → Type κ) (body : ℕ → S → S)
    → ((k : ℕ) (s : S) → P s → P (body k s))
    → (n i : ℕ) (s : S) → P s
    → P (for_range n i body s)
unfolding for_range
for_range_keeps P body keep zero i s h = h
for_range_keeps P body keep (suc n) i s h =
    for_range_keeps P body keep n (suc i) (body i s) (keep i s h)

module _ {ℓ κ} {S : Type ℓ} {A : Type κ} (obs : S → A) (body : ℕ → S → S) where
  -- What no round touches is as before the loop.
  pub for_range_frame :
      ((k : ℕ) (s : S) → obs (body k s) ≡ obs s)
      → (n i : ℕ) (s : S) → obs (for_range n i body s) ≡ obs s
  unfolding for_range
  for_range_frame same zero i s = refl
  for_range_frame same (suc n) i s = for_range_frame same n (suc i) (body i s) ∙ same i s

-- A loop whose round `k` touches only the `k`-th of the cells that `obs` sees. `P` is what every
-- round keeps; `g k` is what round `k` does to its cell.
module _ {ℓ κ μ} {S : Type ℓ} {A : Type κ} (P : S → Type μ) (obs : ℕ → S → A) (g : ℕ → A → A)
    (body : ℕ → S → S) (keep : (k : ℕ) (s : S) → P s → P (body k s))
    (frame : (k j : ℕ) (s : S) → P s → j ≢ k → obs j (body k s) ≡ obs j s)
    (hit : (k : ℕ) (s : S) → P s → obs k (body k s) ≡ g k (obs k s)) where
  pub for_range_below : (n i j : ℕ) (s : S) → P s → j < i → obs j (for_range n i body s) ≡ obs j s
  unfolding for_range
  for_range_below zero i j s h lt = refl
  for_range_below (suc n) i j s h lt =
      for_range_below n (suc i) j (body i s) (keep i s h) (omega arith)
      ∙ frame i j s h (omega arith)

  pub for_range_cell :
      (n i j : ℕ) (s : S) → P s → i ≤ j → j < i + n → obs j (for_range n i body s) ≡ g j (obs j s)
  unfolding for_range
  for_range_cell zero i j s h le lt = absurd (omega arith)
  for_range_cell (suc n) i j s h le lt = elim (ℕ_discrete j i) [
    | yes e ↦ rw e (for_range_below n (suc i) i (body i s) (keep i s h) (omega arith) ∙ hit i s h)
    | no ne ↦
        for_range_cell n (suc i) j (body i s) (keep i s h) (omega arith) (omega arith)
        ∙ ap (g j) (frame i j s h ne)
  ]

-- A loop whose round `k` turns `Before k` into `After k`, which the other rounds keep.
module _ {ℓ κ μ} {S : Type ℓ} (Before : ℕ → S → Type κ) (After : ℕ → S → Type μ) (body : ℕ → S → S)
    (keep : (k j : ℕ) (s : S) → j ≢ k → Before j s → Before j (body k s))
    (keep_after : (k j : ℕ) (s : S) → j ≢ k → After j s → After j (body k s))
    (turn : (k : ℕ) (s : S) → Before k s → After k (body k s)) where
  for_range_after : (n i j : ℕ) (s : S) → j < i → After j s → After j (for_range n i body s)
  unfolding for_range
  for_range_after zero i j s lt h = h
  for_range_after (suc n) i j s lt h =
      for_range_after n (suc i) j (body i s) (omega arith) (keep_after i j s (omega arith) h)

  pub for_range_each :
      (n i j : ℕ) (s : S) → i ≤ j → j < i + n → Before j s → After j (for_range n i body s)
  unfolding for_range
  for_range_each zero i j s le lt h = absurd (omega arith)
  for_range_each (suc n) i j s le lt h = elim (ℕ_discrete j i) [
    | yes e ↦
        for_range_after n (suc i) j (body i s) (omega arith)
          (subst (λ (k : ℕ). After j (body k s)) e (turn j s h))
    | no ne ↦ for_range_each n (suc i) j (body i s) (omega arith) (omega arith) (keep i j s ne h)
  ]

-- `for (i = k; i < k + n; i++) if (test(i)) return i;` and then `return -1`.
unfoldable pub find_from : ℕ → ℕ → (ℕ → Bool) → Option ℕ
find_from zero k test = none
find_from (suc n) k test = let rest = find_from n (suc k) test in if test k then some k else rest

-- What the search returns is the first index in range that passes.
pub find_from-some :
    (n k : ℕ) (test : ℕ → Bool) {i : ℕ}
    → find_from n k test ≡ some i
    → (k ≤ i) × (i < k + n) × (test i ≡ true) × ((j : ℕ) → k ≤ j → j < i → test j ≡ false)
unfolding find_from
find_from-some zero k test e = cc
find_from-some (suc n) k test {i} e = elim (Bool-cases (test k)) [
  | inl hit ↦
      let here : k ≡ i = ground (arith, hit) in
      (omega arith, omega arith, rw (← here) hit, λ j le lt. absurd (omega arith))
  | inr miss ↦
      let later = find_from-some n (suc k) test {i = i} (rw miss at e) in
      (
        omega (arith, later.0),
        omega (arith, later.1),
        later.2,
        λ j le lt. elim (ℕ_discrete j k) [
          | yes same ↦ rw same miss
          | no ne ↦ later.3 j (omega arith) lt
        ],
      )
]

-- It fails only if no index in range passes.
pub find_from-none :
    (n k : ℕ) (test : ℕ → Bool)
    → find_from n k test ≡ none
    → (j : ℕ) → k ≤ j
    → j < k + n
    → test j ≡ false
unfolding find_from
find_from-none zero k test e j le lt = absurd (omega arith)
find_from-none (suc n) k test e j le lt = elim (Bool-cases (test k)) [
  | inl hit ↦ ground (arith, hit)
  | inr miss ↦ elim (ℕ_discrete j k) [
    | yes same ↦ rw same miss
    | no ne ↦ find_from-none n (suc k) test (rw miss at e) j (omega arith) (omega arith)
  ]
]

-- Two tests that agree in range find the same index.
pub find_from-ext :
    (n k : ℕ) (p q : ℕ → Bool)
    → ((j : ℕ) → k ≤ j → j < k + n → p j ≡ q j)
    → find_from n k p ≡ find_from n k q
unfolding find_from
find_from-ext zero k p q same = refl
find_from-ext (suc n) k p q same = ground (
  arith,
  same k (omega arith) (omega arith),
  find_from-ext n (suc k) p q (λ j le lt. same j (omega arith) (omega arith)),
)

-- Whether some index in `k … k + n - 1` passes, stopping at the first.
unfoldable pub any_from : ℕ → ℕ → (ℕ → Bool) → Bool
any_from zero k test = false
any_from (suc n) k test = test k || any_from n (suc k) test

pub any_from-false :
    (n k : ℕ) (test : ℕ → Bool)
    → any_from n k test ≡ false
    → (j : ℕ) → k ≤ j
    → j < k + n
    → test j ≡ false
unfolding any_from
any_from-false zero k test e j le lt = absurd (omega arith)
any_from-false (suc n) k test e j le lt = elim (Bool-cases (test k)) [
  | inl hit ↦ ground (arith, hit)
  | inr miss ↦ elim (ℕ_discrete j k) [
    | yes same ↦ rw same miss
    | no ne ↦ any_from-false n (suc k) test (rw miss at e) j (omega arith) (omega arith)
  ]
]

pub any_from-ext :
    (n k : ℕ) (p q : ℕ → Bool)
    → ((j : ℕ) → k ≤ j → j < k + n → p j ≡ q j)
    → any_from n k p ≡ any_from n k q
unfolding any_from
any_from-ext zero k p q same = refl
any_from-ext (suc n) k p q same = ground (
  arith,
  same k (omega arith) (omega arith),
  any_from-ext n (suc k) p q (λ j le lt. same j (omega arith) (omega arith)),
)

-- `for (i = k; i < k + n; i++) if (test(i)) count++;`
pub count_from : ℕ → ℕ → (ℕ → Bool) → ℕ
count_from zero k test = 0
count_from (suc n) k test =
    let rest = count_from n (suc k) test in if test k then suc rest else rest

pub for_range-count :
    (n k acc : ℕ) (test : ℕ → Bool)
    → for_range n k (λ i m. if test i then m + 1 else m) acc ≡ acc + count_from n k test
unfolding for_range count_from
for_range-count zero k acc test = omega arith
for_range-count (suc n) k acc test =
    ground (arith, for_range-count n (suc k) (if test k then acc + 1 else acc) test)

pub count_from-zero :
    (n k : ℕ) (test : ℕ → Bool)
    → ((j : ℕ) → k ≤ j → j < k + n → test j ≡ false)
    → count_from n k test ≡ 0
unfolding count_from
count_from-zero zero k test none_in = refl
count_from-zero (suc n) k test none_in = ground (
  arith,
  none_in k (omega arith) (omega arith),
  count_from-zero n (suc k) test (λ j le lt. none_in j (omega arith) (omega arith)),
)

pub count_from-pos :
    (n k j : ℕ) (test : ℕ → Bool) → k ≤ j → j < k + n → test j ≡ true → 0 < count_from n k test
unfolding count_from
count_from-pos zero k j test le lt hit = absurd (omega arith)
count_from-pos (suc n) k j test le lt hit = elim (ℕ_discrete j k) [
  | yes e ↦ ground (arith, ap test e)
  | no ne ↦ ground (arith, count_from-pos n (suc k) j test (omega arith) (omega arith) hit)
]

-- At most one index passes exactly when the count is at most 1.
pub count_from_unique :
    (n k : ℕ) (test : ℕ → Bool)
    → count_from n k test ≤ 1
    → (i j : ℕ) → k ≤ i
    → i < j
    → j < k + n
    → test i ≡ true
    → test j ≡ true
    → ⊥
unfolding count_from
count_from_unique zero k test few i j le lt lt' hi hj = omega arith
count_from_unique (suc n) k test few i j le lt lt' hi hj = elim (ℕ_discrete i k) [
  | yes e ↦
      ground (arith, ap test e, count_from-pos n (suc k) j test (omega arith) (omega arith) hj)
  | no ne ↦ count_from_unique n (suc k) test (ground arith) i j (omega arith) lt (omega arith) hi hj
]

pub count_from-le_one :
    (n k : ℕ) (test : ℕ → Bool)
    → ((i j : ℕ) → k ≤ i → i < j → j < k + n → test i ≡ true → test j ≡ true → ⊥)
    → count_from n k test ≤ 1
unfolding count_from
count_from-le_one zero k test one = omega arith
count_from-le_one (suc n) k test one = elim (Bool-cases (test k)) [
  | inl hit ↦ ground (
    arith,
    count_from-zero n (suc k) test (λ j le lt. elim (Bool-cases (test j)) [
      | inl hj ↦ absurd (one k j (omega arith) (omega arith) (omega arith) hit hj)
      | inr miss ↦ miss
    ]),
  )
  | inr miss ↦ ground (
    arith,
    count_from-le_one n (suc k) test (λ i j le lt lt'. one i j (omega arith) lt (omega arith)),
  )
]

pub any_from-false_of :
    (n k : ℕ) (test : ℕ → Bool)
    → ((j : ℕ) → k ≤ j → j < k + n → test j ≡ false)
    → any_from n k test ≡ false
unfolding any_from
any_from-false_of zero k test none_in = refl
any_from-false_of (suc n) k test none_in = ground (
  arith,
  none_in k (omega arith) (omega arith),
  any_from-false_of n (suc k) test (λ j le lt. none_in j (omega arith) (omega arith)),
)
