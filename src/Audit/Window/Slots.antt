-- ===== src/Audit/Window/Slots.antt =====
-- How many events fall into the window, by the remainder of their second modulo 60.
use mathlib.Core.Path.{ap₂}
use xmesh.Common.{
  ◌∙◌, ℕ, zero, suc, ◌+◌, ◌%◌, ◌<◌, ◌≡◌, ◌≢◌, refl, Bool, true, ◌&&◌, List, [], ◌∷◌, All, ltb, leb,
  ◌==◌, if◌then◌else◌, arith,
}
use xmesh.Audit.Events.{Event, unix, is_tcp, in_window}

-- The events that a window was given and when they were received, newest first.
abbrev pub History : Type 0
History = List (Event × ℕ)

module _ (hit : Event → Bool) where
  abbrev pub one : Bool → ℕ
  one b = if b then 1 else 0

  -- TCP events that count, at a second.
  abbrev pub events_at : ℕ → History → ℕ
  events_at t [] = 0
  events_at t ((e, r) ∷ h) = one (is_tcp e && hit e && (unix r == t)) + events_at t h

  -- TCP events that count, in the 60 seconds up to `now`.
  abbrev pub events_in : ℕ → History → ℕ
  events_in now [] = 0
  events_in now ((e, r) ∷ h) = one (is_tcp e && hit e && in_window now (unix r)) + events_in now h

  -- Those of them whose second has the remainder i.
  abbrev pub slot : ℕ → ℕ → History → ℕ
  slot now i [] = 0
  slot now i ((e, r) ∷ h) =
      one (is_tcp e && hit e && in_window now (unix r) && (unix r % 60 == i)) + slot now i h

  -- The sum over n remainders from k on.
  abbrev pub slots : ℕ → ℕ → ℕ → History → ℕ
  slots now zero k h = 0
  slots now (suc n) k h = slot now k h + slots now n (k + 1) h

  abbrev indicators : Bool → ℕ → ℕ → ℕ → ℕ
  indicators b m zero k = 0
  indicators b m (suc n) k = one (b && (m == k)) + indicators b m n (k + 1)

  indicators-eq :
      (b : Bool) (m n k : ℕ) → indicators b m n k ≡ one (b && (leb k m && ltb m (k + n)))
  indicators-eq b m zero k = ground arith
  indicators-eq b m (suc n) k = ground (arith, indicators-eq b m n (k + 1))

  slots-cons :
      (now n k : ℕ) (e : Event) (r : ℕ) (h : History)
      → slots now n k ((e, r) ∷ h)
        ≡ indicators (is_tcp e && hit e && in_window now (unix r)) (unix r % 60) n k
          + slots now n k h
  slots-cons now zero k e r h = omega arith
  slots-cons now (suc n) k e r h = ground (arith, slots-cons now n (k + 1) e r h)

  slots-nil : (now n k : ℕ) → slots now n k [] ≡ 0
  slots-nil now zero k = refl
  slots-nil now (suc n) k = omega (arith, slots-nil now n (k + 1))

  one_below : (b : Bool) (m n : ℕ) → m < n → one (b && (leb 0 m && ltb m (0 + n))) ≡ one b
  one_below b m n h = ground arith

  -- The 60 remainders part the window's events.
  pub slots-events_in : (now n : ℕ) (h : History) → n ≡ 60 → slots now n 0 h ≡ events_in now h
  slots-events_in now n [] sixty = slots-nil now n 0
  slots-events_in now n ((e, r) ∷ h) sixty =
      let b = is_tcp e && hit e && in_window now (unix r) in
      slots-cons now n 0 e r h
      ∙ ap₂ (λ x y. x + y)
          (indicators-eq b (unix r % 60) n 0 ∙ one_below b (unix r % 60) n (omega arith))
          (slots-events_in now n h sixty)

  pub events_at-none :
      (t : ℕ) (h : History) → All (λ x. is_tcp x.0 ≡ true → unix x.1 ≢ t) h → events_at t h ≡ 0
  events_at-none t [] a = refl
  events_at-none t ((e, r) ∷ h) a = ground (arith, a.0, events_at-none t h a.1)
