-- ===== src/Monitor/Waits.antt =====
-- What the waits of src/Monitor.cpp give.
use libmumble.Prelude.{
  ℕ, zero, suc, ◌+◌, ◌-◌, Bool, true, ◌||◌, List, [], ◌∷◌, length, map, take, ltb, leb, ◌==◌,
  if◌then◌else◌, ◌≡◌, ◌⊎◌, refl, sym, ap, ◌∙◌, arith, Bool-cases, inl, inr, or_is_false, leb→le,
  leb_false→lt, ltb→lt,
}
use libmumble.Monitor.{Event, handle}
use libmumble.Monitor.Poll.{Poll, Target, is_ready, event_of, wait_loop, wait}

-- The targets that are ready, in their order.
unfoldable pub ready_ones : List Target → List Target
unfolding is_ready
ready_ones [] = []
ready_ones (target ∷ targets) =
    if is_ready target then target ∷ ready_ones targets else ready_ones targets

pub take-none : {A : Type 0} (n : ℕ) (xs : List A) → n ≡ 0 ⊎ length xs ≡ 0 → take n xs ≡ []
take-none zero xs h = refl
take-none (suc n) [] h = refl
take-none (suc n) (x ∷ xs) (inl h) = absurd (omega (arith, h))
take-none (suc n) (x ∷ xs) (inr h) = absurd (omega (arith, h))

-- Where the loop breaks, there is no room, or no target that is ready.
none_left :
    (room ret num left : ℕ)
    → ret ≡ num + left
    → (leb room num || leb ret num) ≡ true
    → room - num ≡ 0 ⊎ left ≡ 0
none_left room ret num left e h = elim (Bool-cases (leb room num)) [
  | inl full ↦ inl (let le = leb→le room num full in omega (arith, le))
  | inr more ↦
      let le = leb→le ret num (ap (λ (b : Bool). b || leb ret num) (sym more) ∙ h) in
      inr (omega (arith, le, e))
]

length-map_events :
    (trigger : ℕ) (xs : List Target) → length (map (event_of trigger) xs) ≡ length xs
length-map_events trigger [] = refl
length-map_events trigger (x ∷ xs) = ap suc (length-map_events trigger xs)

-- The loop with `num` events so far, where the system has told how many are ready in all.
wait_loop-ready_ones :
    (room ret num trigger : ℕ) (targets : List Target)
    → ret ≡ num + length (ready_ones targets)
    → wait_loop room ret trigger num targets
      ≡ take (room - num) (map (event_of trigger) (ready_ones targets))
unfolding wait_loop ready_ones
wait_loop-ready_ones room ret num trigger [] h = sym (take-none (room - num) [] (inr refl))
wait_loop-ready_ones room ret num trigger (target ∷ targets) h =
    let ones = ready_ones (target ∷ targets) in
    elim (Bool-cases (leb room num || leb ret num)) [
      | inl stop ↦ rw stop (
          sym (
            take-none (room - num) (map (event_of trigger) ones) (
              none_left room ret num (length (map (event_of trigger) ones))
                (h ∙ ap (λ (n : ℕ). num + n) (sym (length-map_events trigger ones))) stop)))
      | inr go ↦
          let apart = or_is_false (leb room num) (leb ret num) go in
          let count : Bool → ℕ =
            λ b. num + length (if b then target ∷ ready_ones targets else ready_ones targets) in
          let room_left = leb_false→lt room num apart.0 in
          elim (Bool-cases (is_ready target)) [
            | inl e ↦
                let all : ret ≡ suc num + length (ready_ones targets) =
                  h ∙ ap count e ∙ omega arith in
                let same : suc (room - suc num) ≡ room - num = omega (arith, room_left) in
                let now = event_of trigger target in
                let more = map (event_of trigger) (ready_ones targets) in
                rw (go, e)
                  (ap (λ (l : List Event). now ∷ l)
                      (wait_loop-ready_ones room ret (suc num) trigger targets all)
                    ∙ ap (λ (n : ℕ). take n (now ∷ more)) same)
            | inr e ↦
                rw (go, e) (wait_loop-ready_ones room ret num trigger targets (h ∙ ap count e))
          ]
    ]

-- When the system tells how many targets are ready, a wait gives an event for each of them, in their
-- order, as far as there is room, and none for the others.
pub wait-ready_ones :
    (room ret : ℕ) (m : Poll)
    → ret ≡ length (ready_ones m.targets)
    → wait room ret m
      ≡ take room (map (event_of (handle m.trigger.receiver)) (ready_ones m.targets))
unfolding wait
wait-ready_ones room ret m h =
    let trigger = handle m.trigger.receiver in
    let events = map (event_of trigger) (ready_ones m.targets) in
    elim (Bool-cases (room == 0)) [
      | inl e ↦ rw e (sym (take-none room events (inl (ground (arith, e)))))
      | inr e ↦ elim (Bool-cases (ltb ret 1)) [
        | inl none ↦
            let size = length-map_events trigger (ready_ones m.targets) in
            let less = ltb→lt ret 1 none in
            rw (e, none) (sym (take-none room events (inr (omega (arith, size, less, h)))))
        | inr some ↦
            rw (e, some)
              (wait_loop-ready_ones room ret 0 trigger m.targets (h ∙ omega arith)
                ∙ ap (λ (n : ℕ). take n events) (omega arith))
      ]
    ]
