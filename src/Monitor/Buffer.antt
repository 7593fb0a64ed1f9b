-- ===== src/Monitor/Buffer.antt =====
-- The buffer of `Monitor` in src/Monitor.cpp with epoll.
use libmumble.Prelude.{
  ℕ, suc, ◌-◌, ◌≤◌, ◌<◌, Bool, true, false, not, ◌||◌, List, [], ◌∷◌, length, map, take, ltb, leb,
  ◌==◌, ◌≡◌, refl, sym, ap, ◌∙◌, arith, Bool-cases, inl, inr, length-append, leb→le, leb_false→lt,
  ltb→lt, take-all,
}
use libmumble.Monitor.{Event, Trigger, handle, is_known, forget}
use libmumble.Monitor.Epoll.{
  Epoll, Target, add, del, pop_back, new_epoll, event_of, wait_loop, wait, num,
}
use libmumble.Monitor.Waits.{take-none}

-- What a monitor comes to, whatever the system answers.
pub data Reached (trigger : Trigger) : Epoll → Type 0 where
  made : (has_handle is_taken : Bool) → Reached trigger (new_epoll has_handle is_taken trigger)
  added :
      {m : Epoll} (is_taken : Bool) (fd : ℕ) (in_ready out_ready : Bool)
      → Reached trigger m
      → Reached trigger (add is_taken fd in_ready out_ready m).1
  deleted : {m : Epoll} (fd : ℕ) → Reached trigger m → Reached trigger (del fd m).1

-- There is room in the buffer for one event of each handle.
abbrev pub Fits : Epoll → Type 0
Fits m = length m.targets ≡ length m.fds

length-pop_back : (targets : List Target) → length (pop_back targets) ≡ length targets - 1
unfolding pop_back
length-pop_back [] = refl
length-pop_back (x ∷ []) = refl
length-pop_back (x ∷ y ∷ targets) = let rest = length-pop_back (y ∷ targets) in omega (arith, rest)

known_positive : (fd : ℕ) (fds : List ℕ) → is_known fd fds ≡ true → 0 < length fds
unfolding is_known
known_positive fd [] h = ground (arith, h)
known_positive fd (x ∷ fds) h = omega arith

length-forget :
    (fd : ℕ) (fds : List ℕ) → is_known fd fds ≡ true → length (forget fd fds) ≡ length fds - 1
unfolding is_known forget
length-forget fd [] h = ground (arith, h)
length-forget fd (x ∷ fds) h = elim (Bool-cases (fd == x)) [
  | inl e ↦ rw e (omega arith)
  | inr e ↦
      let known : is_known fd fds ≡ true = ap (λ (b : Bool). b || is_known fd fds) (sym e) ∙ h in
      let rest = length-forget fd fds known in
      let some_left = known_positive fd fds known in rw e (omega (arith, rest, some_left))
]

add-Fits :
    (is_taken : Bool) (fd : ℕ) (in_ready out_ready : Bool) (m : Epoll)
    → Fits m
    → Fits (add is_taken fd in_ready out_ready m).1
unfolding add
add-Fits is_taken fd in_ready out_ready m h =
    elim (Bool-cases (is_known fd m.fds || not is_taken)) [
      | inl e ↦ rw e h
      | inr e ↦ rw e (omega (arith, length-append m.targets _, length-append m.fds (fd ∷ []), h))
    ]

del-Fits : (fd : ℕ) (m : Epoll) → Fits m → Fits (del fd m).1
unfolding del
del-Fits fd m h = elim (Bool-cases (is_known fd m.fds)) [
  | inl e ↦ rw e (omega (arith, length-pop_back m.targets, length-forget fd m.fds e, h))
  | inr e ↦ rw e h
]

new_epoll-Fits :
    (has_handle is_taken : Bool) (trigger : Trigger) → Fits (new_epoll has_handle is_taken trigger)
unfolding new_epoll
new_epoll-Fits true is_taken trigger =
    add-Fits is_taken (handle trigger.receiver) true false
      (record { has_handle = true; targets = []; fds = []; trigger = trigger }) refl
new_epoll-Fits false is_taken trigger = refl

Reached-Fits : {trigger : Trigger} {m : Epoll} → Reached trigger m → Fits m
Reached-Fits {trigger = trigger} (made has_handle is_taken) =
    new_epoll-Fits has_handle is_taken trigger
Reached-Fits (added {m = m} is_taken fd in_ready out_ready r) =
    add-Fits is_taken fd in_ready out_ready m (Reached-Fits r)
Reached-Fits (deleted {m = m} fd r) = del-Fits fd m (Reached-Fits r)

wait_loop_is :
    (room num trigger : ℕ) (answer : List Target)
    → wait_loop room trigger num answer ≡ take (room - num) (map (event_of trigger) answer)
unfolding wait_loop
wait_loop_is room num trigger [] = sym (take-none (room - num) [] (inr refl))
wait_loop_is room num trigger (target ∷ answer) =
    let now = event_of trigger target in
    let more = map (event_of trigger) answer in
    elim (Bool-cases (leb room num)) [
      | inl full ↦
          let le = leb→le room num full in
          rw full (sym (take-none (room - num) (now ∷ more) (inl (omega (arith, le)))))
      | inr free ↦
          let lt = leb_false→lt room num free in
          let same : suc (room - suc num) ≡ room - num = omega (arith, lt) in
          rw free (
            ap (λ (l : List Event). now ∷ l) (wait_loop_is room (suc num) trigger answer)
            ∙ ap (λ (n : ℕ). take n (now ∷ more)) same)
    ]

length-map_events :
    (trigger : ℕ) (xs : List Target) → length (map (event_of trigger) xs) ≡ length xs
length-map_events trigger [] = refl
length-map_events trigger (x ∷ xs) = ap suc (length-map_events trigger xs)

wait_is :
    (room : ℕ) (answer : List Target) (m : Epoll)
    → wait room answer m ≡ take room (map (event_of (handle m.trigger.receiver)) answer)
unfolding wait
wait_is room answer m =
    let trigger = handle m.trigger.receiver in
    let events = map (event_of trigger) answer in
    elim (Bool-cases (room == 0)) [
      | inl e ↦ rw e (sym (take-none room events (inl (ground (arith, e)))))
      | inr e ↦ elim (Bool-cases (ltb (length answer) 1)) [
        | inl none ↦
            let size = length-map_events trigger answer in
            let less = ltb→lt (length answer) 1 none in
            rw (e, none) (sym (take-none room events (inr (omega (arith, size, less)))))
        | inr some ↦
            rw (e, some)
              (wait_loop_is room 0 trigger answer ∙ ap (λ (n : ℕ). take n events) (omega arith))
      ]
    ]

-- Whatever was added to a monitor and deleted again, and whatever the system answered: a wait with room
-- for as many events as there are handles gives every event that the system has written into the
-- buffer, in its order.
pub wait-Reached :
    {trigger : Trigger} {m : Epoll} (answer : List Target)
    → Reached trigger m
    → length answer ≤ length m.targets
    → wait (num m) answer m ≡ map (event_of (handle m.trigger.receiver)) answer
unfolding num
wait-Reached {m = m} answer r h =
    let fits = Reached-Fits r in
    let size = length-map_events (handle m.trigger.receiver) answer in
    wait_is (length m.fds) answer m ∙ take-all _ (length m.fds) (omega (arith, fits, size, h))
