-- ===== src/Monitor/Sound.antt =====
-- What `add` and `del` of src/Monitor.cpp keep.
use libmumble.Prelude.{
  ℕ, Bool, true, false, ◌||◌, List, [], ◌∷◌, ◌++◌, ◌==◌, ◌≡◌, refl, ap, ◌∙◌, Bool-cases, inl, inr,
  ==-refl, ==_comm, or_is_false,
}
use libmumble.Monitor.{Trigger, handle, is_known, forget}
use libmumble.Monitor.Poll.{Poll, Target, target_for, add, del, drop_target, new_poll}

-- The list of targets is of the known handles, each of which stands there once.
unfoldable pub IsDistinct : List ℕ → Type 0
IsDistinct [] = Unit
IsDistinct (fd ∷ fds) = (is_known fd fds ≡ false) × IsDistinct fds

unfoldable pub handles : List Target → List ℕ
handles [] = []
handles (target ∷ targets) = target.fd ∷ handles targets

abbrev pub IsSound : Poll → Type 0
IsSound m = (handles m.targets ≡ m.fds) × IsDistinct m.fds

-- What a monitor comes to by `add` and `del`.
pub data Reached (trigger : Trigger) : Poll → Type 0 where
  made : Reached trigger (new_poll trigger)
  added :
      {m : Poll} (fd : ℕ) (in_ready out_ready : Bool)
      → Reached trigger m
      → Reached trigger (add fd in_ready out_ready m).1
  deleted : {m : Poll} (fd : ℕ) → Reached trigger m → Reached trigger (del fd m).1

handles-append : (xs ys : List Target) → handles (xs ++ ys) ≡ handles xs ++ handles ys
unfolding handles
handles-append [] ys = refl
handles-append (x ∷ xs) ys = ap (λ (l : List ℕ). x.fd ∷ l) (handles-append xs ys)

is_known-append :
    (fd other : ℕ) (fds : List ℕ)
    → (fd == other) ≡ false
    → is_known fd fds ≡ false
    → is_known fd (fds ++ (other ∷ [])) ≡ false
unfolding is_known
is_known-append fd other [] e h = rw e refl
is_known-append fd other (x ∷ fds) e h =
    let apart = or_is_false (fd == x) (is_known fd fds) h in
    rw apart.0 (is_known-append fd other fds e apart.1)

append-IsDistinct :
    (fd : ℕ) (fds : List ℕ)
    → is_known fd fds ≡ false
    → IsDistinct fds
    → IsDistinct (fds ++ (fd ∷ []))
unfolding IsDistinct is_known
append-IsDistinct fd [] h d = (refl, tt)
append-IsDistinct fd (x ∷ fds) h d =
    let apart = or_is_false (fd == x) (is_known fd fds) h in
    (is_known-append x fd fds (==_comm x fd ∙ apart.0) d.0, append-IsDistinct fd fds apart.1 d.1)

handles-drop_target :
    (fd : ℕ) (targets : List Target)
    → handles (drop_target fd targets) ≡ forget fd (handles targets)
unfolding handles drop_target forget
handles-drop_target fd [] = refl
handles-drop_target fd (target ∷ targets) = elim (Bool-cases (fd == target.fd)) [
  | inl e ↦ rw (==_comm target.fd fd, e) refl
  | inr e ↦
      rw (==_comm target.fd fd, e)
        (ap (λ (l : List ℕ). target.fd ∷ l) (handles-drop_target fd targets))
]

is_known-forget :
    (x fd : ℕ) (fds : List ℕ) → is_known x fds ≡ false → is_known x (forget fd fds) ≡ false
unfolding is_known forget
is_known-forget x fd [] h = refl
is_known-forget x fd (y ∷ fds) h =
    let apart = or_is_false (x == y) (is_known x fds) h in
    elim (Bool-cases (fd == y)) [
      | inl e ↦ rw e apart.1
      | inr e ↦ rw (e, apart.0) (is_known-forget x fd fds apart.1)
    ]

forget-IsDistinct : (fd : ℕ) (fds : List ℕ) → IsDistinct fds → IsDistinct (forget fd fds)
unfolding IsDistinct forget
forget-IsDistinct fd [] d = d
forget-IsDistinct fd (x ∷ fds) d = elim (Bool-cases (fd == x)) [
  | inl e ↦ rw e d.1
  | inr e ↦ rw e (is_known-forget x fd fds d.0, forget-IsDistinct fd fds d.1)
]

add-IsSound :
    (fd : ℕ) (in_ready out_ready : Bool) (m : Poll)
    → IsSound m
    → IsSound (add fd in_ready out_ready m).1
unfolding add handles
add-IsSound fd in_ready out_ready m s =
    let target = target_for fd in_ready out_ready in
    elim (Bool-cases (is_known fd m.fds)) [
      | inl e ↦ rw e s
      | inr e ↦ rw e (
        handles-append m.targets (target ∷ []) ∙ ap (λ (l : List ℕ). l ++ (fd ∷ [])) s.0,
        append-IsDistinct fd m.fds e s.1,
      )
    ]

del-IsSound : (fd : ℕ) (m : Poll) → IsSound m → IsSound (del fd m).1
unfolding del
del-IsSound fd m s = elim (Bool-cases (is_known fd m.fds)) [
  | inl e ↦ rw e (
    handles-drop_target fd m.targets ∙ ap (λ (l : List ℕ). forget fd l) s.0,
    forget-IsDistinct fd m.fds s.1,
  )
  | inr e ↦ rw e s
]

-- Whatever is added to a new monitor and deleted again, its targets are those of the known handles, in
-- the same order, and no handle stands there twice.
pub Reached-IsSound : {trigger : Trigger} {m : Poll} → Reached trigger m → IsSound m
unfolding new_poll handles IsDistinct
Reached-IsSound {trigger = trigger} made =
    add-IsSound (handle trigger.receiver) true false
      (record { targets = []; fds = []; trigger = trigger }) (refl, tt)
Reached-IsSound (added {m = m} fd in_ready out_ready r) =
    add-IsSound fd in_ready out_ready m (Reached-IsSound r)
Reached-IsSound (deleted {m = m} fd r) = del-IsSound fd m (Reached-IsSound r)

forget-append :
    (fd : ℕ) (fds : List ℕ) → is_known fd fds ≡ false → forget fd (fds ++ (fd ∷ [])) ≡ fds
unfolding forget is_known
forget-append fd [] h = rw (==-refl fd) refl
forget-append fd (x ∷ fds) h =
    let apart = or_is_false (fd == x) (is_known fd fds) h in
    rw apart.0 (ap (λ (l : List ℕ). x ∷ l) (forget-append fd fds apart.1))

or_true : (b : Bool) → (b || true) ≡ true
or_true true = refl
or_true false = refl

pub is_known_self : (fd : ℕ) (fds : List ℕ) → is_known fd (fds ++ (fd ∷ [])) ≡ true
unfolding is_known
is_known_self fd [] = rw (==-refl fd) refl
is_known_self fd (x ∷ fds) = rw (is_known_self fd fds) (or_true (fd == x))

drop_target-append :
    (fd : ℕ) (targets : List Target) (target : Target)
    → target.fd ≡ fd
    → is_known fd (handles targets) ≡ false
    → drop_target fd (targets ++ (target ∷ [])) ≡ targets
unfolding drop_target handles is_known
drop_target-append fd [] target e h = rw (e, ==-refl fd) refl
drop_target-append fd (x ∷ targets) target e h =
    let apart = or_is_false (fd == x.fd) (is_known fd (handles targets)) h in
    rw (==_comm x.fd fd, apart.0)
      (ap (λ (l : List Target). x ∷ l) (drop_target-append fd targets target e apart.1))

-- The monitor with the handle.
abbrev with_target : ℕ → Bool → Bool → Poll → Poll
with_target fd in_ready out_ready m = record m {
  targets = m.targets ++ (target_for fd in_ready out_ready ∷ []);
  fds = m.fds ++ (fd ∷ []);
}

add_new :
    (fd : ℕ) (in_ready out_ready : Bool) (m : Poll)
    → is_known fd m.fds ≡ false
    → (add fd in_ready out_ready m).1 ≡ with_target fd in_ready out_ready m
unfolding add
add_new fd in_ready out_ready m h = rw h refl

del-with_target :
    (fd : ℕ) (in_ready out_ready : Bool) (m : Poll)
    → IsSound m
    → is_known fd m.fds ≡ false
    → del fd (with_target fd in_ready out_ready m) ≡ (true, m)
unfolding del
del-with_target fd in_ready out_ready m s h =
    rw
      (
        is_known_self fd m.fds,
        forget-append fd m.fds h,
        drop_target-append fd m.targets (target_for fd in_ready out_ready)
            (unfold target_for in refl) (ap (λ (l : List ℕ). is_known fd l) s.0 ∙ h),
      )
      refl

-- Deleting what was added, to a monitor whose targets are those of its handles, gives the monitor back.
pub del-add :
    (fd : ℕ) (in_ready out_ready : Bool) (m : Poll)
    → IsSound m
    → is_known fd m.fds ≡ false
    → del fd (add fd in_ready out_ready m).1 ≡ (true, m)
del-add fd in_ready out_ready m s h =
    ap (λ (x : Poll). del fd x) (add_new fd in_ready out_ready m h)
    ∙ del-with_target fd in_ready out_ready m s h
