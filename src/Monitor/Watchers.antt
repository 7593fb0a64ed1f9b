-- ===== src/Monitor/Watchers.antt =====
-- What src/Peer.cpp uses of `Monitor`, which is built with poll or with epoll.
use libmumble.Prelude.{
  ℕ, Bool, true, false, not, ◌||◌, List, [], ◌∷◌, ◌++◌, ◌==◌, ◌≡◌, refl, sym, ap, ◌∙◌, arith,
  Bool-cases, inl, inr,
}
use libmumble.Monitor.{is_known, forget}
use libmumble.Monitor.Poll
use libmumble.Monitor.Epoll
use libmumble.Monitor.Sound.{is_known_self}

-- The operations and what a peer relies on. `Ask` is what the system answers to an `add`; a handle is
-- added to be watched for what can be read.
pub record Watcher : Type 1 where
  pub State : Type 0
  pub Ask : Type 0
  pub knows : ℕ → State → Bool
  pub add : Ask → ℕ → State → Bool × State
  pub del : ℕ → State → Bool × State
  pub add_keeps :
      (ask : Ask) (x fd : ℕ) (s : State) → knows x s ≡ true → knows x (add ask fd s).1 ≡ true
  pub add_takes :
      (ask : Ask) (fd : ℕ) (s : State) → (add ask fd s).0 ≡ true → knows fd (add ask fd s).1 ≡ true
  pub add_refuses : (ask : Ask) (fd : ℕ) (s : State) → knows fd s ≡ true → (add ask fd s).0 ≡ false
  pub del_keeps :
      (x fd : ℕ) (s : State) → (x == fd) ≡ false → knows x s ≡ true → knows x (del fd s).1 ≡ true

is_known-more :
    (fd : ℕ) (fds more : List ℕ) → is_known fd fds ≡ true → is_known fd (fds ++ more) ≡ true
unfolding is_known
is_known-more fd [] more h = ground (arith, h)
is_known-more fd (x ∷ fds) more h = elim (Bool-cases (fd == x)) [
  | inl e ↦ rw e refl
  | inr e ↦ rw e (is_known-more fd fds more (ap (λ (b : Bool). b || is_known fd fds) (sym e) ∙ h))
]

is_known-other :
    (x fd : ℕ) (fds : List ℕ)
    → (x == fd) ≡ false
    → is_known x fds ≡ true
    → is_known x (forget fd fds) ≡ true
unfolding is_known forget
is_known-other x fd [] apart h = h
is_known-other x fd (y ∷ fds) apart h = elim (Bool-cases (fd == y)) [
  | inl e ↦
      let other : (x == y) ≡ false = ground (arith, apart, e) in
      rw e (ap (λ (b : Bool). b || is_known x fds) (sym other) ∙ h)
  | inr e ↦ elim (Bool-cases (x == y)) [
    | inl here ↦ rw (e, here) refl
    | inr on ↦
        rw (e, on)
          (is_known-other x fd fds apart (ap (λ (b : Bool). b || is_known x fds) (sym on) ∙ h))
  ]
]

pub poll_add_keeps :
    (x fd : ℕ) (m : Poll.Poll)
    → is_known x m.fds ≡ true
    → is_known x (Poll.add fd true false m).1.fds ≡ true
unfolding Poll.add
poll_add_keeps x fd m h = elim (Bool-cases (is_known fd m.fds)) [
  | inl e ↦ rw e h
  | inr e ↦ rw e (is_known-more x m.fds (fd ∷ []) h)
]

pub poll_add_takes :
    (fd : ℕ) (m : Poll.Poll)
    → (Poll.add fd true false m).0 ≡ true
    → is_known fd (Poll.add fd true false m).1.fds ≡ true
unfolding Poll.add
poll_add_takes fd m h = elim (Bool-cases (is_known fd m.fds)) [
  | inl e ↦ rw e e
  | inr e ↦ rw e (is_known_self fd m.fds)
]

pub poll_add_refuses :
    (fd : ℕ) (m : Poll.Poll) → is_known fd m.fds ≡ true → (Poll.add fd true false m).0 ≡ false
unfolding Poll.add
poll_add_refuses fd m h = rw h refl

pub poll_del_keeps :
    (x fd : ℕ) (m : Poll.Poll)
    → (x == fd) ≡ false
    → is_known x m.fds ≡ true
    → is_known x (Poll.del fd m).1.fds ≡ true
unfolding Poll.del
poll_del_keeps x fd m apart h = elim (Bool-cases (is_known fd m.fds)) [
  | inl e ↦ rw e (is_known-other x fd m.fds apart h)
  | inr e ↦ rw e h
]

-- With poll, where the system is not asked.
abbrev pub poll_watcher : Watcher
poll_watcher = record {
  State = Poll.Poll;
  Ask = Unit;
  knows = λ x m. is_known x m.fds;
  add = λ ask fd m. Poll.add fd true false m;
  del = Poll.del;
  add_keeps = λ ask x fd m h. poll_add_keeps x fd m h;
  add_takes = λ ask fd m h. poll_add_takes fd m h;
  add_refuses = λ ask fd m h. poll_add_refuses fd m h;
  del_keeps = poll_del_keeps;
}

pub epoll_add_keeps :
    (ask : Bool) (x fd : ℕ) (m : Epoll.Epoll)
    → is_known x m.fds ≡ true
    → is_known x (Epoll.add ask fd true false m).1.fds ≡ true
unfolding Epoll.add
epoll_add_keeps ask x fd m h = elim (Bool-cases (is_known fd m.fds || not ask)) [
  | inl e ↦ rw e h
  | inr e ↦ rw e (is_known-more x m.fds (fd ∷ []) h)
]

pub epoll_add_takes :
    (ask : Bool) (fd : ℕ) (m : Epoll.Epoll)
    → (Epoll.add ask fd true false m).0 ≡ true
    → is_known fd (Epoll.add ask fd true false m).1.fds ≡ true
unfolding Epoll.add
epoll_add_takes ask fd m = elim (Bool-cases (is_known fd m.fds || not ask)) [
  | inl e ↦ rw e (λ h. ground (arith, h))
  | inr e ↦ rw e (λ h. is_known_self fd m.fds)
]

pub epoll_add_refuses :
    (ask : Bool) (fd : ℕ) (m : Epoll.Epoll)
    → is_known fd m.fds ≡ true
    → (Epoll.add ask fd true false m).0 ≡ false
unfolding Epoll.add
epoll_add_refuses ask fd m h = rw h refl

pub epoll_del_keeps :
    (x fd : ℕ) (m : Epoll.Epoll)
    → (x == fd) ≡ false
    → is_known x m.fds ≡ true
    → is_known x (Epoll.del fd m).1.fds ≡ true
unfolding Epoll.del
epoll_del_keeps x fd m apart h = elim (Bool-cases (is_known fd m.fds)) [
  | inl e ↦ rw e (is_known-other x fd m.fds apart h)
  | inr e ↦ rw e h
]

-- With epoll, where the system may refuse a handle.
abbrev pub epoll_watcher : Watcher
epoll_watcher = record {
  State = Epoll.Epoll;
  Ask = Bool;
  knows = λ x m. is_known x m.fds;
  add = λ ask fd m. Epoll.add ask fd true false m;
  del = Epoll.del;
  add_keeps = epoll_add_keeps;
  add_takes = epoll_add_takes;
  add_refuses = epoll_add_refuses;
  del_keeps = epoll_del_keeps;
}
