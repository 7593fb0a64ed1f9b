-- ===== src/Peer/Watched.antt =====
-- The table of connections of src/Peer.cpp against its monitor.
use mathlib.Core.Path.{subst}
use libmumble.Prelude.{
  ℕ, Bool, true, false, Option, none, some, List, [], ◌∷◌, ◌==◌, ◌||◌, if◌then◌else◌, ◌≡◌, ◌⊎◌, inl,
  inr, refl, sym, ap, ◌∙◌, arith, Bool-cases,
}
use libmumble.Connection.Tls.{Code, busy}
use libmumble.Monitor.{is_known}
use libmumble.Monitor.Watchers.{Watcher}
use libmumble.Peer.{
  Proto, Tcp, new_tcp, put, extract, find, add_tcp, del_tcp, bind, bind_idle, watch, bind_tcp,
  unbind, start_tcp, stop, run,
}
use libmumble.Peer.Table.{find-put, find-extract_self, find-extract}

pick : {A : Type 0} (Q : A → Type 0) (b : Bool) (x y : A) → Q x → Q y → Q (if b then x else y)
pick Q true x y hx hy = hx
pick Q false x y hx hy = hy

-- The handles that a monitor has refused, with one that it may have taken or known before.
unfoldable pub or_refused : Bool → ℕ → List ℕ → List ℕ
or_refused is_there fd refused = if is_there then refused else fd ∷ refused

module _ (w : Watcher) where
  -- Every handle with a connection is known to the monitor, or it was refused.
  abbrev pub IsWatched : List ℕ → List (ℕ × ℕ) → w.State → Type 0
  IsWatched refused table m =
      (fd connection : ℕ)
      → find fd table ≡ some connection
      → w.knows fd m ≡ true ⊎ is_known fd refused ≡ true

  -- Whether a monitor has a handle behind `add`.
  unfoldable pub is_there : w.Ask → ℕ → w.State → Bool
  is_there ask fd m = (w.add ask fd m).0 || w.knows fd m

  -- What a peer comes to by its operations from a monitor, whatever the system answers, with the handles
  -- of connections that the monitor refused though it did not know them.
  pub data Reached (initial : w.State) : List ℕ → Tcp w → Type 0 where
    made : Reached initial [] (new_tcp w initial)
    bound :
        {refused : List ℕ} {t : Tcp w} (fd : Option ℕ) (endpoint heard : Code) (ask : w.Ask)
        → Reached initial refused t
        → Reached initial refused
            (record t { proto = (bind_tcp w fd endpoint ask heard t.proto).1 })
    unbound :
        {refused : List ℕ} {t : Tcp w}
        → Reached initial refused t
        → Reached initial refused (record t { proto = (unbind w t.proto).1 })
    thread_started :
        {refused : List ℕ} {t : Tcp w}
        → Reached initial refused t
        → Reached initial refused (record t { proto = (start_tcp w t.proto).1 })
    thread_stopped :
        {refused : List ℕ} {t : Tcp w}
        → Reached initial refused t
        → Reached initial refused (record t { proto = (stop w t.proto).1 })
    joined :
        {refused : List ℕ} {t : Tcp w} (ask : w.Ask) (fd connection : ℕ)
        → Reached initial refused t
        → Reached initial
            (or_refused (is_there ask fd t.proto.monitor) fd refused)
            (add_tcp w ask fd connection t).1
    left :
        {refused : List ℕ} {t : Tcp w} (fd : ℕ)
        → Reached initial refused t
        → Reached initial refused (del_tcp w fd t).1

  refused-stays :
      (b : Bool) (x fd : ℕ) (refused : List ℕ)
      → is_known x refused ≡ true
      → is_known x (or_refused b fd refused) ≡ true
  unfolding or_refused is_known
  refused-stays true x fd refused h = h
  refused-stays false x fd refused h = elim (Bool-cases (x == fd)) [
    | inl e ↦ rw e refl
    | inr e ↦ rw e h
  ]

  -- A handle that was added is known, or it is with the refused ones.
  self_is_there :
      (ask : w.Ask) (fd : ℕ) (refused : List ℕ) (m : w.State)
      → w.knows fd (w.add ask fd m).1 ≡ true
        ⊎ is_known fd (or_refused (is_there ask fd m) fd refused) ≡ true
  unfolding or_refused is_there is_known
  self_is_there ask fd refused m = elim (Bool-cases (w.add ask fd m).0) [
    | inl e ↦ inl (w.add_takes ask fd m e)
    | inr e ↦ elim (Bool-cases (w.knows fd m)) [
      | inl old ↦ inl (w.add_keeps ask fd fd m old)
      | inr new ↦ let here : (fd == fd) ≡ true = ground arith in inr (rw (e, new, here) refl)
    ]
  ]

  joined-IsWatched :
      (ask : w.Ask) (fd connection : ℕ) (refused : List ℕ) (table : List (ℕ × ℕ)) (m : w.State)
      → IsWatched refused table m
      → IsWatched
          (or_refused (is_there ask fd m) fd refused)
          (put fd connection table)
          (w.add ask fd m).1
  joined-IsWatched ask fd connection refused table m h x c found = elim (Bool-cases (x == fd)) [
    | inl e ↦
        subst
          (λ (n : ℕ).
            w.knows n (w.add ask fd m).1 ≡ true
            ⊎ is_known n (or_refused (is_there ask fd m) fd refused) ≡ true)
          (sym (ground (arith, e))) (self_is_there ask fd refused m)
    | inr e ↦ elim (h x c (sym (find-put x fd connection table e) ∙ found)) [
      | inl known ↦ inl (w.add_keeps ask x fd m known)
      | inr was ↦ inr (refused-stays (is_there ask fd m) x fd refused was)
    ]
  ]

  left-IsWatched :
      (fd : ℕ) (refused : List ℕ) (table : List (ℕ × ℕ)) (m : w.State)
      → IsWatched refused table m
      → IsWatched refused (extract fd table) (w.del fd m).1
  left-IsWatched fd refused table m h x c found = elim (Bool-cases (x == fd)) [
    | inl e ↦
        let here : find x (extract fd table) ≡ none =
          ap (λ (n : ℕ). find n (extract fd table)) (ground (arith, e))
          ∙ find-extract_self fd table in
        let never : none ≡ some c = sym here ∙ found in absurd (ground (arith, never))
    | inr e ↦ elim (h x c (sym (find-extract x fd table e) ∙ found)) [
      | inl known ↦ inl (w.del_keeps x fd m e known)
      | inr was ↦ inr was
    ]
  ]

  -- What an operation on the socket does to the monitor.
  abbrev Grows : w.State → Proto w → Type 0
  Grows m p = (x : ℕ) → w.knows x m ≡ true → w.knows x p.monitor ≡ true

  watch-Grows :
      (code : Code) (m : w.State) (r : Bool × w.State) (p : Proto w)
      → ((x : ℕ) → w.knows x m ≡ true → w.knows x r.1 ≡ true)
      → Grows m (watch w code r p).1
  unfolding watch
  watch-Grows code m (true, monitor) p h = h
  watch-Grows code m (false, monitor) p h = h

  bind_idle-Grows :
      (fd : Option ℕ) (code : Code) (ask : w.Ask) (p : Proto w)
      → Grows p.monitor (bind_idle w fd code ask p).1
  unfolding bind_idle
  bind_idle-Grows none code ask p = λ x h. h
  bind_idle-Grows (some fd) code ask p =
      watch-Grows code p.monitor (w.add ask fd p.monitor) (record p { socket = some fd })
        (λ x h. w.add_keeps ask x fd p.monitor h)

  bind-Grows :
      (fd : Option ℕ) (code : Code) (ask : w.Ask) (p : Proto w)
      → Grows p.monitor (bind w fd code ask p).1
  unfolding bind
  bind-Grows fd code ask p =
      pick (λ (r : Code × Proto w). Grows p.monitor r.1) p.has_thread (busy, p)
        (bind_idle w fd code ask p) (λ x h. h) (bind_idle-Grows fd code ask p)

  unbind-Grows : (p : Proto w) → Grows p.monitor (unbind w p).1
  unfolding unbind
  unbind-Grows p =
      pick (λ (r : Code × Proto w). Grows p.monitor r.1) p.has_thread _ _ (λ x h. h) (λ x h. h)

  start_tcp-Grows : (p : Proto w) → Grows p.monitor (start_tcp w p).1
  unfolding start_tcp run
  start_tcp-Grows p =
      pick (λ (r : Code × Proto w). Grows p.monitor r.1) p.has_thread _ _ (λ x h. h) (λ x h. h)

  stop-Grows : (p : Proto w) → Grows p.monitor (stop w p).1
  unfolding stop
  stop-Grows p =
      pick (λ (r : Code × Proto w). Grows p.monitor r.1) p.has_thread _ _ (λ x h. h) (λ x h. h)

  -- Where no handle is with the refused ones beyond those before, what was watched still is.
  grown :
      (refused : List ℕ) (table : List (ℕ × ℕ)) (m : w.State) (p : Proto w)
      → Grows m p
      → IsWatched refused table m
      → IsWatched refused table p.monitor
  grown refused table m p g h x c found = elim (h x c found) [
    | inl known ↦ inl (g x known)
    | inr was ↦ inr was
  ]

  -- Whatever is done with a peer in whatever order, and whatever the system answers to it and to its
  -- monitor: the handle of every connection in its table is known to the monitor, but for the handles
  -- that the monitor did not know and refused when their connection was added.
  pub Reached-IsWatched :
      {initial : w.State} {refused : List ℕ} {t : Tcp w}
      → Reached initial refused t
      → IsWatched refused t.connections t.proto.monitor
  unfolding new_tcp find bind_tcp add_tcp del_tcp
  Reached-IsWatched made = λ x c h. ground (arith, h)
  Reached-IsWatched (bound {refused = refused} {t = t} fd endpoint heard ask r) =
      grown refused t.connections t.proto.monitor (bind w fd endpoint ask t.proto).1
        (bind-Grows fd endpoint ask t.proto) (Reached-IsWatched r)
  Reached-IsWatched (unbound {refused = refused} {t = t} r) =
      grown refused t.connections t.proto.monitor (unbind w t.proto).1 (unbind-Grows t.proto)
        (Reached-IsWatched r)
  Reached-IsWatched (thread_started {refused = refused} {t = t} r) =
      grown refused t.connections t.proto.monitor (start_tcp w t.proto).1 (start_tcp-Grows t.proto)
        (Reached-IsWatched r)
  Reached-IsWatched (thread_stopped {refused = refused} {t = t} r) =
      grown refused t.connections t.proto.monitor (stop w t.proto).1 (stop-Grows t.proto)
        (Reached-IsWatched r)
  Reached-IsWatched (joined {refused = refused} {t = t} ask fd connection r) =
      joined-IsWatched ask fd connection refused t.connections t.proto.monitor (Reached-IsWatched r)
  Reached-IsWatched (left {refused = refused} {t = t} fd r) =
      left-IsWatched fd refused t.connections t.proto.monitor (Reached-IsWatched r)
