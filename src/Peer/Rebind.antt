-- ===== src/Peer/Rebind.antt =====
-- Binding again after `unbind` in src/Peer.cpp.
use libmumble.Prelude.{ℕ, Bool, true, false, none, some, if◌then◌else◌, ◌≡◌, ap, ◌∙◌, refl}
use libmumble.Connection.Tls.{Code, success, busy, failure}
use libmumble.Monitor.Watchers.{Watcher}
use libmumble.Peer.{Proto, bind, bind_idle, watch, bind_tcp, next_code, unbind}

module _ (w : Watcher) where
  watch-taken :
      (code : Code) (r : Bool × w.State) (p : Proto w)
      → r.0 ≡ true
      → watch w code r p ≡ (code, record p { monitor = r.1 })
  unfolding watch
  watch-taken code (b, m) p h = rw h refl

  watch-refused :
      (code : Code) (r : Bool × w.State) (p : Proto w)
      → r.0 ≡ false
      → (watch w code r p).0 ≡ failure
  unfolding watch
  watch-refused code (b, m) p h = rw h refl

  -- A peer with its socket bound.
  abbrev bound_to : w.Ask → ℕ → Proto w → Proto w
  bound_to ask fd p = record p { monitor = (w.add ask fd p.monitor).1; socket = some fd }

  bind_new :
      (ask : w.Ask) (fd : ℕ) (code : Code) (p : Proto w)
      → p.has_thread ≡ false
      → (w.add ask fd p.monitor).0 ≡ true
      → bind w (some fd) code ask p ≡ (code, bound_to ask fd p)
  unfolding bind bind_idle
  bind_new ask fd code p idle new =
      ap (λ (b : Bool). if b then (busy, p) else bind_idle w (some fd) code ask p) idle
      ∙ watch-taken code (w.add ask fd p.monitor) (record p { socket = some fd }) new

  bind_known :
      (ask : w.Ask) (fd : ℕ) (code : Code) (p : Proto w)
      → p.has_thread ≡ false
      → w.knows fd p.monitor ≡ true
      → (bind w (some fd) code ask p).0 ≡ failure
  unfolding bind bind_idle
  bind_known ask fd code p idle known =
      ap (λ (b : Bool). (if b then (busy, p) else bind_idle w (some fd) code ask p).0) idle
      ∙ watch-refused code (w.add ask fd p.monitor) (record p { socket = some fd })
          (w.add_refuses ask fd p.monitor known)

  unbind_idle :
      (p : Proto w) → p.has_thread ≡ false → unbind w p ≡ (success, record p { socket = none })
  unfolding unbind
  unbind_idle p idle =
      ap (λ (b : Bool). if b then (busy, p) else (success, record p { socket = none })) idle

  -- `unbind` leaves the handle with the monitor: when no thread runs and the monitor takes a handle,
  -- binding it succeeds, unbinding succeeds, and binding fails with `Code::Failure` when the system
  -- gives the new socket the same handle, as it may since the old one is closed, whatever it answers
  -- to the monitor then.
  pub bind_tcp-unbind :
      (ask later : w.Ask) (fd : ℕ) (p : Proto w)
      → p.has_thread ≡ false
      → (w.add ask fd p.monitor).0 ≡ true
      → (first : Proto w) × (second : Proto w) × (bind_tcp w (some fd) success ask success p
          ≡ (success, first))
        × (unbind w first ≡ (success, second))
        × ((bind_tcp w (some fd) success later success second).0 ≡ failure)
  unfolding bind_tcp next_code
  bind_tcp-unbind ask later fd p idle new = (
    bound_to ask fd p,
    record (bound_to ask fd p) { socket = none },
    ap (λ (r : Code × Proto w). (next_code success r.0, r.1)) (bind_new ask fd success p idle new),
    unbind_idle (bound_to ask fd p) idle,
    ap (λ (c : Code). next_code success c)
        (bind_known later fd success (record (bound_to ask fd p) { socket = none }) idle
          (w.add_takes ask fd p.monitor new)),
  )
