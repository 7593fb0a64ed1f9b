-- ===== src/Evp/Calls.antt =====
-- Calls of OpenSSL that succeed, as the models of src/Crypt.cpp and src/CryptOCB2.cpp make them.
use mathlib.Core.Path.{subst}
use libmumble.Prelude.{Bool, true, false, Option, none, some, ◌≡◌, refl, sym, ap, arith}
use libmumble.Tcp.Fields.{Bytes, value_or}
use libmumble.Evp.{on_call, on_bytes}

-- A call that succeeds and leaves a context of this kind, and one that gives these bytes.
abbrev pub Succeeds : {C : Type 0} → (C → Type 0) → Bool × C → Type 0
Succeeds P r = (r.0 ≡ true) × P r.1

abbrev pub Gives : {C : Type 0} → (C → Type 0) → Bytes → Option Bytes × C → Type 0
Gives P bytes r = (r.0 ≡ some bytes) × P r.1

pub on_call-Succeeds :
    {A C : Type 0} (P : C → Type 0) (Q : A → Type 0) (r : Bool × C) (fail next : C → A)
    → Succeeds P r
    → ((c : C) → P c → Q (next c))
    → Q (on_call r fail next)
unfolding on_call
on_call-Succeeds P Q (true, c) fail next h k = k c h.1
on_call-Succeeds P Q (false, c) fail next h k = ground (arith, h)

pub on_bytes-Gives :
    {A C : Type 0} (P : C → Type 0) (Q : A → Type 0) (bytes : Bytes) (r : Option Bytes × C)
    (fail : C → A) (next : Bytes → C → A)
    → Gives P bytes r
    → ((c : C) → P c → Q (next bytes c))
    → Q (on_bytes r fail next)
unfolding on_bytes
on_bytes-Gives P Q bytes (some b, c) fail next h k =
    subst (λ (x : Bytes). Q (next x c)) (sym (ap (λ (o : Option Bytes). value_or o b) h.0))
      (k c h.1)
on_bytes-Gives P Q bytes (none, c) fail next h k = ground (arith, h)

pub on_call-true :
    {A C : Type 0} (r : Bool × C) (fail next : C → A) → r.0 ≡ true → on_call r fail next ≡ next r.1
unfolding on_call
on_call-true (true, c) fail next h = refl
on_call-true (false, c) fail next h = ground (arith, h)
