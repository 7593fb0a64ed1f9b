-- ===== src/PacketDataStream/RoundTrip.antt =====
-- Reading gives back what was written: one integer, a row of integers, and through a buffer.
use libmumble.Prelude.{ℕ, ◌+◌, ◌-◌, ◌*◌, ◌/◌, ◌%◌, ◌^◌, ◌<◌}
use libmumble.Prelude.{◌≡◌, refl, ap, ◌∙◌, arith, Bool}
use libmumble.Prelude.{List, [], ◌∷◌, ◌++◌, append_assoc, length}
use libmumble.Prelude.{ltb, leb, tests, Bool-cases, inl, inr, All, IsByte, IsU64, not64}
use mathlib.Core.Path.{subst}
use libmumble.PacketDataStream.{PacketDataStream, next, read_case, read_ahead, read_u64}
use libmumble.PacketDataStream.Encoding.{magnitude, encoding}
use libmumble.PacketDataStream.Read.{at, or_row, or_row_lem, big_endian, first_7, first_14}
use libmumble.PacketDataStream.Read.{first_21, first_28, first_32, first_64, first_negative}
use libmumble.PacketDataStream.Read.{first_short}

module _ (old : ℕ) (ok : Bool) (rest : List ℕ) (o : ℕ) where
  -- The bytes in front of `rest` are read as `v`, and no more.
  abbrev Reads : List ℕ → ℕ → Type 0
  Reads bytes v =
      (before : List ℕ)
      → read_ahead old (bytes ++ rest) (at ok before (bytes ++ rest) o)
        ≡ (v, at ok (before ++ bytes) rest o)

  Reads-row :
      (t q : ℕ) (bs : List ℕ) (v : ℕ)
      → ((s : PacketDataStream) (nested : ℕ × PacketDataStream)
          → read_case old t s nested ≡ or_row (length bs) (q * 2 ^ (8 * length bs), s))
      → All IsByte bs
      → big_endian q bs ≡ v
      → v < 2 ^ 64
      → Reads (t ∷ bs) v
  unfolding read_ahead next
  Reads-row t q bs v first hb e h before =
      first _ _
      ∙ or_row_lem bs q ok (before ++ t ∷ []) rest o hb (rw e h)
      ∙ ap (λ x. (big_endian q bs, at ok x rest o)) (append_assoc before (t ∷ []) bs)
      ∙ ap (λ (x : ℕ). (x, at ok (before ++ t ∷ bs) rest o)) e

  Reads-magnitude : (m : ℕ) → IsU64 m → Reads (magnitude m) m
  unfolding magnitude
  Reads-magnitude m h = elim (Bool-cases (ltb m (2 ^ 7))) [
    | inl e ↦ rw e (
        Reads-row m m [] m
          (λ s n. first_7 old m s n (omega tests) ∙ ap (λ (x : ℕ). (x, s)) (omega arith)) tt refl h)
    | inr d ↦ rw d (elim (Bool-cases (ltb m (2 ^ 14))) [
      | inl e ↦ rw e (
          Reads-row _ (m / 2 ^ 8) (m % 2 ^ 8 ∷ []) m
            (λ s n. first_14 old (m / 2 ^ 8) s n (omega tests)) (omega arith) (omega arith) h)
      | inr d ↦ rw d (elim (Bool-cases (ltb m (2 ^ 21))) [
        | inl e ↦ rw e (
            Reads-row _ (m / 2 ^ 16) _ m (λ s n. first_21 old (m / 2 ^ 16) s n (omega tests))
              (omega arith) (omega arith) h)
        | inr d ↦ rw d (elim (Bool-cases (ltb m (2 ^ 28))) [
          | inl e ↦ rw e (
              Reads-row _ (m / 2 ^ 24) _ m (λ s n. first_28 old (m / 2 ^ 24) s n (omega tests))
                (omega arith) (omega arith) h)
          | inr d ↦ rw d (elim (Bool-cases (ltb m (2 ^ 32))) [
            | inl e ↦ rw e (
                Reads-row _ 0 _ m (λ s n. first_32 old 0 s n (omega arith)) (omega tests)
                  (omega arith) h)
            | inr d ↦ rw d (
                Reads-row _ 0 _ m (λ s n. first_64 old 0 s n (omega arith)) (omega arith)
                  (omega arith) h)
          ])
        ])
      ])
    ])
  ]

  Reads-negative : (m : ℕ) → IsU64 m → Reads (0xf8 ∷ magnitude m) (not64 m)
  unfolding read_ahead next
  Reads-negative m h before =
      let s = at ok (before ++ 0xf8 ∷ []) (magnitude m ++ rest) o in
      first_negative old 0 s (read_ahead old (magnitude m ++ rest) s) (omega arith)
      ∙ ap (λ (p : ℕ × PacketDataStream). (not64 p.0, p.1))
          (Reads-magnitude m h (before ++ 0xf8 ∷ []))
      ∙ ap (λ x. (not64 m, at ok x rest o)) (append_assoc before (0xf8 ∷ []) (magnitude m))

  Reads-short : (m : ℕ) → m < 4 → Reads ((0xfc + m) ∷ []) (not64 m)
  unfolding read_ahead next
  Reads-short m h before =
      first_short old m _ (read_ahead old rest (at ok (before ++ (0xfc + m) ∷ []) rest o)) h

  pub Reads-encoding : (v : ℕ) → IsU64 v → Reads (encoding v) v
  unfolding encoding
  Reads-encoding v h =
      let m = not64 v in
      let back : not64 m ≡ v = omega arith in
      elim (Bool-cases (leb (2 ^ 64 - 2 ^ 32) v)) [
        | inr e ↦ rw e (Reads-magnitude v h)
        | inl d ↦ rw d (elim (Bool-cases (leb (2 ^ 64 - 4) v)) [
          | inl e ↦ rw e (subst (Reads ((0xfc + m) ∷ [])) back (Reads-short m (omega tests)))
          | inr e ↦ rw e (subst (Reads (0xf8 ∷ magnitude m)) back (Reads-negative m (omega arith)))
        ])
      ]

pub read_u64-encoding :
    (old v : ℕ) (ok : Bool) (before rest : List ℕ) (o : ℕ)
    → IsU64 v
    → read_u64 old (at ok before (encoding v ++ rest) o) ≡ (v, at ok (before ++ encoding v) rest o)
unfolding read_u64
read_u64-encoding old v ok before rest o h = Reads-encoding old ok rest o v h before
