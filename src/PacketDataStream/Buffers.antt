-- ===== src/PacketDataStream/Buffers.antt =====
-- Integers that go through a buffer: written from its start, and read back after `rewind`.
use libmumble.Prelude.{ℕ, zero, suc, ◌≤◌}
use libmumble.Prelude.{◌≡◌, refl, sym, ap, ◌∙◌, arith, Bool, true, IsU64, IsU32, IsByte, All}
use libmumble.Prelude.{List, [], ◌∷◌, ◌++◌, append_assoc, append-nil, length, drop, take-all}
use libmumble.PacketDataStream.{
  PacketDataStream, open_buf, rewind, buf, append, write_u64, read_u64,
}
use libmumble.PacketDataStream.Encoding.{encoding, encoding-IsByte}
use libmumble.PacketDataStream.Write.{appended, append_all, append_all_lem, write_u64-append_all}
use libmumble.PacketDataStream.Read.{at}
use libmumble.PacketDataStream.RoundTrip.{read_u64-encoding}

-- `stream << v₁ << v₂ …`
abbrev pub write_all : List ℕ → PacketDataStream → PacketDataStream
write_all [] s = s
write_all (v ∷ vs) s = write_all vs (write_u64 v s)

-- `stream >> v₁ >> v₂ …`, `n` times.
abbrev pub read_all : ℕ → PacketDataStream → List ℕ × PacketDataStream
read_all zero s = ([], s)
read_all (suc n) s = let (v, s') = read_u64 0 s in let (vs, s'') = read_all n s' in (v ∷ vs, s'')

abbrev pub encodings : List ℕ → List ℕ
encodings [] = []
encodings (v ∷ vs) = encoding v ++ encodings vs

append_all-append :
    (xs bs : List ℕ) (s : PacketDataStream)
    → append_all (xs ++ bs) s ≡ append_all bs (append_all xs s)
append_all-append [] bs s = refl
append_all-append (a ∷ xs) bs s = append_all-append xs bs (append a s)

write_all-append_all :
    (vs : List ℕ) (s : PacketDataStream)
    → All IsU64 vs
    → write_all vs s ≡ append_all (encodings vs) s
write_all-append_all [] s h = refl
write_all-append_all (v ∷ vs) s (hv, hvs) =
    rw (write_u64-append_all v s hv, append_all-append (encoding v) (encodings vs) s)
      (write_all-append_all vs (append_all (encoding v) s) hvs)

append-IsByte : (xs ys : List ℕ) → All IsByte xs → All IsByte ys → All IsByte (xs ++ ys)
append-IsByte [] ys h k = k
append-IsByte (x ∷ xs) ys (hx, hxs) k = (hx, append-IsByte xs ys hxs k)

pub encodings-IsByte : (vs : List ℕ) → All IsU64 vs → All IsByte (encodings vs)
encodings-IsByte [] h = tt
encodings-IsByte (v ∷ vs) (hv, hvs) =
    append-IsByte (encoding v) (encodings vs) (encoding-IsByte v hv) (encodings-IsByte vs hvs)

-- Any number of integers written to a stream of any size append their encodings: what finds room
-- is stored, the rest is counted by the undersize, and the stream is good afterwards exactly if
-- it was and everything fitted.
pub write_all-appended :
    (vs : List ℕ) (s : PacketDataStream)
    → All IsU64 vs
    → IsU32 s.overshoot
    → write_all vs s ≡ appended (encodings vs) s
write_all-appended vs s h k =
    write_all-append_all vs s h ∙ append_all_lem (encodings vs) s (encodings-IsByte vs h) k

read_all-encodings :
    (vs : List ℕ) (ok : Bool) (before rest : List ℕ)
    → All IsU64 vs
    → read_all (length vs) (at ok before (encodings vs ++ rest) 0)
      ≡ (vs, at ok (before ++ encodings vs) rest 0)
read_all-encodings [] ok before rest h = ap (λ x. ([], at ok x rest 0)) (sym (append-nil before))
read_all-encodings (v ∷ vs) ok before rest (hv, hvs) = rw (
  append_assoc (encoding v) (encodings vs) rest,
  read_u64-encoding 0 v ok before (encodings vs ++ rest) 0 hv,
  read_all-encodings vs ok (before ++ encoding v) rest hvs,
  append_assoc before (encoding v) (encodings vs),
)

-- Integers written one after the other into a fresh stream over memory that has room for them
-- come back in order, and the stream stays good with the cursor where the writer left it.
pub read_all-write_all :
    (vs memory : List ℕ)
    → All IsU64 vs
    → length (encodings vs) ≤ length memory
    → let written = write_all vs (open_buf memory) in
      read_all (length vs) (rewind written) ≡ (vs, written) × (written.ok ≡ true)
unfolding open_buf rewind buf
read_all-write_all vs memory h fits =
    let n = length (encodings vs) in
    let end : write_all vs (at true [] memory 0) ≡ at true (encodings vs) (drop n memory) 0 =
      write_all-appended vs (at true [] memory 0) h (omega arith)
      ∙ ground (arith, take-all (encodings vs) (length memory) fits) in
    rw end (read_all-encodings vs true [] (drop n memory) h, refl)
