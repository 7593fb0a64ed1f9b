-- ===== src/Tcp/Pack/RoundTrip.antt =====
-- A packed message is unpacked as itself by the kind that packed it, and refused by every other.
use libmumble.Prelude.{ℕ, ◌^◌, ◌≤◌, ◌<◌, ◌≡◌, refl, ◌≢◌, ◌⊎◌}
use libmumble.Prelude.{true, false, some, ◌++◌, ap, ◌∙◌}
use libmumble.Prelude.{length, replicate, arith}
use libmumble.Prelude.{length-append, take-append_length, le→leb}
use libmumble.Prelude.{==-refl, ==-false, length-replicate, IsU32}
use libmumble.Tcp.Fields.{Bytes}
use libmumble.Tcp.Externals.{Externals}
use libmumble.Tcp.Kinds.{Kind, MessageOf, fresh, index, index-injective}
use libmumble.Tcp.Cases.{pack_fields, received, VersionsFit}
use libmumble.Tcp.Cases.{unpack_fields-pack_fields}
use libmumble.Tcp.Pack.{
  net_header, message_type, payload, Protobuf, Carries, serialized, framed, answer,
}
use libmumble.Tcp.Pack.{pack_proto, pack, parsed_size, parsed, unpack}
use native.Mathlib.Nat.{mod-eq_of_lt}

index-lt : (k : Kind) → index k < 2 ^ 16
unfolding index
index-lt k = ground arith

pub payload-net_header : (t s : ℕ) (rest : Bytes) → payload (net_header t s ++ rest) ≡ rest
unfolding payload net_header
payload-net_header t s rest = refl

pub type-net_header :
    (t s : ℕ) (rest : Bytes) → t < 2 ^ 16 → message_type (net_header t s ++ rest) ≡ t
unfolding message_type net_header
type-net_header t s rest h = omega arith

module _ (ext : Externals) (pb : Protobuf ext) (k : Kind) (msg : MessageOf ext k) (extra : ℕ)
    (c : Carries pb k (pack_fields ext k msg)) where
  written : serialized ext pb k (pack_fields ext k msg) ≡ some c.bytes
  unfolding serialized
  written = rw (c.sized, le→leb _ _ c.small, c.written)

  packed :
      pack ext pb k msg extra
      ≡ net_header (index k) (length c.bytes) ++ (c.bytes ++ replicate extra 0)
  packed =
      let small : IsU32 (length c.bytes) = omega (arith, c.small) in
      unfold pack pack_proto framed in
      ap (λ s. framed (index k) (pb.byte_size k (pack_fields ext k msg)) extra s) written
      ∙ rw (c.sized, mod-eq_of_lt {n = length c.bytes} {m = 2 ^ 32} small)

  -- The size is the one in the header, or any larger one over a buffer with nothing behind.
  abbrev pub SizeFits : ℕ → Type 0
  SizeFits n = (n ≡ length c.bytes) ⊎ ((extra ≡ 0) × (length c.bytes ≤ n))

  size_is_exact :
      (n : ℕ) → SizeFits n → parsed_size (c.bytes ++ replicate extra 0) n ≡ length c.bytes
  unfolding parsed_size
  size_is_exact n h =
      ground (
        arith,
        c.small,
        length-append c.bytes (replicate extra 0),
        length-replicate {A = ℕ} extra 0,
      )

  takes_body :
      (n : ℕ)
      → SizeFits n
      → parsed ext pb k
          (c.bytes ++ replicate extra 0)
          (parsed_size (c.bytes ++ replicate extra 0) n)
        ≡ some (pack_fields ext k msg)
  unfolding parsed
  takes_body n h = rw (
    size_is_exact n h,
    le→leb _ _ c.small,
    take-append_length c.bytes (replicate extra 0),
    c.parsed,
  )

  -- A message that the protobuf library carries comes back: every field, but an absent user ID or
  -- last channel as 0, a suggested version that is not valid as none, the address of a ban or of
  -- statistics as what the constructor from a string makes of its sixteen bytes, and a certificate as
  -- what its constructor makes of its DER form. The size handed in is that of the header, or any
  -- larger one when there are no extra bytes; the versions fit their parts.
  pub unpack-pack :
      VersionsFit ext k msg
      → (n : ℕ) → SizeFits n
      → unpack ext pb k (pack ext pb k msg extra) (fresh ext k) n ≡ (true, received ext k msg)
  unfolding unpack answer
  unpack-pack fits n h =
      ap (λ (b : Bytes). unpack ext pb k b (fresh ext k) n) packed
      ∙ rw (
        type-net_header (index k) (length c.bytes) (c.bytes ++ replicate extra 0) (index-lt k),
        payload-net_header (index k) (length c.bytes) (c.bytes ++ replicate extra 0),
        ==-refl (index k),
        takes_body n h,
        unpack_fields-pack_fields ext k msg fits,
      )

  -- A packed message is refused by every other kind, and the message handed in is not changed.
  pub unpack_other :
      (j : Kind) (old : MessageOf ext j) (n : ℕ)
      → j ≢ k
      → unpack ext pb j (pack ext pb k msg extra) old n ≡ (false, old)
  unfolding unpack
  unpack_other j old n other =
      let apart : index j ≢ index k = λ e. other (index-injective j k e) in
      ap (λ (b : Bytes). unpack ext pb j b old n) packed
      ∙ rw (
        type-net_header (index k) (length c.bytes) (c.bytes ++ replicate extra 0) (index-lt k),
        ==-false _ _ apart,
      )
