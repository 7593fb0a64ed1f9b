-- ===== src/Peer/Table.antt =====
-- Laws of the table of connections of src/Peer.cpp.
use libmumble.Prelude.{
  ℕ, true, false, none, List, [], ◌∷◌, ◌==◌, ◌≡◌, refl, arith, Bool-cases, inl, inr,
}
use libmumble.Peer.{put, extract, find}

apart_from : (x fd y : ℕ) → (x == fd) ≡ false → (fd == y) ≡ true → (x == y) ≡ false
apart_from x fd y apart e = ground (arith, apart, e)

pub find-put :
    (x fd connection : ℕ) (table : List (ℕ × ℕ))
    → (x == fd) ≡ false
    → find x (put fd connection table) ≡ find x table
unfolding find put
find-put x fd connection [] apart = rw apart refl
find-put x fd connection ((other, old) ∷ table) apart = elim (Bool-cases (fd == other)) [
  | inl e ↦ rw (e, apart_from x fd other apart e) refl
  | inr e ↦ rw e (rw (find-put x fd connection table apart) refl)
]

pub find-extract_self : (fd : ℕ) (table : List (ℕ × ℕ)) → find fd (extract fd table) ≡ none
unfolding find extract
find-extract_self fd [] = refl
find-extract_self fd ((other, old) ∷ table) = elim (Bool-cases (fd == other)) [
  | inl e ↦ rw e (find-extract_self fd table)
  | inr e ↦ rw e (rw (e, find-extract_self fd table) refl)
]

pub find-extract :
    (x fd : ℕ) (table : List (ℕ × ℕ)) → (x == fd) ≡ false → find x (extract fd table) ≡ find x table
unfolding find extract
find-extract x fd [] apart = refl
find-extract x fd ((other, old) ∷ table) apart = elim (Bool-cases (fd == other)) [
  | inl e ↦ rw (e, find-extract x fd table apart, apart_from x fd other apart e) refl
  | inr e ↦ rw (e, find-extract x fd table apart) refl
]
