-- ===== src/Tcp/Fields.antt =====
-- How src/Pack.cpp moves the fields between a message and a message of the protobuf library: an
-- optional field is an `Option`, a repeated one a list, and a string its bytes.
use libmumble.Prelude.{ℕ, ◌-◌, ◌^◌, ◌≡◌, refl, ap₂, Option, none, some, List, [], ◌∷◌, map}

abbrev pub Bytes : Type 0
Bytes = List ℕ

abbrev pub uint32_max : ℕ
uint32_max = 2 ^ 32 - 1

-- A getter of the protobuf library: the default stands in for a field that is not set. With the
-- old value for the default it is `if (proto.has_x()) msg.x = proto.x();`.
abbrev pub value_or {ℓ} : {A : Type ℓ} → Option A → A → A
value_or none d = d
value_or (some a) d = a

-- `if (proto.has_x()) msg.x = proto.x();` at an optional `msg.x`.
abbrev pub keep {ℓ} : {A : Type ℓ} → Option A → Option A → Option A
keep none old = old
keep (some a) old = some a

-- `if (!msg.x.empty()) proto.set_x(msg.x.data(), msg.x.size());`
abbrev pub unless_empty : List ℕ → Option (List ℕ)
unless_empty [] = none
unless_empty (b ∷ bs) = some (b ∷ bs)

pub keep-none {ℓ} : {A : Type ℓ} (o : Option A) → keep o none ≡ o
keep-none none = refl
keep-none (some a) = refl

pub value_or-unless_empty : (bs : List ℕ) → value_or (unless_empty bs) [] ≡ bs
value_or-unless_empty [] = refl
value_or-unless_empty (b ∷ bs) = refl

pub map-map {ℓ κ} :
    {A : Type ℓ} {B : Type κ} (f : A → B) (g : B → A) (h : A → A)
    → ((a : A) → g (f a) ≡ h a)
    → (xs : List A) → map g (map f xs) ≡ map h xs
map-map f g h back [] = refl
map-map f g h back (x ∷ xs) = ap₂ ◌∷◌ (back x) (map-map f g h back xs)

pub map-map_self {ℓ κ} :
    {A : Type ℓ} {B : Type κ} (f : A → B) (g : B → A)
    → ((a : A) → g (f a) ≡ a)
    → (xs : List A) → map g (map f xs) ≡ xs
map-map_self f g back [] = refl
map-map_self f g back (x ∷ xs) = ap₂ ◌∷◌ (back x) (map-map_self f g back xs)
