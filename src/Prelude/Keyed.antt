-- ===== src/Prelude/Keyed.antt =====
-- A vector whose elements carry an id: search, write, removal and position by id.
use Prim.Native.Nat.{ℕ, zero, suc, ◌+◌, ◌≤◌}
use Prim.Native.String.{String}
use mathlib.Core.Path.{◌≡◌, refl}
use mathlib.Core.Option.{Option, none, some}
use mathlib.Core.List.{List, [], ◌∷◌, ◌++◌, map}
use native.Mathlib.Omega.{arith}
use openbrowser.Prelude.Tests.{◌==◌, string_eq, if◌then◌else◌}
use openbrowser.Prelude.Lists.{length, get_elem?}

abbrev pub map_option {ℓ κ} : {A : Type ℓ} {B : Type κ} → (A → B) → Option A → Option B
map_option f none = none
map_option f (some a) = some (f a)

module _ {ℓ} {A : Type ℓ} (key : A → String) where
  unfoldable pub find : String → List A → Option A
  find id [] = none
  find id (x ∷ xs) = if key x == id then some x else find id xs

  unfoldable pub modify : String → (A → A) → List A → List A
  modify id f [] = []
  modify id f (x ∷ xs) = if key x == id then f x ∷ xs else x ∷ modify id f xs

  unfoldable pub erase : String → List A → List A
  erase id [] = []
  erase id (x ∷ xs) = if key x == id then xs else x ∷ erase id xs

  unfoldable pub index_of : String → List A → ℕ
  index_of id [] = 0
  index_of id (x ∷ xs) = if key x == id then 0 else suc (index_of id xs)

  abbrev pub Distinct : List A → Type ℓ
  Distinct [] = Unit {ℓ}
  Distinct (x ∷ xs) = (find (key x) xs ≡ none) × Distinct xs

-- `vector::insert` at an index within the vector.
unfoldable pub insert_at {ℓ} : {A : Type ℓ} → ℕ → A → List A → List A
insert_at zero a xs = a ∷ xs
insert_at (suc n) a [] = a ∷ []
insert_at (suc n) a (x ∷ xs) = x ∷ insert_at n a xs

module _ {ℓ} {A : Type ℓ} (key : A → String) where
  pub find-id : (i : String) (xs : List A) (a : A) → find key i xs ≡ some a → key a ≡ i
  unfolding find
  find-id i [] a h = ground arith
  find-id i (x ∷ xs) a h = ground (arith, find-id i xs a)

  pub find-modify :
      (i : String) (f : A → A)
      → ((a : A) → key (f a) ≡ key a)
      → (j : String) (xs : List A)
      → find key j (modify key i f xs)
        ≡ (if i == j then map_option f (find key i xs) else find key j xs)
  unfolding find modify
  find-modify i f keeps j [] = ground arith
  find-modify i f keeps j (x ∷ xs) = ground (arith, keeps x, find-modify i f keeps j xs)

  pub modify-Distinct :
      (i : String) (f : A → A)
      → ((a : A) → key (f a) ≡ key a)
      → (xs : List A) → Distinct key xs
      → Distinct key (modify key i f xs)
  unfolding modify
  modify-Distinct i f keeps [] d = tt
  modify-Distinct i f keeps (x ∷ xs) d =
      ground (arith, keeps x, modify-Distinct i f keeps xs d.1, find-modify i f keeps (key x) xs)

  pub find-append :
      (j : String) (xs : List A) (a : A)
      → find key j (xs ++ a ∷ [])
        ≡ (elim (find key j xs) [ some b ↦ some b | none ↦ if key a == j then some a else none ])
  unfolding find
  find-append j [] a = ground arith
  find-append j (x ∷ xs) a = ground (arith, find-append j xs a)

  pub append-Distinct :
      (xs : List A) (a : A)
      → Distinct key xs
      → find key (key a) xs ≡ none
      → Distinct key (xs ++ a ∷ [])
  unfolding find
  append-Distinct [] a d h = (refl, tt)
  append-Distinct (x ∷ xs) a d h =
      ground (arith, append-Distinct xs a d.1, find-append (key x) xs a)

  pub find-erase :
      (i j : String) (xs : List A)
      → Distinct key xs
      → find key j (erase key i xs) ≡ (if i == j then none else find key j xs)
  unfolding find erase
  find-erase i j [] d = ground arith
  find-erase i j (x ∷ xs) d = ground (arith, find-erase i j xs d.1)

  pub erase-Distinct : (i : String) (xs : List A) → Distinct key xs → Distinct key (erase key i xs)
  unfolding erase
  erase-Distinct i [] d = tt
  erase-Distinct i (x ∷ xs) d = ground (arith, erase-Distinct i xs d.1, find-erase i (key x) xs d.1)

  pub find-insert_at :
      (j : String) (n : ℕ) (a : A) (xs : List A)
      → find key (key a) xs ≡ none
      → find key j (insert_at n a xs) ≡ (if key a == j then some a else find key j xs)
  unfolding find insert_at
  find-insert_at j zero a xs h = refl
  find-insert_at j (suc n) a [] h = refl
  find-insert_at j (suc n) a (x ∷ xs) h = ground (arith, find-insert_at j n a xs)

  pub insert_at-Distinct :
      (n : ℕ) (a : A) (xs : List A)
      → find key (key a) xs ≡ none
      → Distinct key xs
      → Distinct key (insert_at n a xs)
  unfolding find insert_at
  insert_at-Distinct zero a xs h d = (h, d)
  insert_at-Distinct (suc n) a [] h d = (refl, tt)
  insert_at-Distinct (suc n) a (x ∷ xs) h d =
      ground (arith, insert_at-Distinct n a xs, find-insert_at (key x) n a xs)

  -- Taking an element out at its id undoes its insertion.
  pub erase-insert_at :
      (n : ℕ) (a : A) (xs : List A)
      → find key (key a) xs ≡ none
      → erase key (key a) (insert_at n a xs) ≡ xs
  unfolding find erase insert_at
  erase-insert_at zero a xs h = ground arith
  erase-insert_at (suc n) a [] h = ground arith
  erase-insert_at (suc n) a (x ∷ xs) h = ground (arith, erase-insert_at n a xs)

  pub find-map :
      (f : A → A)
      → ((a : A) → key (f a) ≡ key a)
      → (j : String) (xs : List A) → find key j (map f xs) ≡ map_option f (find key j xs)
  unfolding find
  find-map f keeps j [] = refl
  find-map f keeps j (x ∷ xs) = ground (arith, keeps x, find-map f keeps j xs)

  pub erase-map :
      (f : A → A)
      → ((a : A) → key (f a) ≡ key a)
      → (i : String) (xs : List A) → erase key i (map f xs) ≡ map f (erase key i xs)
  unfolding erase
  erase-map f keeps i [] = refl
  erase-map f keeps i (x ∷ xs) = ground (arith, keeps x, erase-map f keeps i xs)

  pub erase-modify :
      (i : String) (f : A → A)
      → ((a : A) → key (f a) ≡ key a)
      → (xs : List A) → erase key i (modify key i f xs) ≡ erase key i xs
  unfolding modify erase
  erase-modify i f keeps [] = refl
  erase-modify i f keeps (x ∷ xs) = ground (arith, keeps x, erase-modify i f keeps xs)

  pub length-erase :
      (i : String) (xs : List A) (a : A)
      → find key i xs ≡ some a
      → length xs ≡ length (erase key i xs) + 1
  unfolding find erase
  length-erase i [] a h = ground arith
  length-erase i (x ∷ xs) a h = ground (arith, length-erase i xs a)

pub get_elem?-insert_at {ℓ} :
    {A : Type ℓ} (n : ℕ) (a : A) (xs : List A)
    → n ≤ length xs
    → get_elem? (insert_at n a xs) n ≡ some a
unfolding insert_at
get_elem?-insert_at zero a xs h = refl
get_elem?-insert_at (suc n) a [] h = absurd (omega arith)
get_elem?-insert_at (suc n) a (x ∷ xs) h = get_elem?-insert_at n a xs (omega arith)
