-- ===== src/Graphop/Keys.antt =====
-- The keys of a Go map: a list with no key twice.
use babyboy.Prelude.{
  ℕ, ◌+◌, ◌≡◌, refl, List, [], ◌∷◌, true, false, not, ◌&&◌, ◌||◌, ◌==◌, if◌then◌else◌, arith, elem,
  distinct, length, keep, elem-keep, distinct-keep,
}

abbrev pub insert : ℕ → List ℕ → List ℕ
insert k s = if elem k s then s else k ∷ s

abbrev pub insert_all : List ℕ → List ℕ → List ℕ
insert_all [] s = s
insert_all (k ∷ ks) s = insert_all ks (insert k s)

abbrev pub delete : ℕ → List ℕ → List ℕ
delete k s = keep (λ j. not (j == k)) s

pub elem-insert : (j k : ℕ) (s : List ℕ) → elem j (insert k s) ≡ (k == j || elem j s)
elem-insert j k s = ground arith

pub distinct-insert : (k : ℕ) (s : List ℕ) → distinct s ≡ true → distinct (insert k s) ≡ true
distinct-insert k s h = ground arith

pub elem-insert_all : (j : ℕ) (ks s : List ℕ) → elem j (insert_all ks s) ≡ (elem j ks || elem j s)
elem-insert_all j [] s = refl
elem-insert_all j (k ∷ ks) s = ground (arith, elem-insert_all j ks (insert k s), elem-insert j k s)

pub distinct-insert_all : (ks s : List ℕ) → distinct s ≡ true → distinct (insert_all ks s) ≡ true
distinct-insert_all [] s h = h
distinct-insert_all (k ∷ ks) s h = distinct-insert_all ks (insert k s) (distinct-insert k s h)

pub elem-delete : (j k : ℕ) (s : List ℕ) → elem j (delete k s) ≡ (not (j == k) && elem j s)
elem-delete j k s = elem-keep (λ i. not (i == k)) j s

pub distinct-delete : (k : ℕ) (s : List ℕ) → distinct s ≡ true → distinct (delete k s) ≡ true
distinct-delete k s h = distinct-keep (λ i. not (i == k)) s h

-- To take out what is not there changes nothing.
pub delete_absent : (k : ℕ) (s : List ℕ) → elem k s ≡ false → delete k s ≡ s
delete_absent k [] h = refl
delete_absent k (x ∷ s) h = ground (arith, delete_absent k s)

-- The number of keys falls by one exactly if the key was there.
pub length-delete :
    (k : ℕ) (s : List ℕ)
    → distinct s ≡ true
    → length (delete k s) + (if elem k s then 1 else 0) ≡ length s
length-delete k [] h = refl
length-delete k (x ∷ s) h = ground (arith, length-delete k s, delete_absent k s)

pub not_elem_of_empty : (k : ℕ) (s : List ℕ) → (length s == 0 && elem k s) ≡ false
not_elem_of_empty k [] = refl
not_elem_of_empty k (x ∷ s) = ground arith
