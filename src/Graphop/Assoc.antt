-- ===== src/Graphop/Assoc.antt =====
-- The entries of a Go map: an association list with no key twice.
use babyboy.Prelude.{
  ℕ, ◌≡◌, refl, List, [], ◌∷◌, map, Bool, true, false, not, ◌&&◌, ◌||◌, ◌==◌, if◌then◌else◌, arith,
  Option, none, some, elem, distinct,
}

module _ {V : Type 0} where
  abbrev pub is_some : Option V → Bool
  is_some none = false
  is_some (some u) = true

  abbrev pub lookup : ℕ → List (ℕ × V) → Option V
  lookup h [] = none
  lookup h ((k, u) ∷ m) = if k == h then some u else lookup h m

  abbrev pub put : ℕ → V → List (ℕ × V) → List (ℕ × V)
  put h u [] = (h, u) ∷ []
  put h u ((k, w) ∷ m) = if k == h then (h, u) ∷ m else (k, w) ∷ put h u m

  abbrev pub erase : ℕ → List (ℕ × V) → List (ℕ × V)
  erase h [] = []
  erase h ((k, w) ∷ m) = if k == h then erase h m else (k, w) ∷ erase h m

  pub lookup-put :
      (h j : ℕ) (u : V) (m : List (ℕ × V))
      → lookup j (put h u m) ≡ (if h == j then some u else lookup j m)
  lookup-put h j u [] = refl
  lookup-put h j u ((k, w) ∷ m) = ground (arith, lookup-put h j u m)

  pub lookup-erase :
      (h j : ℕ) (m : List (ℕ × V)) → lookup j (erase h m) ≡ (if h == j then none else lookup j m)
  lookup-erase h j [] = ground arith
  lookup-erase h j ((k, w) ∷ m) = ground (arith, lookup-erase h j m)

  pub elem-put :
      (h j : ℕ) (u : V) (m : List (ℕ × V))
      → elem j (map (λ e. e.0) (put h u m)) ≡ (h == j || elem j (map (λ e. e.0) m))
  elem-put h j u [] = refl
  elem-put h j u ((k, w) ∷ m) = ground (arith, elem-put h j u m)

  pub distinct-put :
      (h : ℕ) (u : V) (m : List (ℕ × V))
      → distinct (map (λ e. e.0) m) ≡ true
      → distinct (map (λ e. e.0) (put h u m)) ≡ true
  distinct-put h u [] d = refl
  distinct-put h u ((k, w) ∷ m) d = ground (arith, distinct-put h u m, elem-put h k u m)

  pub elem-erase :
      (h j : ℕ) (m : List (ℕ × V))
      → elem j (map (λ e. e.0) (erase h m)) ≡ (not (h == j) && elem j (map (λ e. e.0) m))
  elem-erase h j [] = ground arith
  elem-erase h j ((k, w) ∷ m) = ground (arith, elem-erase h j m)

  pub distinct-erase :
      (h : ℕ) (m : List (ℕ × V))
      → distinct (map (λ e. e.0) m) ≡ true
      → distinct (map (λ e. e.0) (erase h m)) ≡ true
  distinct-erase h [] d = refl
  distinct-erase h ((k, w) ∷ m) d = ground (arith, distinct-erase h m, elem-erase h k m)
