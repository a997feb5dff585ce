-- ===== src/Interface.antt =====
-- What the modelled code takes from elsewhere: the queue of common/queue (a copy of CookieJar),
-- the package `config`, which the repository does not hold, and how a loop can end.
use babyboy.Prelude.{refl, ℕ, List, [], ◌∷◌, ◌++◌, ◌≡◌, ◌∙◌, ap, Bool, false, is_nil, ◌⊎◌, inl, inr}

-- First in, first out. `items` lists what a queue holds, oldest first; reading an empty queue is
-- not described, as the package does no bounds check.
pub record Fifo (A : Type 0) : Type 1 where
  pub Queue : Type 0
  pub new : Queue
  pub push : Queue → A → Queue
  pub pop : Queue → Queue
  pub front : Queue → A
  pub empty : Queue → Bool
  pub items : Queue → List A
  pub items_new : items new ≡ []
  pub items_push : (q : Queue) (a : A) → items (push q a) ≡ items q ++ (a ∷ [])
  pub items_pop : (q : Queue) (a : A) (rest : List A) → items q ≡ a ∷ rest → items (pop q) ≡ rest
  pub front_items : (q : Queue) (a : A) (rest : List A) → items q ≡ a ∷ rest → front q ≡ a
  pub empty_items : (q : Queue) → empty q ≡ is_nil (items q)

-- A queue of one entry, after `Pop` and `Push`.
pub items-push-pop :
    {A : Type 0} (F : Fifo A) (q : F.Queue) (a b : A)
    → F.items q ≡ a ∷ []
    → F.items (F.push (F.pop q) b) ≡ b ∷ []
items-push-pop F q a b h = F.items_push (F.pop q) b ∙ ap (λ l. l ++ (b ∷ [])) (F.items_pop q a [] h)

pub items-push-new : {A : Type 0} (F : Fifo A) (a : A) → F.items (F.push F.new a) ≡ a ∷ []
items-push-new F a = F.items_push F.new a ∙ ap (λ l. l ++ (a ∷ [])) F.items_new

pub empty_of_cons :
    {A : Type 0} (F : Fifo A) (q : F.Queue) (a : A) (rest : List A)
    → F.items q ≡ a ∷ rest
    → F.empty q ≡ false
empty_of_cons F q a rest h = F.empty_items q ∙ ap is_nil h

-- A loop of the source returns, panics, or has not ended when the fuel has.
pub data Outcome {ℓ} (A : Type ℓ) : Type ℓ where
  returns : A → Outcome A
  panics : Outcome A
  out_of_fuel : Outcome A

pub Outcome-cases {ℓ} :
    {A : Type ℓ} (o : Outcome A) → ((a : A) × (o ≡ returns a)) ⊎ ((o ≡ panics) ⊎ (o ≡ out_of_fuel))
Outcome-cases (returns a) = inl (a, refl)
Outcome-cases panics = inr (inl refl)
Outcome-cases out_of_fuel = inr (inr refl)

-- The constants of `config`.
pub record Config : Type 0 where
  pub majority_of_witnesses : ℕ
  pub genesis_unit_hash : List ℕ
  pub const_stable_rounds : ℕ
  pub min_interval_time : ℕ
  pub min_trade_rate : ℕ
