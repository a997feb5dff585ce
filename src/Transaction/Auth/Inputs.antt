-- ===== src/Transaction/Auth/Inputs.antt =====
-- VerifyMessageInputs: what its `nil` says of the inputs.
use babyboy.Prelude.{
  refl, some, [], ◌∷◌, true, false, inl, inr, List, ◌≡◌, ◌⊎◌, if◌then◌else◌, Option-cases,
  Bool-cases, sym, arith, ◌∙◌, Bool, ap,
}
use babyboy.Transaction.Auth.{
  Reads, accepted, future_spent, verify_inputs, verify_message_inputs, Address, Author, DagUnit,
  Input, Message,
}

if_then : (b x y : Bool) → b ≡ true → (if b then x else y) ≡ x
if_then b x y e = ap (λ c. if c then x else y) e

if_else : (b x y : Bool) → b ≡ false → (if b then x else y) ≡ y
if_else b x y e = ap (λ c. if c then x else y) e

module _ (R : Reads) where
  -- The input names an output, of a stable unit or a pending one, that the address has.
  abbrev pub IsSpendable : Address → Input → Type 0
  IsSpendable address x =
      (u : DagUnit) × (R.get_unit_by_hash x.unit_hash ≡ some u)
      × ((if u.is_stable
            then R.is_exist_unspent_output address (future_spent R u x)
            else R.is_exist_pending_utxo address (future_spent R u x))
          ≡ true)

  -- The input names a unit that is not stable, and an output that is not in the pending pool.
  abbrev pub IsGone : Address → Input → Type 0
  IsGone address x =
      (u : DagUnit) × (R.get_unit_by_hash x.unit_hash ≡ some u)
      × (u.is_stable ≡ false)
      × (R.is_exist_pending_utxo address (future_spent R u x) ≡ false)

  -- The inputs can all be spent, or all up to the first that is gone.
  abbrev pub ArePassed : Address → List Input → Type 0
  ArePassed address [] = Unit
  ArePassed address (x ∷ xs) = IsGone address x ⊎ (IsSpendable address x × ArePassed address xs)

  verify_inputs-ArePassed :
      (author : Author) (rest : List Author) (xs : List Input)
      → verify_inputs R (author ∷ rest) xs ≡ accepted
      → ArePassed author.address xs
  unfolding verify_inputs
  verify_inputs-ArePassed author rest [] e = tt
  verify_inputs-ArePassed author rest (x ∷ xs) e =
      elim (Option-cases (R.get_unit_by_hash x.unit_hash)) [
        | inl n ↦ absurd (ground arith)
        | inr (u, s) ↦ elim (Bool-cases u.is_stable) [
          | inl t ↦
              elim (Bool-cases (R.is_exist_unspent_output author.address (future_spent R u x))) [
                | inl y ↦ inr (
                  (u, s, if_then u.is_stable _ _ t ∙ y),
                  verify_inputs-ArePassed author rest xs (ground arith),
                )
                | inr n ↦ absurd (ground arith)
              ]
          | inr f ↦
              elim (Bool-cases (R.is_exist_pending_utxo author.address (future_spent R u x))) [
                | inl y ↦ inr (
                  (u, s, if_else u.is_stable _ _ f ∙ y),
                  verify_inputs-ArePassed author rest xs (ground arith),
                )
                | inr n ↦ inl (u, s, f, n)
              ]
        ]
      ]

  ArePassed-accepted :
      (author : Author) (rest : List Author) (xs : List Input)
      → ArePassed author.address xs
      → verify_inputs R (author ∷ rest) xs ≡ accepted
  unfolding verify_inputs
  ArePassed-accepted author rest [] p = refl
  ArePassed-accepted author rest (x ∷ xs) (inl (u, s, f, n)) = rw (s, f, n, verify_inputs) refl
  ArePassed-accepted author rest (x ∷ xs) (inr ((u, s, y), p)) = elim (Bool-cases u.is_stable) [
    | inl t ↦ ground (arith, ArePassed-accepted author rest xs p)
    | inr f ↦ ground (arith, ArePassed-accepted author rest xs p)
  ]

  -- VerifyMessageInputs returns nil for a unit that has an author and a message exactly if the
  -- author can spend every input of its first message, or every input before one that is gone:
  -- whose unit is not stable, and which the pending pool does not hold.
  pub verify_message_inputs-accepted :
      (unit : DagUnit) (author : Author) (rest : List Author) (message : Message)
      (more : List Message)
      → unit.authors ≡ author ∷ rest
      → unit.messages ≡ message ∷ more
      → (verify_message_inputs R unit ≡ accepted → ArePassed author.address message.payload.inputs)
        × (ArePassed author.address message.payload.inputs
            → verify_message_inputs R unit ≡ accepted)
  unfolding verify_message_inputs
  verify_message_inputs-accepted unit author rest message more a m =
      let e : verify_message_inputs R unit
          ≡ verify_inputs R (author ∷ rest) message.payload.inputs =
        rw (m, a, verify_message_inputs) refl in
      (
        λ p. verify_inputs-ArePassed author rest message.payload.inputs (sym e ∙ p),
        λ p. e ∙ ArePassed-accepted author rest message.payload.inputs p,
      )
