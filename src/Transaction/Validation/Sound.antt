-- ===== src/Transaction/Validation/Sound.antt =====
-- What the checks of transaction/utils.go ensure.
use babyboy.Prelude.{
  refl, ℕ, ◌+◌, ◌≡◌, List, [], ◌∷◌, if◌then◌else◌, arith, is_nil, false, get_elem?, All, suc, some,
  true,
}
use babyboy.Int64.{slt}
use babyboy.Types.Payment.{Input, Output, Message}
use babyboy.Types.Unit.{DagUnit}
use babyboy.Transaction.Ledger.{passes, refuses, Check, crashes, err_unit_info}
use babyboy.Transaction.Validation.{
  check_inputs, check_outputs, check_messages, valid_unit_inputs_and_outputs, check_owners, Address,
  string_eq, valid_author_address, Author,
}

check_inputs-passes :
    (i : ℕ) (inputs xs : List Input) (next : Check)
    → is_nil xs ≡ false
    → check_inputs i inputs xs next ≡ passes
    → (input : Input) × (get_elem? inputs i ≡ some input)
      × (slt 0 input.output.amount ≡ true)
      × (next ≡ passes)
unfolding check_inputs
check_inputs-passes i inputs [] next n h = cc
check_inputs-passes i inputs (x ∷ []) next n h = ground arith
check_inputs-passes i inputs (x ∷ y ∷ xs) next n h =
    check_inputs-passes i inputs (y ∷ xs) next refl (ground arith)

check_outputs-passes :
    (xs : List Output) (next : Check)
    → check_outputs xs next ≡ passes
    → All (λ (o : Output). slt 0 o.amount ≡ true) xs × (next ≡ passes)
unfolding check_outputs
check_outputs-passes [] next h = (tt, h)
check_outputs-passes (x ∷ xs) next h = ground (arith, check_outputs-passes xs next)

-- The message has inputs and outputs, all its outputs are positive, and so is its input number `i`.
abbrev pub IsFilled : ℕ → Message → Type 0
IsFilled i m =
    (is_nil m.payload.inputs ≡ false)
    × (is_nil m.payload.outputs ≡ false)
    × All (λ (o : Output). slt 0 o.amount ≡ true) m.payload.outputs
    × ((input : Input) × (get_elem? m.payload.inputs i ≡ some input)
        × (slt 0 input.output.amount ≡ true))

-- Each message is filled, at its own index.
abbrev pub AreFilled : ℕ → List Message → Type 0
AreFilled i [] = Unit
AreFilled i (m ∷ ms) = IsFilled i m × AreFilled (i + 1) ms

check_messages-passes :
    (i : ℕ) (ms : List Message) (next : Check)
    → check_messages i ms next ≡ passes
    → AreFilled i ms × (next ≡ passes)
unfolding check_messages
check_messages-passes i [] next h = (tt, h)
check_messages-passes i (m ∷ ms) next h = (
  (
    (
      inputs,
      outputs,
      (check_outputs-passes m.payload.outputs _ checked).0,
      (first.0, first.1, first.2),
    ),
    (check_messages-passes (i + 1) ms next rest).0,
  ),
  (check_messages-passes (i + 1) ms next rest).1,
)
  where
    inputs : is_nil m.payload.inputs ≡ false
    inputs = ground arith

    first :
        (input : Input) × (get_elem? m.payload.inputs i ≡ some input)
        × (slt 0 input.output.amount ≡ true)
        × ((if is_nil m.payload.outputs
              then refuses err_unit_info
              else check_outputs m.payload.outputs (check_messages (i + 1) ms next))
            ≡ passes)
    first = check_inputs-passes i m.payload.inputs m.payload.inputs _ inputs (ground arith)

    outputs : is_nil m.payload.outputs ≡ false
    outputs = ground (arith, first.3)

    checked : check_outputs m.payload.outputs (check_messages (i + 1) ms next) ≡ passes
    checked = ground (arith, first.3)

    rest : check_messages (i + 1) ms next ≡ passes
    rest = (check_outputs-passes m.payload.outputs _ checked).1

-- A unit that ValidUnitInputsAndOutputs passes has an author and a message, and each of its
-- messages has inputs and outputs, only positive outputs, and a positive input at the message's own index (the other inputs are not looked at).
pub valid_unit_inputs_and_outputs-passes :
    (unit : DagUnit)
    → valid_unit_inputs_and_outputs unit ≡ passes
    → (is_nil unit.authors ≡ false) × (is_nil unit.messages ≡ false) × AreFilled 0 unit.messages
unfolding valid_unit_inputs_and_outputs
valid_unit_inputs_and_outputs-passes unit h = ground (
  arith,
  check_messages-passes 0 unit.messages
      (if is_nil unit.authors then refuses err_unit_info else passes),
)

check_owners-passes :
    (address_string : Address → List ℕ) (target : Address) (xs : List Input)
    → check_owners address_string target xs ≡ passes
    → All
        (λ (x : Input). string_eq (address_string x.output.address) (address_string target) ≡ true)
        xs
unfolding check_owners
check_owners-passes address_string target [] h = tt
check_owners-passes address_string target (x ∷ xs) h =
    ground (arith, check_owners-passes address_string target xs)

check_inputs-one :
    (i : ℕ) (x : Input) (next : Check) → check_inputs (suc i) (x ∷ []) (x ∷ []) next ≡ crashes
unfolding check_inputs
check_inputs-one i x next = ground arith

check_inputs-next :
    (i : ℕ) (inputs xs : List Input) (next : Check) (input : Input)
    → get_elem? inputs i ≡ some input
    → slt 0 input.output.amount ≡ true
    → check_inputs i inputs xs next ≡ next
unfolding check_inputs
check_inputs-next i inputs [] next input e p = refl
check_inputs-next i inputs (x ∷ xs) next input e p =
    ground (arith, check_inputs-next i inputs xs next input e p)

check_outputs-next :
    (xs : List Output) (next : Check)
    → All (λ (o : Output). slt 0 o.amount ≡ true) xs
    → check_outputs xs next ≡ next
unfolding check_outputs
check_outputs-next [] next a = refl
check_outputs-next (x ∷ xs) next a = ground (arith, check_outputs-next xs next a.1)

-- A second message with a single input makes ValidUnitInputsAndOutputs panic, if the first message
-- has inputs and outputs, a positive first input and only positive outputs.
pub valid_unit_inputs_and_outputs-crashes :
    (unit : DagUnit) (m m' : Message) (x : Input) (ms : List Message)
    → unit.messages ≡ m ∷ m' ∷ ms
    → IsFilled 0 m
    → m'.payload.inputs ≡ x ∷ []
    → valid_unit_inputs_and_outputs unit ≡ crashes
unfolding valid_unit_inputs_and_outputs check_messages
valid_unit_inputs_and_outputs-crashes unit m m' x ms e
      (inputs, outputs, positive, (input, at, amount)) one =
    rw (
      e,
      inputs,
      check_inputs-next 0 m.payload.inputs m.payload.inputs _ input at amount,
      outputs,
      check_outputs-next m.payload.outputs _ positive,
      one,
      check_inputs-one 0 x,
    )

-- A unit that ValidAuthorAddress passes has an author, whose address owns every input of its first message, if no two
-- addresses have the same text.
pub valid_author_address-passes :
    (address_string : Address → List ℕ)
    → ((a b : Address) → string_eq (address_string a) (address_string b) ≡ true → a ≡ b)
    → (unit : DagUnit) (m : Message) (ms : List Message) → unit.messages ≡ m ∷ ms
    → valid_author_address address_string unit ≡ passes
    → (author : Author) × (rest : List Author) × (unit.authors ≡ author ∷ rest)
      × All (λ (x : Input). x.output.address ≡ author.address) m.payload.inputs
unfolding valid_author_address
valid_author_address-passes address_string injective unit m ms e h = of unit.authors refl
  where
    owned :
        (target : Address) (xs : List Input)
        → All
            (λ (x : Input).
              string_eq (address_string x.output.address) (address_string target) ≡ true)
            xs
        → All (λ (x : Input). x.output.address ≡ target) xs
    owned target [] a = tt
    owned target (x ∷ xs) a = (injective x.output.address target a.0, owned target xs a.1)

    of :
        (authors : List Author)
        → unit.authors ≡ authors
        → (author : Author) × (rest : List Author) × (unit.authors ≡ author ∷ rest)
          × All (λ (x : Input). x.output.address ≡ author.address) m.payload.inputs
    of [] e' = ground arith
    of (author ∷ rest) e' = (
      author,
      rest,
      e',
      owned author.address m.payload.inputs
          (check_owners-passes address_string author.address m.payload.inputs (ground arith)),
    )
