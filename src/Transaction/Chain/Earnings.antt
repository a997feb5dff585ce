-- ===== src/Transaction/Chain/Earnings.antt =====
-- CalcWitnessEarnings: what the witnesses get for the accepted units.
use babyboy.Prelude.{
  ◌≡◌, refl, List, [], ◌∷◌, ◌++◌, map, false, inl, inr, arith, if◌then◌else◌, is_nil, ◌⊎◌,
}
use babyboy.Interface.{returns, Outcome-cases}
use babyboy.Types.Hash.{Address}
use babyboy.Types.Payment.{Commission}
use babyboy.Types.Unit.{DagUnit, Author}
use babyboy.Transaction.Ledger.{Boydb}
use babyboy.Transaction.Chain.{
  LoopOut, settle_commissions, handle_commission, calc_witness_earnings, last_authors,
  witness_earning,
}

-- The payload commission of a unit goes to the address.
abbrev pub witness_paid : Address → DagUnit → Commission
witness_paid address unit = record {
  address = address;
  utxo = record {
    unit_hash = unit.hash;
    message_index = 0;
    output_index = 0;
    output = record { address = 0; amount = unit.payload_commission };
    type_of = "wc";
  };
}

abbrev pub last_unit : DagUnit → List DagUnit → DagUnit
last_unit v [] = v
last_unit v (w ∷ ws) = last_unit w ws

-- The first author of the last of the units gets the payload commission of each.
abbrev pub IsEarned : List DagUnit → List Commission → Type 0
IsEarned [] es = es ≡ []
IsEarned (v ∷ vs) es =
    (author : Author) × (rest : List Author) × ((last_unit v vs).authors ≡ author ∷ rest)
    × (es ≡ map (witness_paid author.address) (v ∷ vs))

last_authors-last :
    (v : DagUnit) (vs : List DagUnit) → last_authors (v ∷ vs) ≡ returns (last_unit v vs).authors
last_authors-last v [] = refl
last_authors-last v (w ∷ ws) = last_authors-last w ws

List-cases : {A : Type 0} (xs : List A) → (xs ≡ []) ⊎ ((x : A) × (rest : List A) × (xs ≡ x ∷ rest))
List-cases [] = inl refl
List-cases (x ∷ xs) = inr (x, xs, refl)

earnings-IsEarned :
    (vs : List DagUnit) (es : List Commission)
    → (if is_nil vs then returns [] else handle_commission vs) ≡ returns es
    → IsEarned vs es
unfolding handle_commission calc_witness_earnings witness_earning
earnings-IsEarned [] es e = ground arith
earnings-IsEarned (v ∷ vs) es e = elim (List-cases (last_unit v vs).authors) [
  | inl n ↦ absurd (ground (arith, last_authors-last v vs))
  | inr (author, rest, a) ↦ (author, rest, a, ground (arith, last_authors-last v vs))
]

module _ (B : Boydb) where
  pub settle_commissions-IsEarned :
      (visit : List (Address × List Commission) → List (Address × List Commission))
      (l out : LoopOut B)
      → settle_commissions B visit l ≡ returns out
      → (out.aborted ≡ l.aborted)
        × (l.aborted ≡ false
            → (es : List Commission) × IsEarned l.valid_units es
              × (out.commissions ≡ l.commissions ++ es))
  unfolding settle_commissions
  settle_commissions-IsEarned visit l out e =
      elim (Outcome-cases
        (if is_nil l.valid_units then returns [] else handle_commission l.valid_units)) [
          | inl (es, p) ↦
              (ground arith, λ f. (es, earnings-IsEarned l.valid_units es p, ground arith))
          | inr (inl p) ↦ (ground arith, λ f. absurd (ground arith))
          | inr (inr p) ↦ (ground arith, λ f. absurd (ground arith))
        ]
