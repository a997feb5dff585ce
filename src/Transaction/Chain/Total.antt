-- ===== src/Transaction/Chain/Total.antt =====
-- handleStableUnits returns for units that have authors.
use babyboy.Prelude.{
  refl, [], ◌∷◌, true, inl, inr, List, ◌≡◌, All, ap, Option-cases, map, Bool-cases, ◌++◌,
  All-append, if◌then◌else◌, is_nil, arith,
}
use babyboy.Interface.{returns}
use babyboy.Transaction.Stable.Total.{handle_unit-returns}
use babyboy.Transaction.Stable.Spends.{IsOwned}
use babyboy.Transaction.Stable.Spending.{all_inputs}
use babyboy.Transaction.Chain.{
  LoopOut, stable_loop, stable_tx, settle_commissions, handle_commission, calc_witness_earnings,
  last_authors, witness_earning, DagUnit, Boydb, Author, Address, Commission, distribute_commission,
  group_commissions,
}

abbrev HasAuthor : DagUnit → Type 0
HasAuthor unit = (author : Author) × (rest : List Author) × (unit.authors ≡ author ∷ rest)

last_authors-HasAuthor :
    (unit : DagUnit) (units : List DagUnit)
    → All HasAuthor (unit ∷ units)
    → (author : Author) × (rest : List Author) × (last_authors (unit ∷ units)
        ≡ returns (author ∷ rest))
last_authors-HasAuthor unit [] ((author, rest, a), _) =
    (author, rest, ap (λ (l : List Author). returns l) a)
last_authors-HasAuthor unit (next ∷ units) (_, all) = last_authors-HasAuthor next units all

handle_commission-returns :
    (unit : DagUnit) (units : List DagUnit)
    → All HasAuthor (unit ∷ units)
    → (cs : List Commission) × (handle_commission (unit ∷ units) ≡ returns cs)
unfolding handle_commission calc_witness_earnings
handle_commission-returns unit units all =
    let (author, rest, e) = last_authors-HasAuthor unit units all in
    (
      map (witness_earning author) (unit ∷ units),
      rw (e, handle_commission, calc_witness_earnings) refl,
    )

earnings-returns :
    (units : List DagUnit)
    → All HasAuthor units
    → (cs : List Commission) × ((if is_nil units then returns [] else handle_commission units)
        ≡ returns cs)
earnings-returns [] all = ([], refl)
earnings-returns (unit ∷ units) all = handle_commission-returns unit units all

module _ (B : Boydb) where
  -- The unit has an author, who owns all its inputs, and each of them has one of the three types.
  abbrev pub IsOwn : DagUnit → Type 0
  IsOwn unit =
      (author : Author) × (rest : List Author) × (unit.authors ≡ author ∷ rest)
      × All (IsOwned B author.address) (all_inputs B unit.messages)

  pub stable_loop-returns :
      (units : List DagUnit) (l : LoopOut B)
      → All IsOwn units
      → All HasAuthor l.valid_units
      → (out : LoopOut B) × (stable_loop B l units ≡ returns out) × All HasAuthor out.valid_units
  unfolding stable_loop stable_tx
  stable_loop-returns [] l own h = (l, refl, h)
  stable_loop-returns (t ∷ ts) l ((author, rest, a, _), own) h =
      let (done, d, _) = handle_unit-returns B l.db t author rest a in
      elim (Option-cases done.error) [
        | inr (x, err) ↦
            (record l { db = done.db; aborted = true }, rw (d, err, stable_loop) refl, h)
        | inl ok ↦ elim (Bool-cases done.valid) [
          | inl v ↦
              let (out, e, g) =
                stable_loop-returns ts
                  (record l {
                    db = done.db;
                    valid_units = l.valid_units ++ (t ∷ []);
                    commissions = l.commissions ++ done.commissions;
                  })
                  own (All-append HasAuthor l.valid_units (t ∷ []) h ((author, rest, a), tt)) in
              (out, rw (d, ok, v, stable_loop) e, g)
          | inr v ↦
              let (out, e, g) =
                stable_loop-returns ts
                  (record l {
                    db = B.save_unit_to_db done.db (record t { invalid = true });
                    commissions = l.commissions ++ done.commissions;
                  })
                  own h in
              (out, rw (d, ok, v, stable_loop) e, g)
        ]
      ]

  pub settle_commissions-returns :
      (visit : List (Address × List Commission) → List (Address × List Commission)) (l : LoopOut B)
      → All HasAuthor l.valid_units
      → (out : LoopOut B) × (settle_commissions B visit l ≡ returns out)
  unfolding settle_commissions
  settle_commissions-returns visit l h = elim (Bool-cases l.aborted) [
    | inl t ↦ (l, rw (t, settle_commissions) refl)
    | inr f ↦
        let (cs, e) = earnings-returns l.valid_units h in
        (
          record l {
            db = distribute_commission B l.db (visit (group_commissions [] (l.commissions ++ cs)));
            commissions = l.commissions ++ cs;
          },
          ground (arith, e),
        )
  ]
