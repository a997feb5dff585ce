-- ===== src/Dag/GraphInfo/WitnessLevel.antt =====
-- GetWitnessLevel: the walk along the best parents that collects a majority of the witnesses.
use babyboy.Prelude.{
  ℕ, zero, suc, ◌≤◌, ◌<◌, ◌≡◌, refl, ◌⊎◌, inl, inr, List, [], ◌∷◌, Bool, true, false, ◌&&◌,
  if◌then◌else◌, ◌==◌, arith, Bool-cases, is_nil, subst, sym, ◌∙◌,
}
use babyboy.Int64.{slt}
use babyboy.Interface.{
  Fifo, Config, Outcome, returns, items-push-pop, items-push-new, empty_of_cons,
}
use babyboy.Types.Hash.{Hash, Address, hash_string, string_eq}
use babyboy.Types.Unit.{DagUnit, Author}
use babyboy.Graphop.AddressSet
use babyboy.Graphop.AddressSet.{AddressSet}
use babyboy.Dag.GraphInfo.{
  UnitTable, GraphInfoGetter, get_unit_by_hash, witness_level_loop, get_witness_level,
}

-- The address of the unit's first author.
abbrev pub first_author : List Author → Address
first_author [] = 0
first_author (a ∷ _) = a.address

-- The witnesses among the authors of the first `n + 1` units along the best parents, beside those
-- collected before.
module _ (db : UnitTable) (witnesses : AddressSet) where
  abbrev pub counts : DagUnit → Bool
  counts u = AddressSet.exists witnesses (first_author u.authors)

  abbrev pub collect : Hash → AddressSet → AddressSet
  collect h seen =
      if counts (get_unit_by_hash db h)
      then AddressSet.insert seen (first_author (get_unit_by_hash db h).authors)
      else seen

  abbrev pub collected : Hash → ℕ → AddressSet → AddressSet
  collected h zero seen = collect h seen
  collected h (suc n) seen = collected (get_unit_by_hash db h).best_parent_unit n (collect h seen)

  -- `l` is not above the level of any of these units that a witness wrote.
  abbrev pub BelowWitnesses : Hash → ℕ → ℕ → Type 0
  BelowWitnesses h zero l =
      (counts (get_unit_by_hash db h) && slt (get_unit_by_hash db h).level l) ≡ false
  BelowWitnesses h (suc n) l =
      ((counts (get_unit_by_hash db h) && slt (get_unit_by_hash db h).level l) ≡ false)
      × BelowWitnesses (get_unit_by_hash db h).best_parent_unit n l

-- The hash after `m` steps along the best parents.
abbrev pub ancestor : UnitTable → Hash → ℕ → Hash
ancestor db h zero = h
ancestor db h (suc m) = ancestor db (get_unit_by_hash db h).best_parent_unit m

-- Each unit up to the `n`-th along the best parents has an author, and the `n`-th is the genesis unit.
abbrev pub ReachesGenesis : Config → UnitTable → Hash → ℕ → Type 0
ReachesGenesis config db h zero =
    (is_nil (get_unit_by_hash db h).authors ≡ false)
    × (string_eq (hash_string (get_unit_by_hash db h).hash) config.genesis_unit_hash ≡ true)
ReachesGenesis config db h (suc n) =
    (is_nil (get_unit_by_hash db h).authors ≡ false)
    × ReachesGenesis config db (get_unit_by_hash db h).best_parent_unit n

module _ (F : Fifo Hash) (config : Config) (db : UnitTable) (witnesses : AddressSet) where
  -- A witness wrote the unit, and with it the witnesses collected number the majority.
  abbrev pub enough : Hash → AddressSet → Bool
  enough h seen =
      counts db witnesses (get_unit_by_hash db h)
      && AddressSet.size (collect db witnesses h seen) == config.majority_of_witnesses

  abbrev pub is_genesis : Hash → Bool
  is_genesis h = string_eq (hash_string (get_unit_by_hash db h).hash) config.genesis_unit_hash

  -- At none of the first `m` units the walk ends.
  abbrev pub GoesOn : Hash → ℕ → AddressSet → Type 0
  GoesOn h zero seen = h ≡ h
  GoesOn h (suc m) seen =
      (enough h seen ≡ false)
      × (is_genesis h ≡ false)
      × GoesOn (get_unit_by_hash db h).best_parent_unit m (collect db witnesses h seen)

  -- With the unit after `m` steps the majority is reached, for the first time and before the genesis
  -- unit; `l` is the lowest of `level` and the levels of the units so far that a witness wrote.
  pub record Majority (h : Hash) (seen : AddressSet) (level m l : ℕ) : Type 0 where
    pub goes_on : GoesOn h m seen
    pub by_witness : counts db witnesses (get_unit_by_hash db (ancestor db h m)) ≡ true
    pub size : AddressSet.size (collected db witnesses h m seen) ≡ config.majority_of_witnesses
    pub below_witnesses : BelowWitnesses db witnesses h m l
    pub below_level : slt level l ≡ false
    pub attained :
        (l ≡ level)
        ⊎ ((k : ℕ) × (k ≤ m)
            × (counts db witnesses (get_unit_by_hash db (ancestor db h k)) ≡ true)
            × (l ≡ (get_unit_by_hash db (ancestor db h k)).level))

  -- The unit after `m` steps is the first genesis unit, and the majority is not reached with it
  -- nor before it.
  pub record NoMajority (h : Hash) (seen : AddressSet) (m l : ℕ) : Type 0 where
    pub goes_on : GoesOn h m seen
    pub genesis : is_genesis (ancestor db h m) ≡ true
    pub few :
        (counts db witnesses (get_unit_by_hash db (ancestor db h m))
          && AddressSet.size (collected db witnesses h m seen) == config.majority_of_witnesses)
        ≡ false
    pub none_left : l ≡ 0

  -- What a walk that starts at `h` with `seen` and `level` returns.
  abbrev pub Reaches : Hash → AddressSet → ℕ → ℕ → Outcome ℕ → Type 0
  Reaches h seen level n out =
      (l : ℕ) × (m : ℕ) × (out ≡ returns l)
      × (m ≤ n)
      × (NoMajority h seen m l ⊎ Majority h seen level m l)

  -- One round of the loop, at a unit with an author.
  witness_level_loop_round :
      (fuel : ℕ) (h : Hash) (que : F.Queue) (seen : AddressSet) (level : ℕ)
      → F.items que ≡ h ∷ []
      → is_nil (get_unit_by_hash db h).authors ≡ false
      → witness_level_loop F config db witnesses (suc fuel) que seen level ≡ (
          let u = get_unit_by_hash db h in
          let level' = if counts db witnesses u && slt u.level level then u.level else level in
          if counts db witnesses u
            && AddressSet.size (collect db witnesses h seen) == config.majority_of_witnesses
          then returns level'
          else if string_eq (hash_string u.hash) config.genesis_unit_hash
          then returns 0
          else witness_level_loop F config db witnesses fuel
              (F.push (F.pop que) u.best_parent_unit)
              (collect db witnesses h seen)
              level')
  unfolding witness_level_loop
  witness_level_loop_round fuel h que seen level one a =
      ground (arith, empty_of_cons F que h [] one, F.front_items que h [] one)

  -- The lowest level so far, after the unit at `h`.
  abbrev lowered : Hash → ℕ → ℕ
  lowered h level =
      if counts db witnesses (get_unit_by_hash db h) && slt (get_unit_by_hash db h).level level
      then (get_unit_by_hash db h).level
      else level

  lowered-cases :
      (h : Hash) (level : ℕ)
      → (lowered h level ≡ level)
        ⊎ ((counts db witnesses (get_unit_by_hash db h) ≡ true)
            × (lowered h level ≡ (get_unit_by_hash db h).level))
  lowered-cases h level =
      elim (Bool-cases
        (counts db witnesses (get_unit_by_hash db h) && slt (get_unit_by_hash db h).level level)) [
          | inl t ↦ inr (ground arith, ground arith)
          | inr f ↦ inl (ground arith)
        ]

  -- The round at `h` ends the walk with a majority.
  Reaches-enough :
      (n : ℕ) (h : Hash) (seen : AddressSet) (level : ℕ) (out : Outcome ℕ)
      → enough h seen ≡ true
      → out ≡ returns (lowered h level)
      → Reaches h seen level n out
  Reaches-enough n h seen level out t e = (
    lowered h level,
    0,
    e,
    omega arith,
    inr (record {
      goes_on = refl;
      by_witness = ground arith;
      size = ground arith;
      below_witnesses = ground arith;
      below_level = ground arith;
      attained = elim (lowered-cases h level) [
        | inl e ↦ inl e
        | inr (w, e) ↦ inr (0, omega arith, w, e)
      ];
    }),
  )

  -- The round at `h` ends the walk at the genesis unit.
  Reaches-genesis :
      (n : ℕ) (h : Hash) (seen : AddressSet) (level : ℕ) (out : Outcome ℕ)
      → enough h seen ≡ false
      → is_genesis h ≡ true
      → out ≡ returns 0
      → Reaches h seen level n out
  Reaches-genesis n h seen level out f g e = (
    0,
    0,
    e,
    omega arith,
    inl (record { goes_on = refl; genesis = g; few = f; none_left = refl }),
  )

  -- The walk goes on from the best parent.
  Reaches-suc :
      (n : ℕ) (h : Hash) (seen : AddressSet) (level : ℕ) (out : Outcome ℕ)
      → enough h seen ≡ false
      → is_genesis h ≡ false
      → Reaches
          (get_unit_by_hash db h).best_parent_unit
          (collect db witnesses h seen)
          (lowered h level)
          n
          out
      → Reaches h seen level (suc n) out
  Reaches-suc n h seen level out f g (l, m, e, le, inl z) = (
    l,
    suc m,
    e,
    omega arith,
    inl (record {
      goes_on = (f, g, z.goes_on);
      genesis = z.genesis;
      few = z.few;
      none_left = z.none_left;
    }),
  )
  Reaches-suc n h seen level out f g (l, m, e, le, inr z) = (
    l,
    suc m,
    e,
    omega arith,
    inr (record {
      goes_on = (f, g, z.goes_on);
      by_witness = z.by_witness;
      size = z.size;
      below_witnesses = (ground (arith, z.below_level), z.below_witnesses);
      below_level = ground (arith, z.below_level);
      attained = elim z.attained [
        | inl low ↦ elim (lowered-cases h level) [
          | inl same ↦ inl (low ∙ same)
          | inr (w, here) ↦ inr (0, omega arith, w, low ∙ here)
        ]
        | inr (k, k_le, w, at) ↦ inr (suc k, omega arith, w, at)
      ];
    }),
  )

  loop-Reaches :
      (n fuel : ℕ) (h : Hash) (que : F.Queue) (seen : AddressSet) (level : ℕ)
      → n < fuel
      → F.items que ≡ h ∷ []
      → ReachesGenesis config db h n
      → Reaches h seen level n (witness_level_loop F config db witnesses fuel que seen level)
  loop-Reaches n zero h que seen level lt one g = elim lt [ ]
  loop-Reaches zero (suc fuel) h que seen level lt one g = elim (Bool-cases (enough h seen)) [
    | inl t ↦
        Reaches-enough 0 h seen level _ t
          (ground (arith, witness_level_loop_round fuel h que seen level one g.0))
    | inr f ↦
        Reaches-genesis 0 h seen level _ f g.1
          (ground (arith, witness_level_loop_round fuel h que seen level one g.0))
  ]
  loop-Reaches (suc n) (suc fuel) h que seen level lt one g = elim (Bool-cases (enough h seen)) [
    | inl t ↦
        Reaches-enough (suc n) h seen level _ t
          (ground (arith, witness_level_loop_round fuel h que seen level one g.0))
    | inr f ↦
        elim (Bool-cases
          (string_eq (hash_string (get_unit_by_hash db h).hash) config.genesis_unit_hash)) [
            | inl t ↦
                Reaches-genesis (suc n) h seen level _ f t
                  (ground (arith, witness_level_loop_round fuel h que seen level one g.0))
            | inr f' ↦ Reaches-suc n h seen level _ f f' (
                subst (Reaches next (collect db witnesses h seen) (lowered h level) n)
                  (sym (on f f'))
                  (loop-Reaches n fuel next (F.push (F.pop que) next) (collect db witnesses h seen)
                    (lowered h level) (omega arith) (items-push-pop F que h next one) g.1))
          ]
  ]
    where
      next : Hash
      next = (get_unit_by_hash db h).best_parent_unit

      on :
          enough h seen ≡ false
          → string_eq (hash_string (get_unit_by_hash db h).hash) config.genesis_unit_hash ≡ false
          → witness_level_loop F config db witnesses (suc fuel) que seen level
            ≡ witness_level_loop F config db witnesses fuel
                (F.push (F.pop que) next)
                (collect db witnesses h seen)
                (lowered h level)
      on f f' = ground (arith, witness_level_loop_round fuel h que seen level one g.0)

abbrev witness_set : GraphInfoGetter → AddressSet
witness_set gig = AddressSet.list_insert AddressSet.new_address_set gig.witness_list

-- If the walk along the best parents comes to the genesis unit after `n` steps and every unit up
-- to it has an author, then with fuel for more than `n` rounds GetWitnessLevel returns. If on the
-- way to the first genesis unit, it included, a unit that a witness wrote makes the distinct
-- witnesses among the first authors exactly the majority, then the level returned is, up to the
-- first such unit, the lowest of the best parent's level and of the levels of the units that a
-- witness wrote; and else it is 0.
pub get_witness_level-Reaches :
    (F : Fifo Hash) (config : Config) (gig : GraphInfoGetter) (n fuel : ℕ)
    → n < fuel
    → ReachesGenesis config gig.db gig.best_parent n
    → Reaches F config gig.db
        (witness_set gig)
        gig.best_parent
        AddressSet.new_address_set
        (get_unit_by_hash gig.db gig.best_parent).level
        n
        (get_witness_level F config fuel gig)
unfolding get_witness_level
get_witness_level-Reaches F config gig n fuel lt g =
    loop-Reaches F config gig.db (witness_set gig) n fuel gig.best_parent
      (F.push F.new gig.best_parent) AddressSet.new_address_set
      (get_unit_by_hash gig.db gig.best_parent).level lt (items-push-new F gig.best_parent) g
