-- ===== src/MemDb/Parents/Childless.antt =====
-- What is a tip after units have been added.
use babyboy.Prelude.{
  refl, List, [], ◌∷◌, ◌++◌, ◌≡◌, ◌<◌, ◌^◌, ◌==◌, ◌&&◌, ◌||◌, not, true, false, Bool-cases, inl,
  inr, arith, ap, sym, ◌∙◌, some, All, elem, elem-append, map, ==_iff,
}
use babyboy.Types.Hash.{Hash}
use babyboy.Types.Unit.{DagUnit}
use babyboy.Graphop.HashSet.{exists, exists_after}
use babyboy.Leveldb.Store.{Store, Prefixes, Codec}
use babyboy.Leveldb.Units.{get_parents_list}
use babyboy.Leveldb.Slots.{HasApartTables}
use babyboy.Leveldb.Replay.{Contents, set_unit, set_tip}
use babyboy.Leveldb.Replay.Answers.{Represents-Answers}
use babyboy.Graphop.HashSet
use babyboy.MemDb.Parents.{init_parent_mem_db, ParentMemDb}
use babyboy.MemDb.Parents.Tables.{
  level_parents, add_units, Agrees, IsSized, drop_tips, with_unit, with_units, add_units-Agrees,
}

module _ {V : Type 0} (S : Store V) (C : Codec V) (K : Prefixes) where
  tips-drop_tips :
      (t : Contents) (ps : List Hash) (h : Hash)
      → (drop_tips S C K t ps).tips h ≡ (not (elem h ps) && t.tips h)
  tips-drop_tips t [] h = refl
  tips-drop_tips t (p ∷ ps) h = ground (arith, tips-drop_tips (set_tip t p false) ps h)

  -- No unit names as its parent itself or a unit that is added later.
  abbrev pub IsOrdered : List DagUnit → Type 0
  IsOrdered [] = Unit
  IsOrdered (u ∷ us) =
      All (λ (v : DagUnit). elem v.hash u.parent_list ≡ false) (u ∷ us) × IsOrdered us

  abbrev pub hashes : List DagUnit → List Hash
  hashes us = map (λ (u : DagUnit). u.hash) us

  abbrev pub parents : List DagUnit → List Hash
  parents [] = []
  parents (u ∷ us) = u.parent_list ++ parents us

  later_no_parent :
      (ps : List Hash) (us : List DagUnit) (h : Hash)
      → All (λ (v : DagUnit). elem v.hash ps ≡ false) us
      → elem h (hashes us) ≡ true
      → elem h ps ≡ false
  later_no_parent ps [] h a e = cc
  later_no_parent ps (u ∷ us) h a e = elim (Bool-cases (u.hash == h)) [
    | inl q ↦ ap (λ k. elem k ps) (sym ((==_iff u.hash h).0 q)) ∙ a.0
    | inr n ↦ later_no_parent ps us h a.1 (ground arith)
  ]

  tips-with_unit :
      (t : Contents) (u : DagUnit) (h : Hash)
      → (with_unit S C K t u).tips h ≡ (not (elem h u.parent_list) && (u.hash == h || t.tips h))
  tips-with_unit t u h =
      ground
        (arith, tips-drop_tips (set_tip (set_unit t u.hash (some u)) u.hash true) u.parent_list h)

  tips-with_units :
      (t : Contents) (us : List DagUnit) (h : Hash)
      → IsOrdered us
      → (with_units S C K t us).tips h
        ≡ ((elem h (hashes us) || t.tips h) && not (elem h (parents us)))
  tips-with_units t [] h o = ground arith
  tips-with_units t (u ∷ us) h o = ground (
    arith,
    tips-with_units (with_unit S C K t u) us h o.1,
    tips-with_unit t u h,
    elem-append h u.parent_list (parents us),
    later_no_parent u.parent_list (u ∷ us) h o.0,
  )

  -- NewParentMemDB and InitParentMemDB over the database of another.
  abbrev pub restarted : ParentMemDb (level_parents S C K) → ParentMemDb (level_parents S C K)
  restarted pdb =
      init_parent_mem_db (level_parents S C K)
        (record { db = pdb.db; parent_set = HashSet.new_hash_set }) pdb.db

  -- The tips are the units without a child. After units have been added over the tables, parents
  -- first, the set in memory has a hash exactly if it is the hash of a unit added, or was in the
  -- set before, and no unit added names it as a parent; and GetParentsList lists the same from the
  -- table, as does the set in memory that a restart fills from it. (The tables represented
  -- functions and the set had their tips; the prefixes of the four tables start no other prefix,
  -- and no other starts them; hashes have 32 bytes.)
  pub add_units-childless :
      (pdb : ParentMemDb (level_parents S C K)) (t : Contents) (us : List DagUnit) (h : Hash)
      → HasApartTables S C K
      → Agrees S C K pdb t
      → All (IsSized S C K) us
      → IsOrdered us
      → h < 2 ^ 256
      → (exists (add_units S C K pdb us).parent_set h
          ≡ ((elem h (hashes us) || exists pdb.parent_set h) && not (elem h (parents us))))
        × (elem h (get_parents_list S C K (add_units S C K pdb us).db)
            ≡ exists (add_units S C K pdb us).parent_set h)
        × (exists (restarted (add_units S C K pdb us)).parent_set h
            ≡ exists (add_units S C K pdb us).parent_set h)
  unfolding init_parent_mem_db
  add_units-childless pdb t us h apart g b o hb =
      let after = add_units-Agrees S C K apart pdb t us b g in
      let listed =
        (Represents-Answers S C K (add_units S C K pdb us).db (with_units S C K t us) apart
            after.tables).tips
          h hb
        ∙ sym (after.memory h hb) in
      (
        after.memory h hb
            ∙ tips-with_units t us h o
            ∙ ap (λ m. (elem h (hashes us) || m) && not (elem h (parents us)))
                (sym (g.memory h hb)),
        listed,
        ground (
          arith,
          listed,
          exists_after HashSet.new_hash_set h h
              (get_parents_list S C K (add_units S C K pdb us).db),
        ),
      )
