-- ===== src/Transaction/Commission.antt =====
-- transaction/utils.go: the commissions that a unit's size asks for. The lengths of the JSON texts
-- are parameters, 0 where json.Marshal fails; a length is at most 2 ^ 63 - 1, so `int64` keeps it.
use babyboy.Prelude.{ℕ, List, ◌≡◌, ◌≤◌}
use babyboy.Prelude.Integers.{ℤ, pos, ◌+ℤ◌, ◌-ℤ◌, ◌≤ℤ◌, int_laws}
use babyboy.Types.Payment.{Message}
use babyboy.Types.Unit.{DagUnit}

module _ (unit_length : DagUnit → ℕ) (messages_length : List Message → ℕ) where
  unfoldable pub get_witness_commission : DagUnit → ℤ
  get_witness_commission u = pos (messages_length u.messages)

  unfoldable pub get_miner_commission : DagUnit → ℤ
  get_miner_commission u = pos (unit_length u) -ℤ get_witness_commission u

  -- The commissions of the miner and of the witness are together the length of the unit's text,
  -- and that of the miner is not negative. (The text of the unit is no shorter than that of its
  -- messages, which it contains.)
  pub commissions-length :
      (u : DagUnit)
      → messages_length u.messages ≤ unit_length u
      → (get_miner_commission u +ℤ get_witness_commission u ≡ pos (unit_length u))
        × (pos 0 ≤ℤ get_miner_commission u)
  unfolding get_miner_commission get_witness_commission
  commissions-length u h = (omega int_laws, omega int_laws)
