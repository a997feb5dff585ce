-- ===== src/Transaction/Stable/Amounts.antt =====
-- What HandleUnit pays, against what the unit takes in.
use babyboy.Prelude.{ℕ, ◌+◌, ◌^◌, ◌<◌, ◌≡◌, refl, ap, List, [], ◌∷◌, ◌++◌, true, arith}
use babyboy.Interface.{returns}
use babyboy.Types.Payment.{Output, Utxo, new_utxo, new_output, new_commission, Commission, Message}
use babyboy.Types.Unit.{DagUnit}
use babyboy.Transaction.Ledger.{Boydb, passes}
use babyboy.Transaction.Validation.{valid_utxo_amount}
use babyboy.Transaction.Validation.Amounts.{taken, paid, output_total, valid_utxo_amount-mod}
use babyboy.Transaction.Stable.{
  StableOut, InputsOut, spent, not_found, double_spend, no_author, spend_inputs, settle_outputs,
  handle_messages, handle_unit, distribution_miner_commission,
}

abbrev pub commission_total : List Commission → ℕ
commission_total [] = 0
commission_total (c ∷ cs) = c.utxo.output.amount + commission_total cs

commission_total-append :
    (xs ys : List Commission)
    → commission_total (xs ++ ys) ≡ commission_total xs + commission_total ys
commission_total-append [] ys = omega arith
commission_total-append (x ∷ xs) ys = omega (arith, commission_total-append xs ys)

abbrev pub outputs_total : List Message → ℕ
outputs_total [] = 0
outputs_total (m ∷ ms) = output_total m.payload.outputs + outputs_total ms

module _ (B : Boydb) where
  settle_outputs-total :
      (unit : DagUnit) (i z : ℕ) (db : B.Db) (cs : List Commission) (os : List Output)
      → commission_total (settle_outputs B unit i z db cs os).1
        ≡ commission_total cs + output_total os
  unfolding settle_outputs new_commission new_utxo
  settle_outputs-total unit i z db cs [] = omega arith
  settle_outputs-total unit i z db cs (o ∷ os) = omega (
    arith,
    settle_outputs-total unit i (z + 1) (B.del_pending_unspent_output db u) _ os,
    commission_total-append cs (new_commission o.address u ∷ []),
  )
    where
      u : Utxo
      u = new_utxo unit.hash i z (record { address = o.address; amount = o.amount }) ""

  handle_messages-total :
      (unit : DagUnit) (i : ℕ) (db : B.Db) (cs : List Commission) (ms : List Message)
      (out : StableOut B)
      → handle_messages B unit i db cs ms ≡ returns out
      → out.valid ≡ true
      → commission_total out.commissions
        ≡ commission_total cs + outputs_total ms + unit.headers_commission
  unfolding handle_messages distribution_miner_commission new_commission new_utxo new_output
  handle_messages-total unit i db cs [] out e v =
      ground (arith, commission_total-append cs (distribution_miner_commission B unit ∷ []))
  handle_messages-total unit i db cs (m ∷ ms) out e v =
      after_inputs (spend_inputs B unit.authors db m.payload.inputs) refl
        (λ db2 cs2. handle_messages-total unit (i + 1) db2 cs2 ms out)
    where
      after_inputs :
          (r : InputsOut B)
          → spend_inputs B unit.authors db m.payload.inputs ≡ r
          → ((db2 : B.Db) (cs2 : List Commission)
              → handle_messages B unit (i + 1) db2 cs2 ms ≡ returns out
              → out.valid ≡ true
              → commission_total out.commissions
                ≡ commission_total cs2 + outputs_total ms + unit.headers_commission)
          → commission_total out.commissions
            ≡ commission_total cs + outputs_total (m ∷ ms) + unit.headers_commission
      after_inputs (not_found db') r ih = absurd (ground arith)
      after_inputs (double_spend db') r ih = absurd (ground arith)
      after_inputs no_author r ih = absurd (ground arith)
      after_inputs (spent db') r ih = omega (
        arith,
        settle_outputs-total unit i 0 db' cs m.payload.outputs,
        ih settled.0 settled.1 (ground arith) v,
      )
        where
          settled : B.Db × List Commission
          settled = settle_outputs B unit i 0 db' cs m.payload.outputs

  -- No value is made or lost: if ValidUTXOAmount passes a unit of one message, no sum of it
  -- overflows 64 bits, and HandleUnit finds the unit valid, then the inputs' amounts add up to
  -- those of the commissions that HandleUnit returns (one for each output, and the miner's) and
  -- the payload commission, which the witnesses get.
  pub handle_unit-conserves :
      (db : B.Db) (unit : DagUnit) (m : Message) (out : StableOut B)
      → unit.messages ≡ m ∷ []
      → valid_utxo_amount unit ≡ passes
      → taken m < 2 ^ 64
      → paid unit m < 2 ^ 64
      → handle_unit B db unit ≡ returns out
      → out.valid ≡ true
      → taken m ≡ commission_total out.commissions + unit.payload_commission
  unfolding handle_unit
  handle_unit-conserves db unit m out e passed t p h v = ground (
    arith,
    valid_utxo_amount-mod unit m [] e,
    ap outputs_total e,
    handle_messages-total unit 0 db [] unit.messages out h v,
  )
