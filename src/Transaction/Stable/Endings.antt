-- ===== src/Transaction/Stable/Endings.antt =====
-- How HandleUnit ends, told by the inputs and the outputs of the unit itself.
use babyboy.Prelude.{
  ℕ, ◌+◌, ◌≡◌, refl, ap, subst, sym, ◌∙◌, List, [], ◌∷◌, ◌++◌, true, false, none, Option, ◌⊎◌, inl,
  inr, arith, All,
}
use mathlib.Core.List.{append-nil, append_assoc}
use babyboy.Interface.{returns}
use babyboy.Types.Payment.{Input, Output, Commission, Message, new_utxo, new_output, new_commission}
use babyboy.Types.Unit.{DagUnit, Author}
use babyboy.Transaction.Ledger.{Boydb, TxError}
use babyboy.Transaction.Stable.{
  StableOut, InputsOut, spent, not_found, double_spend, no_author, spend_inputs, settle_outputs,
  handle_messages, handle_unit, distribution_miner_commission,
}
use babyboy.Transaction.Stable.Spends.{
  All-split, IsOwned, Spends, Spends-append, Spends-nil, resolve, resolve-units,
  settle_outputs-same,
}
use babyboy.Transaction.Stable.Spending.{all_inputs, resolve-append}
use babyboy.Transaction.Stable.Faults.{Fault, Stopped, Ends, spend_inputs-Ends}

-- What is due for the outputs of message `i`, from number `z` on: each goes to its address.
abbrev pub outputs_paid : DagUnit → ℕ → ℕ → List Output → List Commission
outputs_paid unit i z [] = []
outputs_paid unit i z (o ∷ os) =
    record {
      address = o.address;
      utxo = record {
        unit_hash = unit.hash;
        message_index = i;
        output_index = z;
        output = record { address = o.address; amount = o.amount };
        type_of = "";
      };
    }
    ∷ outputs_paid unit i (z + 1) os

abbrev pub messages_paid : DagUnit → ℕ → List Message → List Commission
messages_paid unit i [] = []
messages_paid unit i (m ∷ ms) =
    outputs_paid unit i 0 m.payload.outputs ++ messages_paid unit (i + 1) ms

-- The headers commission goes to the author of the unit of the least hash.
abbrev pub miner_paid : DagUnit → Commission
miner_paid unit = record {
  address = unit.sub_stable_author;
  utxo = record {
    unit_hash = unit.hash;
    message_index = 0;
    output_index = 0;
    output = record { address = unit.sub_stable_author; amount = unit.headers_commission };
    type_of = "mc";
  };
}

module _ (B : Boydb) where
  settle_outputs-paid :
      (unit : DagUnit) (i z : ℕ) (db : B.Db) (cs : List Commission) (os : List Output)
      → (settle_outputs B unit i z db cs os).1 ≡ cs ++ outputs_paid unit i z os
  unfolding settle_outputs new_commission new_utxo
  settle_outputs-paid unit i z db cs [] = sym (append-nil _)
  settle_outputs-paid unit i z db cs (o ∷ os) =
      settle_outputs-paid unit i (z + 1) _ _ os
      ∙ append_assoc cs
          (new_commission o.address
              (new_utxo unit.hash i z (record { address = o.address; amount = o.amount }) "")
            ∷ [])
          (outputs_paid unit i (z + 1) os)

  -- Every input is spent, and due are all the outputs and the miner's commission, after `cs`.
  pub record Accepted (unit : DagUnit) (i : ℕ) (db : B.Db) (cs : List Commission)
      (ms : List Message) (out : StableOut B) : Type 0 where
    pub valid : out.valid ≡ true
    pub no_error : out.error ≡ none
    pub spends : Spends B db (resolve B db (all_inputs B ms)) out.db
    pub paid : out.commissions ≡ cs ++ (messages_paid unit i ms ++ (miner_paid unit ∷ []))

  -- The inputs before the one at fault are spent, and due are, after `cs`, the outputs of the
  -- messages before its own.
  pub record Refused (unit : DagUnit) (i : ℕ) (db : B.Db) (cs : List Commission) (ms : List Message)
      (out : StableOut B) : Type 0 where
    pub before : List Message
    pub at : Message
    pub after : List Message
    pub done : List Input
    pub input : Input
    pub later : List Input
    pub messages : ms ≡ before ++ (at ∷ after)
    pub inputs : at.payload.inputs ≡ done ++ (input ∷ later)
    pub invalid : out.valid ≡ false
    pub spends : Spends B db (resolve B db (all_inputs B before ++ done)) out.db
    pub fault : Fault B out.db input out.error
    pub paid : out.commissions ≡ cs ++ messages_paid unit i before

  Stopped-Refused :
      (unit : DagUnit) (i : ℕ) (db left : B.Db) (cs : List Commission) (m : Message)
      (ms : List Message) (error : Option TxError)
      → Stopped B db m.payload.inputs left error
      → Refused unit i db cs
          (m ∷ ms)
          (record { db = left; commissions = cs; valid = false; error = error })
  Stopped-Refused unit i db left cs m ms error s = record {
    before = [];
    at = m;
    after = ms;
    done = s.before;
    input = s.at;
    later = s.after;
    messages = refl;
    inputs = s.split;
    invalid = refl;
    spends = s.spends;
    fault = s.fault;
    paid = sym (append-nil _);
  }

  Spends-resolve :
      (a b c : B.Db) (xs ys : List Input)
      → Spends B a (resolve B a xs) b
      → Spends B b (resolve B b ys) c
      → Spends B a (resolve B a (xs ++ ys)) c
  Spends-resolve a b c xs ys s t =
      subst (λ us. Spends B a us c)
        (ap (λ us. resolve B a xs ++ us) (resolve-units B a b ys s.units)
          ∙ sym (resolve-append B a xs ys))
        (Spends-append B a b c _ _ s t)

  module _ (unit : DagUnit) (author : Author) (rest : List Author)
      (a : unit.authors ≡ author ∷ rest) where
    -- A message all of whose inputs are spent comes before the others.
    Accepted-cons :
        (i : ℕ) (db db2 : B.Db) (cs cs2 : List Commission) (m : Message) (ms : List Message)
        (out : StableOut B)
        → Spends B db (resolve B db m.payload.inputs) db2
        → cs2 ≡ cs ++ outputs_paid unit i 0 m.payload.outputs
        → Accepted unit (i + 1) db2 cs2 ms out
        → Accepted unit i db cs (m ∷ ms) out
    Accepted-cons i db db2 cs cs2 m ms out s p k = record {
      valid = k.valid;
      no_error = k.no_error;
      spends = Spends-resolve db db2 out.db m.payload.inputs (all_inputs B ms) s k.spends;
      paid =
          k.paid
          ∙ rw (p) (
              append_assoc cs (outputs_paid unit i 0 m.payload.outputs)
                (messages_paid unit (i + 1) ms ++ (miner_paid unit ∷ []))
              ∙ ap (λ l. cs ++ l)
                  (sym (
                    append_assoc (outputs_paid unit i 0 m.payload.outputs)
                      (messages_paid unit (i + 1) ms) (miner_paid unit ∷ []))));
    }

    Refused-cons :
        (i : ℕ) (db db2 : B.Db) (cs cs2 : List Commission) (m : Message) (ms : List Message)
        (out : StableOut B)
        → Spends B db (resolve B db m.payload.inputs) db2
        → cs2 ≡ cs ++ outputs_paid unit i 0 m.payload.outputs
        → Refused unit (i + 1) db2 cs2 ms out
        → Refused unit i db cs (m ∷ ms) out
    Refused-cons i db db2 cs cs2 m ms out s p k = record {
      before = m ∷ k.before;
      at = k.at;
      after = k.after;
      done = k.done;
      input = k.input;
      later = k.later;
      messages = ap (◌∷◌ m) k.messages;
      inputs = k.inputs;
      invalid = k.invalid;
      spends =
          subst (λ xs. Spends B db (resolve B db xs) out.db)
            (sym (append_assoc m.payload.inputs (all_inputs B k.before) k.done))
            (Spends-resolve db db2 out.db m.payload.inputs (all_inputs B k.before ++ k.done) s
              k.spends);
      fault = k.fault;
      paid =
          k.paid
          ∙ rw (p) (
              append_assoc cs (outputs_paid unit i 0 m.payload.outputs)
                (messages_paid unit (i + 1) k.before));
    }

    handle_messages-ends :
        (i : ℕ) (db : B.Db) (cs : List Commission) (ms : List Message) (out : StableOut B)
        → All (IsOwned B author.address) (all_inputs B ms)
        → handle_messages B unit i db cs ms ≡ returns out
        → Accepted unit i db cs ms out ⊎ Refused unit i db cs ms out
    unfolding handle_messages distribution_miner_commission new_commission new_utxo new_output
    handle_messages-ends i db cs [] out o e = inl (record {
      valid = ground arith;
      no_error = ground arith;
      spends = subst (Spends B db []) (ground arith) (Spends-nil B db);
      paid = ground arith;
    })
    handle_messages-ends i db cs (m ∷ ms) out o e =
        after_inputs (spend_inputs B unit.authors db m.payload.inputs) refl
          (subst (λ l. Ends B db m.payload.inputs (spend_inputs B l db m.payload.inputs)) (sym a)
            (spend_inputs-Ends B author rest db m.payload.inputs owned.0))
          (λ db2 cs2. handle_messages-ends (i + 1) db2 cs2 ms out owned.1)
      where
        owned :
            All (IsOwned B author.address) m.payload.inputs
            × All (IsOwned B author.address) (all_inputs B ms)
        owned = All-split (IsOwned B author.address) m.payload.inputs (all_inputs B ms) o

        after_inputs :
            (r : InputsOut B)
            → spend_inputs B unit.authors db m.payload.inputs ≡ r
            → Ends B db m.payload.inputs r
            → ((db2 : B.Db) (cs2 : List Commission)
                → handle_messages B unit (i + 1) db2 cs2 ms ≡ returns out
                → Accepted unit (i + 1) db2 cs2 ms out ⊎ Refused unit (i + 1) db2 cs2 ms out)
            → Accepted unit i db cs (m ∷ ms) out ⊎ Refused unit i db cs (m ∷ ms) out
        after_inputs (not_found d) r s ih = inr (
            subst (Refused unit i db cs (m ∷ ms)) (ground arith)
              (Stopped-Refused unit i db d cs m ms _ s))
        after_inputs (double_spend d) r s ih = inr (
            subst (Refused unit i db cs (m ∷ ms)) (ground arith)
              (Stopped-Refused unit i db d cs m ms _ s))
        after_inputs no_author r s ih = absurd (ground arith)
        after_inputs (spent d) r s ih = elim (ih settled.0 settled.1 (ground arith)) [
          | inl k ↦ inl (Accepted-cons i db settled.0 cs settled.1 m ms out inputs paid k)
          | inr k ↦ inr (Refused-cons i db settled.0 cs settled.1 m ms out inputs paid k)
        ]
          where
            settled : B.Db × List Commission
            settled = settle_outputs B unit i 0 d cs m.payload.outputs

            paid : settled.1 ≡ cs ++ outputs_paid unit i 0 m.payload.outputs
            paid = settle_outputs-paid unit i 0 d cs m.payload.outputs

            inputs : Spends B db (resolve B db m.payload.inputs) settled.0
            inputs =
                subst (λ us. Spends B db us settled.0) (append-nil _)
                  (Spends-append B db d settled.0 _ [] s
                    (settle_outputs-same B unit i 0 d cs m.payload.outputs))

    pub handle_unit-ends :
        (db : B.Db) (out : StableOut B)
        → All (IsOwned B author.address) (all_inputs B unit.messages)
        → handle_unit B db unit ≡ returns out
        → Accepted unit 0 db [] unit.messages out ⊎ Refused unit 0 db [] unit.messages out
    unfolding handle_unit
    handle_unit-ends db out o e = handle_messages-ends 0 db [] unit.messages out o e
