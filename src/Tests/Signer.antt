-- ===== src/Tests/Signer.antt =====
-- The theorems on signatures, at a wallet that signs with 65 zeros and a key that always belongs
-- to the address 11.
use babyboy.Types.Hash.{Hash}
use babyboy.Prelude.{
  refl, [], ◌∷◌, none, some, true, ℕ, List, Bool, if◌then◌else◌, Option, All, suc, ◌++◌, ◌≡◌, ◌==◌,
  ◌+◌, zero, Bool-cases, inr, arith, inl, subst, length, get_elem?, ◌<◌, false,
}
use babyboy.Interface.{Outcome, returns, panics}
use babyboy.Signer.{verify_unit, IsSigned, verify_unit_lem, bare}
use babyboy.Node.Wallet.{Accounts, sign_message}
use babyboy.Node.Wallet.Signing.{SignsFor, sign_message-verify_unit}
use babyboy.Transaction.Submit.{
  Submission, submit_tx_loop, signed, HasVerdict, submit_tx_loop-signed,
}
use babyboy.Types.Unit.{DagUnit, new_empty_unit}
use babyboy.Types.Messages.{NewUnitEntity}

abbrev pub zeros : ℕ → List ℕ
zeros zero = []
zeros (suc n) = 0 ∷ zeros n

abbrev good_signature : List ℕ
good_signature = zeros 64 ++ (27 ∷ [])

abbrev signed_unit : DagUnit
signed_unit = record new_empty_unit {
  authors = record { address = 11; signature = good_signature } ∷ [];
}

-- The key is the address; 11 signed everything with zeros.
abbrev key_of : List ℕ → List ℕ → Option ℕ
key_of data_hash signature = some 11

abbrev verify : DagUnit → Outcome Bool
verify = verify_unit (λ n. []) (λ no_authors unit. some []) (λ text. text) ℕ key_of (λ k. k)

verify_unit_lem_example :
    ((result : Bool) × (verify signed_unit ≡ returns result))
    × (verify signed_unit ≡ returns true
        → IsSigned
            (λ n. [])
            (λ no_authors unit. some [])
            (λ text. text)
            ℕ
            key_of
            (λ k. k)
            signed_unit
            (record { address = 11; signature = good_signature }))
    × (IsSigned
          (λ n. [])
          (λ no_authors unit. some [])
          (λ text. text)
          ℕ
          key_of
          (λ k. k)
          signed_unit
          (record { address = 11; signature = good_signature })
        → verify signed_unit ≡ returns true)
verify_unit_lem_example =
    verify_unit_lem (λ n. []) (λ no_authors unit. some []) (λ text. text) ℕ key_of (λ k. k)
      signed_unit (record { address = 11; signature = good_signature }) [] refl

-- One wallet with one account, which knows one password.
abbrev pub accounts : Accounts
accounts = record {
  wallets = (11 ∷ []) ∷ [];
  address_string = λ a. "0x0b";
  has_prefix_0x = λ s. true;
  with_0x = λ s. s;
  equal_fold = λ s t. true;
  hex_to_address = λ s. 11;
  sign_hash_with_passphrase =
      λ addr password data_hash. if addr == 11 then some (zeros 65) else none;
}

accounts-SignsFor :
    SignsFor accounts (λ n. []) (λ no_authors unit. some []) (λ text. text) ℕ key_of (λ k. k)
accounts-SignsFor addr password data_hash signature e = elim (Bool-cases (addr == 11)) [
  | inr f ↦ absurd (ground arith)
  | inl t ↦
      let same : zeros 65 ≡ signature = ground arith in
      subst
        (λ xs.
          (length xs ≡ 65)
          × (v : ℕ) × (pub_key : ℕ) × (get_elem? xs 64 ≡ some v)
          × (v < 2)
          × (key_of data_hash xs ≡ some pub_key)
          × (pub_key ≡ addr))
        same (refl, 0, 11, refl, omega arith, refl, ground arith)
]

sign_message-verify_unit_example :
    (result : Option (List ℕ)) × (sign_message accounts
        (λ n. [])
        (λ no_authors unit. some [])
        (λ text. text)
        false
        new_empty_unit
        11
        "secret"
      ≡ returns result)
    × ((signature : List ℕ) (h : Hash)
        → result ≡ some signature
        → verify (record new_empty_unit {
          hash = h;
          authors = record { address = 11; signature = signature } ∷ [];
        })
          ≡ returns true)
unfolding bare
sign_message-verify_unit_example =
    sign_message-verify_unit accounts (λ n. []) (λ no_authors unit. some []) (λ text. text) ℕ key_of
      (λ k. k) new_empty_unit 11 "secret" accounts-SignsFor refl

abbrev entity_of : DagUnit → NewUnitEntity
entity_of unit = record { from_peer_id = "a"; has_peer_ids = []; new_unit = unit }

-- A unit with a good signature, and one with no author.
abbrev received : Submission ℕ
received = record {
  db = 0;
  ch_submit_tx = entity_of signed_unit ∷ entity_of new_empty_unit ∷ [];
  sent = [];
}

submit_tx_loop-signed_example :
    (All (HasVerdict ℕ verify (λ db u. true) (λ db u. (db + 1, true))) received.ch_submit_tx
      → submit_tx_loop ℕ verify (λ db u. true) (λ db u. (db + 1, true)) received
        ≡ submit_tx_loop ℕ verify
            (λ db u. true)
            (λ db u. (db + 1, true))
            (record received {
              ch_submit_tx =
                  signed ℕ verify (λ db u. true) (λ db u. (db + 1, true)) received.ch_submit_tx;
            }))
    × ((before after : List NewUnitEntity) (e : NewUnitEntity)
        → received.ch_submit_tx ≡ before ++ (e ∷ after)
        → All (HasVerdict ℕ verify (λ db u. true) (λ db u. (db + 1, true))) before
        → verify e.new_unit ≡ panics
        → submit_tx_loop ℕ verify (λ db u. true) (λ db u. (db + 1, true)) received ≡ panics)
submit_tx_loop-signed_example =
    submit_tx_loop-signed ℕ verify (λ db u. true) (λ db u. (db + 1, true)) received
