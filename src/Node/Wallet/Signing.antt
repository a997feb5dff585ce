-- ===== src/Node/Wallet/Signing.antt =====
-- SignMessage against VerifyUnit.
use babyboy.Prelude.{
  refl, none, some, [], ◌∷◌, ◌+◌, ◌-◌, ◌++◌, ◌||◌, ◌==◌, true, zero, suc, ◌≡◌, get_elem?, ◌<◌,
  arith, ◌%◌, ap, Option-cases, inl, inr, get_or, ◌∙◌, subst,
}
use babyboy.Interface.{returns}
use babyboy.Signer.{take, bare, sign_hash, verify_unit, verify_unit_lem, signed_message_prefix}
use babyboy.Node.Wallet.{
  Accounts, add_27_at, sign_message, ℕ, List, length, DagUnit, Option, Address, String, Hash, Bool,
  false,
}

-- The lists that `add_27_at` makes of a list of one more than `i`.
IsBumped : ℕ → List ℕ → List ℕ → Type 0
IsBumped i xs ys =
    (length ys ≡ suc i)
    × (v : ℕ) × (get_elem? ys i ≡ some v)
    × ((v == 27 || v == 28) ≡ true)
    × (take i ys ++ ((v - 27) ∷ []) ≡ xs)

below_2 :
    (x : ℕ)
    → x < 2
    → (((x + 27) % 256 == 27 || (x + 27) % 256 == 28) ≡ true) × ((x + 27) % 256 - 27 ≡ x)
below_2 x lt = (ground arith, omega arith)

add_27_at-IsBumped :
    (i v : ℕ) (xs : List ℕ)
    → length xs ≡ suc i
    → get_elem? xs i ≡ some v
    → v < 2
    → (ys : List ℕ) × (add_27_at i xs ≡ some ys) × IsBumped i xs ys
unfolding add_27_at IsBumped
add_27_at-IsBumped i v [] l g lt = absurd (omega arith)
add_27_at-IsBumped zero v (x ∷ []) l g lt =
    let small : x < 2 = ground arith in
    (
      (x + 27) % 256 ∷ [],
      refl,
      (refl, (x + 27) % 256, refl, (below_2 x small).0, ap (λ y. y ∷ []) (below_2 x small).1),
    )
add_27_at-IsBumped zero v (x ∷ y ∷ xs) l g lt = absurd (omega arith)
add_27_at-IsBumped (suc i) v (x ∷ xs) l g lt =
    let (ys, e, (n, w, h, t, same)) = add_27_at-IsBumped i v xs (omega arith) g lt in
    (x ∷ ys, rw (e, add_27_at) refl, (omega (arith, n), w, h, t, ap (λ zs. x ∷ zs) same))

some_injective : {x y : List ℕ} → some x ≡ some y → x ≡ y
some_injective {x} e = ap (λ o. get_or o x) e

module _ (am : Accounts) (itoa : ℕ → List ℕ) (marshal : Bool → DagUnit → Option (List ℕ))
    (keccak256 : List ℕ → List ℕ) (PublicKey : Type 0)
    (sig_to_pub : List ℕ → List ℕ → Option PublicKey)
    (pubkey_to_address : PublicKey → Address) where
  verify_bumped :
      (unit : DagUnit) (addr h : Hash) (text raw ys : List ℕ) (pub_key : PublicKey)
      → bare unit ≡ unit
      → marshal false unit ≡ some text
      → IsBumped 64 raw ys
      → sig_to_pub (sign_hash itoa keccak256 text) raw ≡ some pub_key
      → pubkey_to_address pub_key ≡ addr
      → verify_unit itoa marshal keccak256 PublicKey sig_to_pub pubkey_to_address
          (record unit { hash = h; authors = record { address = addr; signature = ys } ∷ [] })
        ≡ returns true
  unfolding IsBumped sign_hash bare
  verify_bumped unit addr h text raw ys pub_key plain m (n, w, g, t, same) r o =
      (verify_unit_lem itoa marshal keccak256 PublicKey sig_to_pub pubkey_to_address
          (record unit { hash = h; authors = record { address = addr; signature = ys } ∷ [] })
          (record { address = addr; signature = ys }) [] refl).2
        (w - 27, text, pub_key, n, g ∙ ap some bit, ground arith, found, recovered, o)
    where
      bit : w ≡ 27 + (w - 27)
      bit = ground arith

      found : marshal false (record unit { authors = []; hash = 0 }) ≡ some text
      found = ap (marshal false) plain ∙ m

      recovered :
          sig_to_pub
            (keccak256 (signed_message_prefix ++ itoa (length text) ++ text))
            (take 64 ys ++ ((w - 27) ∷ []))
          ≡ some pub_key
      recovered = rw (same) r

  -- A wallet signs with 65 bytes, of which the last is 0 or 1, and the key that they give for what
  -- was signed has the address.
  abbrev pub SignsFor : Type 0
  SignsFor =
      (addr : Address) (password : String) (data_hash signature : List ℕ)
      → am.sign_hash_with_passphrase addr password data_hash ≡ some signature
      → (length signature ≡ 65)
        × (v : ℕ) × (pub_key : PublicKey) × (get_elem? signature 64 ≡ some v)
        × (v < 2)
        × (sig_to_pub data_hash signature ≡ some pub_key)
        × (pubkey_to_address pub_key ≡ addr)

  -- A new unit, with an empty list of authors that is not nil and with the zero hash, that
  -- SignMessage has signed for an address: with that author and signature, and any hash, VerifyUnit
  -- says true. SignMessage does not panic. (The wallets sign as SignsFor says.)
  pub sign_message-verify_unit :
      (unit : DagUnit) (addr : Address) (password : String)
      → SignsFor
      → bare unit ≡ unit
      → (result : Option (List ℕ)) × (sign_message am itoa marshal keccak256 false unit addr
            password
          ≡ returns result)
        × ((signature : List ℕ) (h : Hash)
            → result ≡ some signature
            → verify_unit itoa marshal keccak256 PublicKey sig_to_pub pubkey_to_address
                (record unit {
                  hash = h;
                  authors = record { address = addr; signature = signature } ∷ [];
                })
              ≡ returns true)
  unfolding sign_message
  sign_message-verify_unit unit addr password laws plain =
      elim (Option-cases (marshal false unit)) [
        | inl n ↦ (none, rw (n, sign_message) refl, λ signature h e. absurd (ground arith))
        | inr (text, m) ↦
            elim (Option-cases
              (am.sign_hash_with_passphrase addr password (sign_hash itoa keccak256 text))) [
                | inl n ↦
                    (none, rw (m, n, sign_message) refl, λ signature h e. absurd (ground arith))
                | inr (raw, s) ↦
                    let (l, v, pub_key, g, lt, r, o) =
                      laws addr password (sign_hash itoa keccak256 text) raw s in
                    let (ys, e, bumped) = add_27_at-IsBumped 64 v raw l g lt in
                    (
                      some ys,
                      rw (m, s, e, sign_message) refl,
                      λ signature h i.
                          subst
                            (λ z.
                              verify_unit itoa marshal keccak256 PublicKey sig_to_pub
                                pubkey_to_address
                                (record unit {
                                  hash = h;
                                  authors = record { address = addr; signature = z } ∷ [];
                                })
                              ≡ returns true)
                            (some_injective i)
                            (verify_bumped unit addr h text raw ys pub_key plain m bumped r o),
                    )
              ]
      ]
