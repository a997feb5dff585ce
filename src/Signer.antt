-- ===== src/Signer.antt =====
-- core/signer.go: the signature of a unit. JSON, Keccak-256, the recovery of a key and its address
-- are libraries: parameters. A byte slice is a list of numbers; `itoa` is the `%d` of fmt. JSON has
-- `null` for authors that are nil and `[]` for an empty list: the first argument of `marshal` tells
-- whether they are nil.
use babyboy.Prelude.{
  ℕ, ◌-◌, ◌==◌, ◌||◌, none, some, [], ◌∷◌, ◌++◌, true, false, if◌then◌else◌, refl, inl, inr, List,
  suc, ◌<◌, Option, zero, length, Bool, ◌≡◌, get_elem?, Bool-cases, arith, Option-cases, ◌+◌, subst,
  ◌≤◌, ◌∙◌, ap,
}
use babyboy.Interface.{Outcome, returns, panics}
use babyboy.Types.Hash.{Address}
use babyboy.Types.Unit.{DagUnit, Author}

abbrev pub take : ℕ → List ℕ → List ℕ
take zero xs = []
take (suc n) [] = []
take (suc n) (x ∷ xs) = x ∷ take n xs

get_elem?-found : (xs : List ℕ) (i : ℕ) → i < length xs → (x : ℕ) × (get_elem? xs i ≡ some x)
get_elem?-found [] i lt = elim lt [ ]
get_elem?-found (x ∷ xs) zero lt = (x, refl)
get_elem?-found (x ∷ xs) (suc i) lt = get_elem?-found xs i (omega arith)

-- "\x19Ethereum Signed Message:\n"
abbrev pub signed_message_prefix : List ℕ
signed_message_prefix =
    25 ∷ 69 ∷ 116 ∷ 104 ∷ 101 ∷ 114 ∷ 101 ∷ 117 ∷ 109 ∷ 32 ∷ 83 ∷ 105 ∷ 103 ∷ 110 ∷ 101 ∷ 100 ∷ 32
    ∷ 77 ∷ 101 ∷ 115 ∷ 115 ∷ 97 ∷ 103 ∷ 101 ∷ 58 ∷ 10 ∷ []

module _ (itoa : ℕ → List ℕ) (keccak256 : List ℕ → List ℕ) where
  unfoldable pub sign_hash : List ℕ → List ℕ
  sign_hash data_bytes = keccak256 (signed_message_prefix ++ itoa (length data_bytes) ++ data_bytes)

-- What is signed: the unit without its hash, and with an empty list of authors, which is not nil.
unfoldable pub bare : DagUnit → DagUnit
bare unit = record unit { authors = []; hash = 0 }

module _ (itoa : ℕ → List ℕ) (marshal : Bool → DagUnit → Option (List ℕ))
    (keccak256 : List ℕ → List ℕ) (PublicKey : Type 0)
    (sig_to_pub : List ℕ → List ℕ → Option PublicKey)
    (pubkey_to_address : PublicKey → Address) where
  -- The key that signed the unit with the 65 bytes, of which the last was `v`, if it can be found.
  unfoldable pub recover : DagUnit → List ℕ → ℕ → Option PublicKey
  unfolding sign_hash bare
  recover unit signature v = elim (marshal false (bare unit)) [
    | none ↦ none
    | some json_str ↦
        sig_to_pub (sign_hash itoa keccak256 json_str) (take 64 signature ++ ((v - 27) ∷ []))
  ]

  unfoldable pub verify_unit : DagUnit → Outcome Bool
  unfolding recover
  verify_unit unit = elim unit.authors [
    | [] ↦ panics
    | author ∷ _ ↦
        if length author.signature == 65
        then (elim (get_elem? author.signature 64) [
          | none ↦ panics
          | some v ↦
              if v == 27 || v == 28
              then (elim (recover unit author.signature v) [
                | none ↦ returns false
                | some pub_key ↦ returns (pubkey_to_address pub_key == author.address)
              ])
              else returns false
        ])
        else returns false
  ]

  -- An Ethereum signature of the unit: 64 bytes and 27 or 28, which, less 27, give for the hash of
  -- the prefix, the length and the text a key of the author's address. The text is the JSON of the
  -- unit with no author and the zero hash.
  abbrev pub IsSigned : DagUnit → Author → Type 0
  IsSigned unit author =
      (bit : ℕ) × (text : List ℕ) × (pub_key : PublicKey) × (length author.signature ≡ 65)
      × (get_elem? author.signature 64 ≡ some (27 + bit))
      × (bit < 2)
      × (marshal false (record unit { authors = []; hash = 0 }) ≡ some text)
      × (sig_to_pub (keccak256 (signed_message_prefix ++ itoa (length text) ++ text))
            (take 64 author.signature ++ (bit ∷ []))
          ≡ some pub_key)
      × (pubkey_to_address pub_key ≡ author.address)

  recover-some :
      (unit : DagUnit) (signature : List ℕ) (v : ℕ) (pub_key : PublicKey)
      → recover unit signature v ≡ some pub_key
      → (text : List ℕ) × (marshal false (record unit { authors = []; hash = 0 }) ≡ some text)
        × (sig_to_pub
              (keccak256 (signed_message_prefix ++ itoa (length text) ++ text))
              (take 64 signature ++ ((v - 27) ∷ []))
            ≡ some pub_key)
  unfolding recover sign_hash bare
  recover-some unit signature v pub_key e =
      elim (Option-cases (marshal false (record unit { authors = []; hash = 0 }))) [
        | inl n ↦ absurd (ground arith)
        | inr (text, m) ↦ (
          text,
          m,
          subst
              (λ o.
                (elim o [
                  | none ↦ none
                  | some json_str ↦
                      sig_to_pub
                        (keccak256 (signed_message_prefix ++ itoa (length json_str) ++ json_str))
                        (take 64 signature ++ ((v - 27) ∷ []))
                ])
                ≡ some pub_key)
              m e,
        )
      ]

  some-recover :
      (unit : DagUnit) (signature : List ℕ) (v : ℕ) (text : List ℕ) (pub_key : PublicKey)
      → marshal false (record unit { authors = []; hash = 0 }) ≡ some text
      → sig_to_pub
          (keccak256 (signed_message_prefix ++ itoa (length text) ++ text))
          (take 64 signature ++ ((v - 27) ∷ []))
        ≡ some pub_key
      → recover unit signature v ≡ some pub_key
  unfolding recover sign_hash bare
  some-recover unit signature v text pub_key m r = rw (m, recover) r

  verify_unit-IsSigned :
      (unit : DagUnit) (author : Author) (rest : List Author)
      → unit.authors ≡ author ∷ rest
      → verify_unit unit ≡ returns true
      → IsSigned unit author
  unfolding verify_unit
  verify_unit-IsSigned unit author rest a e = elim (Bool-cases (length author.signature == 65)) [
    | inr f ↦ absurd (ground arith)
    | inl l ↦ elim (Option-cases (get_elem? author.signature 64)) [
      | inl n ↦ absurd (ground arith)
      | inr (v, g) ↦ elim (Bool-cases (v == 27 || v == 28)) [
        | inr f ↦ absurd (ground arith)
        | inl w ↦ elim (Option-cases (recover unit author.signature v)) [
          | inl n ↦ absurd (ground arith)
          | inr (pub_key, r) ↦
              let (text, m, found) = recover-some unit author.signature v pub_key r in
              let le : 27 ≤ v = ground arith in
              (
                v - 27,
                text,
                pub_key,
                ground arith,
                g ∙ ap some (omega arith),
                ground arith,
                m,
                found,
                ground arith,
              )
        ]
      ]
    ]
  ]

  verify_unit-returns :
      (unit : DagUnit) (author : Author) (rest : List Author)
      → unit.authors ≡ author ∷ rest
      → (result : Bool) × (verify_unit unit ≡ returns result)
  unfolding verify_unit
  verify_unit-returns unit author rest a = elim (Bool-cases (length author.signature == 65)) [
    | inr f ↦ (false, ground arith)
    | inl l ↦
        let (v, g) = get_elem?-found author.signature 64 (ground arith) in
        elim (Bool-cases (v == 27 || v == 28)) [
          | inr f ↦ (false, ground arith)
          | inl w ↦ elim (Option-cases (recover unit author.signature v)) [
            | inl n ↦ (false, ground arith)
            | inr (pub_key, r) ↦ (pubkey_to_address pub_key == author.address, ground arith)
          ]
        ]
  ]

  -- VerifyUnit returns for every unit that has an author, and says true exactly if the first one
  -- has signed: the signature has 65 bytes, the last of which is 27 or 28; with 27 taken off it, it
  -- gives a key of the author's address for the hash of the Ethereum prefix, the length of the text
  -- and the text, where the text is the JSON of the unit with no author and the zero hash.
  pub verify_unit_lem :
      (unit : DagUnit) (author : Author) (rest : List Author)
      → unit.authors ≡ author ∷ rest
      → ((result : Bool) × (verify_unit unit ≡ returns result))
        × (verify_unit unit ≡ returns true → IsSigned unit author)
        × (IsSigned unit author → verify_unit unit ≡ returns true)
  unfolding verify_unit
  verify_unit_lem unit author rest a = (
    verify_unit-returns unit author rest a,
    verify_unit-IsSigned unit author rest a,
    λ (bit, text, pub_key, l, g, w, m, found, o).
        let r : recover unit author.signature (27 + bit) ≡ some pub_key =
          some-recover unit author.signature (27 + bit) text pub_key m (
            subst
              (λ k.
                sig_to_pub (keccak256 (signed_message_prefix ++ itoa (length text) ++ text))
                  (take 64 author.signature ++ (k ∷ []))
                ≡ some pub_key)
              (omega arith) found) in
        ground arith,
  )
