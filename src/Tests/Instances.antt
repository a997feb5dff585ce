-- ===== src/Tests/Instances.antt =====
-- Concrete values of what the model takes as parameters: a queue, the databases, a digest, a sort.
use babyboy.Prelude.{
  ℕ, ◌+◌, ◌*◌, ◌%◌, ◌^◌, ◌<◌, ◌≡◌, refl, List, [], ◌∷◌, ◌++◌, Bool, true, not, ◌&&◌, ◌==◌,
  if◌then◌else◌, Option, some, All, ap, arith, elem, elem-append, elem-keep, keep, is_nil, if_elim,
}
use mathlib.Core.List.{Memᴰ}
use babyboy.Int64.{slt}
use babyboy.Interface.{Fifo, Config}
use babyboy.Types.Hash.{Hash, Address}
use babyboy.Types.Payment.{Utxo, Commission}
use babyboy.Types.Unit.{DagUnit, UnitJson, VoteResult}
use babyboy.Transaction.Ledger.{Boydb, pays}
use babyboy.MemDb.Parents.{ParentDb}
use babyboy.MemDb.Witnesses.{WitnessDb}

-- Reading the empty list gives the default.
abbrev front_or : {A : Type 0} → A → List A → A
front_or d [] = d
front_or d (x ∷ xs) = x

abbrev rest_of : {A : Type 0} → List A → List A
rest_of [] = []
rest_of (x ∷ xs) = xs

abbrev pub fifo_of : {A : Type 0} → A → Fifo A
fifo_of {A} d = record {
  Queue = List A;
  new = [];
  push = λ q a. q ++ (a ∷ []);
  pop = rest_of;
  front = front_or d;
  empty = is_nil;
  items = λ q. q;
  items_new = refl;
  items_push = λ q a. refl;
  items_pop = λ q a rest e. rw e refl;
  front_items = λ q a rest e. rw e refl;
  empty_items = λ q. refl;
}

abbrev pub list_fifo : Fifo Hash
list_fifo = fifo_of 0

abbrev pub config : Config
config = record {
  majority_of_witnesses = 1;
  genesis_unit_hash = [];
  const_stable_rounds = 10;
  min_interval_time = 1;
  min_trade_rate = 1;
}

abbrev pub digest : UnitJson → Hash
digest j = (j.headers_commission * 7 + j.payload_commission) % 1000

pub digest_bound : (j : UnitJson) → digest j < 2 ^ 256
digest_bound j = omega arith

abbrev insert_unit : DagUnit → List DagUnit → List DagUnit
insert_unit u [] = u ∷ []
insert_unit u (v ∷ vs) = if slt v.level u.level then v ∷ insert_unit u vs else u ∷ v ∷ vs

abbrev pub sort_units : List DagUnit → List DagUnit
sort_units [] = []
sort_units (u ∷ us) = insert_unit u (sort_units us)

abbrev pub units_sorted : List DagUnit → Bool
units_sorted [] = true
units_sorted (u ∷ []) = true
units_sorted (u ∷ v ∷ vs) = not (slt v.level u.level) && units_sorted (v ∷ vs)

insert_unit-All :
    (P : DagUnit → Type 0) (u : DagUnit) (us : List DagUnit)
    → P u
    → All P us
    → All P (insert_unit u us)
insert_unit-All P u [] p a = (p, tt)
insert_unit-All P u (v ∷ vs) p a =
    if_elim (All P) (slt v.level u.level) {x = v ∷ insert_unit u vs} {y = u ∷ v ∷ vs}
      (a.0, insert_unit-All P u vs p a.1) (p, a)

pub sort_units-All : (P : DagUnit → Type 0) (us : List DagUnit) → All P us → All P (sort_units us)
sort_units-All P [] a = tt
sort_units-All P (u ∷ us) a = insert_unit-All P u (sort_units us) a.0 (sort_units-All P us a.1)

-- A ledger: its units, and the keys of its unspent and of its pending outputs.
abbrev LedgerState : Type 0
LedgerState = (Hash → Option DagUnit) × List Hash × List Hash

-- An address is below 100 here.
abbrev utxo_key : Address → Utxo → Hash
utxo_key a u = a * 1000000 + u.unit_hash * 10000 + u.message_index * 100 + u.output_index

abbrev paid_keys : List Commission → List Hash
paid_keys [] = []
paid_keys (c ∷ cs) = utxo_key c.address c.utxo ∷ paid_keys cs

pub pays-elem :
    (cs : List Commission) (v : Utxo)
    → elem (utxo_key v.output.address v) (paid_keys cs) ≡ pays utxo_key cs v
pays-elem [] v = refl
pays-elem (c ∷ cs) v = ground (arith, pays-elem cs v)

abbrev without : Hash → List Hash → List Hash
without k ks = keep (λ x. not (k == x)) ks

abbrev pub ledger : Boydb
ledger = record {
  Db = LedgerState;
  utxo_key = utxo_key;
  get_unit_by_hash = λ d h. d.0 h;
  is_exist_unspent_output = λ d u. elem (utxo_key u.output.address u) d.1;
  del_unspent_output = λ d a u. (d.0, without (utxo_key a u) d.1, d.2);
  save_batch_unspent_output = λ d cs. (d.0, paid_keys cs ++ d.1, d.2);
  is_exist_pending_utxo = λ d u. elem (utxo_key u.output.address u) d.2;
  save_pending_utxo = λ d a u. (d.0, d.1, utxo_key a u ∷ d.2);
  del_pending_unspent_output = λ d u. (d.0, d.1, without (utxo_key u.output.address u) d.2);
  save_unit_to_db = λ d unit. ((λ h. if h == unit.hash then some unit else d.0 h), d.1, d.2);
  unspent_key = λ d u v e. ap (λ k. elem k d.1) e;
  unspent_del =
      λ d a u v. elem-keep (λ x. not (utxo_key a u == x)) (utxo_key v.output.address v) d.1;
  unspent_del_pending = λ d u v. refl;
  unspent_save = λ d cs v.
      ground (arith, elem-append (utxo_key v.output.address v) (paid_keys cs) d.1, pays-elem cs v);
  unspent_save_unit = λ d u v. refl;
  unspent_save_pending = λ d a u v. refl;
  unit_del = λ d a u h. refl;
  unit_del_pending = λ d u h. refl;
  unit_save_pending = λ d a u h. refl;
  pending_del = λ d u v.
      elem-keep (λ x. not (utxo_key u.output.address u == x)) (utxo_key v.output.address v) d.2;
  pending_save = λ d a u v. refl;
}

abbrev pub parent_table : ParentDb
parent_table = record {
  Db = (Hash → Option DagUnit) × List Hash;
  get_unit_by_hash = λ d h. d.0 h;
  get_parents_list = λ d. d.1;
  save_parent = λ d p. (d.0, p ∷ d.1);
  del_parent = λ d p. (d.0, keep (λ x. not (x == p)) d.1);
}

abbrev pub witness_table : WitnessDb
witness_table = record {
  Db = List Address × ℕ × (ℕ → VoteResult);
  get_witness_list = λ d. d.0;
  save_witness = λ d w. (w ∷ d.0, d.1, d.2);
  save_witness_list = λ d ws. (ws ++ d.0, d.1, d.2);
  del_witness = λ d w. (keep (λ x. not (x == w)) d.0, d.1, d.2);
  get_vote_round = λ d. d.1;
  save_vote_round = λ d r. (d.0, r, d.2);
  get_vote_result = λ d r. d.2 r;
  save_vote_result = λ d r v. (d.0, d.1, λ k. if k == r then v else d.2 k);
  witnesses_save = λ d w a. refl;
  witnesses_save_list = λ d ws a. elem-append a ws d.0;
  witnesses_del = λ d w a. elem-keep (λ x. not (x == w)) a d.0;
  witnesses_vote_result = λ d r v. refl;
}

insert_unit-Memᴰ : (u v : DagUnit) (us : List DagUnit) → Memᴰ u (v ∷ us) → Memᴰ u (insert_unit v us)
insert_unit-Memᴰ u v [] m = m
insert_unit-Memᴰ u v (w ∷ ws) m =
    if_elim (Memᴰ u) (slt w.level v.level) (after (λ n. insert_unit-Memᴰ u v ws n) m) m
  where
    after :
        (Memᴰ u (v ∷ ws) → Memᴰ u (insert_unit v ws))
        → Memᴰ u (v ∷ w ∷ ws)
        → Memᴰ u (w ∷ insert_unit v ws)
    after deeper (Memᴰ.head e) = Memᴰ.tail (deeper (Memᴰ.head e))
    after deeper (Memᴰ.tail (Memᴰ.head e)) = Memᴰ.head e
    after deeper (Memᴰ.tail (Memᴰ.tail n)) = Memᴰ.tail (deeper (Memᴰ.tail n))

pub sort_units-Memᴰ : (u : DagUnit) (us : List DagUnit) → Memᴰ u us → Memᴰ u (sort_units us)
sort_units-Memᴰ u [] m = m
sort_units-Memᴰ u (v ∷ vs) (Memᴰ.head e) = insert_unit-Memᴰ u v (sort_units vs) (Memᴰ.head e)
sort_units-Memᴰ u (v ∷ vs) (Memᴰ.tail m) =
    insert_unit-Memᴰ u v (sort_units vs) (Memᴰ.tail (sort_units-Memᴰ u vs m))
