-- ===== src/Graphop/AddressSet.antt =====
-- common/graphop/addressset.go.
use babyboy.Prelude.{
  ℕ, ◌+◌, ◌≡◌, refl, List, [], map, Bool, true, false, not, ◌&&◌, ◌||◌, ◌==◌, if◌then◌else◌, arith,
  elem, distinct, length,
}
use babyboy.Types.Hash.{Address}
use babyboy.Graphop.Keys
use babyboy.Graphop.Keys.{
  elem-insert, elem-insert_all, elem-delete, distinct-insert, distinct-insert_all, distinct-delete,
  length-delete, not_elem_of_empty,
}

pub record AddressSet : Type 0 where
  pub keys : List Address

unfoldable pub new_address_set : AddressSet
new_address_set = record { keys = [] }

unfoldable pub insert : AddressSet → Address → AddressSet
insert hs val = record { keys = Keys.insert val hs.keys }

unfoldable pub list_insert : AddressSet → List Address → AddressSet
list_insert hs list = record { keys = Keys.insert_all list hs.keys }

unfoldable pub remove : AddressSet → Address → AddressSet
remove hs val = record { keys = Keys.delete val hs.keys }

unfoldable pub size : AddressSet → ℕ
size hs = length hs.keys

unfoldable pub empty : AddressSet → Bool
unfolding size
empty hs = size hs == 0

unfoldable pub exists : AddressSet → Address → Bool
exists hs val = elem val hs.keys

unfoldable pub get_all_address : AddressSet → List Address
get_all_address hs = hs.keys

unfoldable pub get_all_address_as_string : (Address → List ℕ) → AddressSet → List (List ℕ)
get_all_address_as_string address_string hs = map address_string hs.keys

abbrev pub IsValid : AddressSet → Type 0
IsValid hs = distinct hs.keys ≡ true

-- Membership after each operation, on every key.
pub exists_after :
    (hs : AddressSet) (v w : Address) (list : List Address)
    → (exists new_address_set w ≡ false)
      × (exists (insert hs v) w ≡ (v == w || exists hs w))
      × (exists (list_insert hs list) w ≡ (elem w list || exists hs w))
      × (exists (remove hs v) w ≡ (not (w == v) && exists hs w))
unfolding exists new_address_set insert list_insert remove
exists_after hs v w list =
    (refl, elem-insert w v hs.keys, elem-insert_all w list hs.keys, elem-delete w v hs.keys)

-- Every operation keeps the keys distinct, so that `size` counts them.
pub operations-IsValid :
    (hs : AddressSet) (v : Address) (list : List Address)
    → IsValid hs
    → IsValid new_address_set
      × IsValid (insert hs v)
      × IsValid (list_insert hs list)
      × IsValid (remove hs v)
unfolding new_address_set insert list_insert remove
operations-IsValid hs v list h = (
  refl,
  distinct-insert v hs.keys h,
  distinct-insert_all list hs.keys h,
  distinct-delete v hs.keys h,
)

-- The size grows by one with a new key and falls by one when a present key is removed, and an
-- empty set has no element.
pub size_after :
    (hs : AddressSet) (v : Address)
    → IsValid hs
    → (size (insert hs v) ≡ size hs + (if exists hs v then 0 else 1))
      × (size (remove hs v) + (if exists hs v then 1 else 0) ≡ size hs)
      × ((empty hs && exists hs v) ≡ false)
unfolding size insert remove exists empty
size_after hs v h =
    (ground arith, length-delete v hs.keys h, ground (arith, not_elem_of_empty v hs.keys))
