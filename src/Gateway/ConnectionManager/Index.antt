-- ===== src/Gateway/ConnectionManager/Index.antt =====
-- The device index, seen as one map from users and devices to connections.
use nebula_im.Base.{
  ℕ, true, false, ◌&&◌, ◌≡◌, ◌≢◌, refl, ap, Option, none, some, [], ◌∷◌, ◌==◌, if◌then◌else◌, arith,
  Option-cases, inl, inr, Bool-cases,
}
use nebula_im.Base.Keys.{Text, text_beq, nat_eq, text_eq}
use nebula_im.Base.Dict.{Dict, lookup, insert, erase, lookup-insert, lookup-erase}
use nebula_im.Gateway.ConnectionManager.{
  DeviceIndex, points_to, forget_device, unindex, is_empty, devices_of,
}

unfoldable pub find : ℕ → Text → DeviceIndex → Option Text
find u d index = lookup d (devices_of u index)

find-insert :
    (u v : ℕ) (d : Text) (devices : Dict Text Text) (index : DeviceIndex)
    → find v d (insert u devices index) ≡ (if u == v then lookup d devices else find v d index)
unfolding find
find-insert u v d devices index = ground (arith, lookup-insert u v devices index)

find-erase :
    (u v : ℕ) (d : Text) (index : DeviceIndex)
    → find v d (erase u index) ≡ (if u == v then none else find v d index)
unfolding find lookup
find-erase u v d index = ground (arith, lookup-erase u v index)

lookup-forget_device :
    (d e c : Text) (devices : Dict Text Text)
    → lookup e (forget_device d c devices)
      ≡ (if text_beq d e && points_to (lookup d devices) c then none else lookup e devices)
unfolding forget_device
lookup-forget_device d e c devices = ground (arith, lookup-erase d e devices)

nothing_in_empty :
    (devices : Dict Text Text) (e : Text) → is_empty devices ≡ true → lookup e devices ≡ none
unfolding lookup
nothing_in_empty [] e h = refl
nothing_in_empty (x ∷ devices) e h = cc

find_absent :
    (u : ℕ) (d : Text) (index : DeviceIndex) → lookup u index ≡ none → find u d index ≡ none
unfolding find lookup
find_absent u d index h = ground arith

find_present :
    (u : ℕ) (d : Text) (index : DeviceIndex) (devices : Dict Text Text)
    → lookup u index ≡ some devices
    → find u d index ≡ lookup d devices
unfolding find
find_present u d index devices h = ground arith

-- Of all entries only the named one goes, and only if it is this connection's.
pub find-unindex :
    (u v : ℕ) (d e c : Text) (index : DeviceIndex)
    → find v e (unindex u d c index) ≡ (
        if (u == v) && (text_beq d e && points_to (find u d index) c) then none else find v e index)
unfolding unindex
find-unindex u v d e c index = elim (Option-cases (lookup u index)) [
  | inl absent ↦ rw (absent, unindex) (ground (arith, find_absent u d index absent))
  | inr (devices, present) ↦
      let rest = forget_device d c devices in
      let same = find_present u e index devices present in
      let looked = find_present u d index devices present in
      let left = lookup-forget_device d e c devices in
      elim (Bool-cases (is_empty rest)) [
        | inl empty ↦
            rw (present, unindex, empty)
              (ground (arith, find-erase u v e index, nothing_in_empty rest e empty))
        | inr some_left ↦
            rw (present, unindex, some_left) (ground (arith, find-insert u v e rest index))
      ]
]

-- No user is listed without a device.
abbrev pub IsTidy : DeviceIndex → Type 0
IsTidy index = (u : ℕ) → lookup u index ≢ some []

insert-nonempty : (d c : Text) (devices : Dict Text Text) → insert d c devices ≢ []
unfolding insert
insert-nonempty d c [] h = cc
insert-nonempty d c ((e, c') ∷ devices) h = ground arith

nonempty : {devices : Dict Text Text} → is_empty devices ≡ false → devices ≢ []
nonempty h e = cc (ap is_empty e)

erase-IsTidy : (u : ℕ) (index : DeviceIndex) → IsTidy index → IsTidy (erase u index)
erase-IsTidy u index t v h = t v (ground (arith, lookup-erase u v index))

insert-IsTidy :
    (u : ℕ) (devices : Dict Text Text) (index : DeviceIndex)
    → devices ≢ []
    → IsTidy index
    → IsTidy (insert u devices index)
insert-IsTidy u devices index ne t v h = elim (Bool-cases (u == v)) [
  | inl same ↦ ne (ground (arith, lookup-insert u v devices index))
  | inr other ↦ t v (ground (arith, lookup-insert u v devices index))
]

pub unindex-IsTidy :
    (u : ℕ) (d c : Text) (index : DeviceIndex) → IsTidy index → IsTidy (unindex u d c index)
unfolding unindex
unindex-IsTidy u d c index t = elim (Option-cases (lookup u index)) [
  | inl absent ↦ rw (absent, unindex) t
  | inr (devices, present) ↦ elim (Bool-cases (is_empty (forget_device d c devices))) [
    | inl empty ↦ rw (present, unindex, empty) (erase-IsTidy u index t)
    | inr some_left ↦
        rw (present, unindex, some_left)
          (insert-IsTidy u (forget_device d c devices) index (nonempty some_left) t)
  ]
]

-- Adding a device to a user's devices.
pub find_added :
    (u v : ℕ) (d e c : Text) (index : DeviceIndex)
    → find v e (insert u (insert d c (devices_of u index)) index)
      ≡ (if (u == v) && text_beq d e then some c else find v e index)
unfolding find
find_added u v d e c index = ground (
  arith,
  find-insert u v e (insert d c (devices_of u index)) index,
  lookup-insert d e c (devices_of u index),
  ap (λ k. lookup e (devices_of k index)) {x = u} {y = v},
)

pub added-IsTidy :
    (u : ℕ) (d c : Text) (index : DeviceIndex)
    → IsTidy index
    → IsTidy (insert u (insert d c (devices_of u index)) index)
added-IsTidy u d c index t =
    insert-IsTidy u (insert d c (devices_of u index)) index
      (insert-nonempty d c (devices_of u index)) t
