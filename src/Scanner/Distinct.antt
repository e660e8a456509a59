-- ===== src/Scanner/Distinct.antt =====
-- The scanner finds no address twice.
use ubiquitous_chainsaw.Base.{
  ℕ, ◌≡◌, refl, sym, ap, ◌∙◌, Bool, true, false, List, [], ◌∷◌, ◌++◌, Option, ◌==◌, ==_iff,
  Bool-cases, inl, inr, if◌then◌else◌, arith,
}
use mathlib.Core.Option.{some}
use ubiquitous_chainsaw.Scanner.Info.{AddressType, none, DeviceInfo}
use ubiquitous_chainsaw.Scanner.Watch.{
  WinAddressType, CScanner, contains, info_of, address_type, received,
}

abbrev has_address : ℕ → Option ℕ → Bool
has_address a Option.none = false
has_address a (some b) = a == b

abbrev known : ℕ → List DeviceInfo → Bool
known a [] = false
known a (info ∷ infos) = if has_address a info.address then true else known a infos

-- No two of the devices have one address.
abbrev pub Distinct : List DeviceInfo → Type 0
Distinct [] = Unit {0}
Distinct (info ∷ infos) =
    ((a : ℕ) → has_address a info.address ≡ true → known a infos ≡ false) × Distinct infos

-- The cache has the address of every device.
abbrev pub Cached : CScanner → Type 0
Cached self =
    ((a : ℕ) → known a self.found_devices ≡ true → contains a self.device_cache ≡ true)
    × Distinct self.found_devices

same_address : (a : ℕ) (o : Option ℕ) → has_address a o ≡ true → o ≡ some a
same_address a Option.none h = absurd cc
same_address a (some b) h = ap some (sym ((==_iff a b).0 h))

known-append :
    (a : ℕ) (infos : List DeviceInfo) (info : DeviceInfo)
    → known a (infos ++ (info ∷ [])) ≡ (if has_address a info.address then true else known a infos)
known-append a [] info = refl
known-append a (first ∷ rest) info = elim (Bool-cases (has_address a first.address)) [
  | inl e ↦ elim (Bool-cases (has_address a info.address)) [ inl i ↦ rw (e, i) | inr i ↦ rw (e, i) ]
  | inr e ↦ rw (e, known-append a rest info)
]

Distinct-append :
    (infos : List DeviceInfo) (info : DeviceInfo)
    → Distinct infos
    → ((a : ℕ) → has_address a info.address ≡ true → known a infos ≡ false)
    → Distinct (infos ++ (info ∷ []))
Distinct-append [] info distinct new = ((λ a h. refl), tt)
Distinct-append (first ∷ rest) info (head, tail) new = (
  λ a h. known-append a rest info ∙ elim (Bool-cases (has_address a info.address)) [
    | inl i ↦ absurd (false_not_true (rw (h) at (new a i)))
    | inr i ↦ rw (i) (head a h)
  ],
  Distinct-append rest info tail (λ a i. later a (new a i)),
)
  where
    false_not_true : true ≡ false → ⊥
    false_not_true e = cc

    later : (a : ℕ) → known a (first ∷ rest) ≡ false → known a rest ≡ false
    later a h = elim (Bool-cases (has_address a first.address)) [
      | inl e ↦ absurd (false_not_true (rw (e) at h))
      | inr e ↦ rw (e) at h
    ]

has_info :
    (a address : ℕ) (type : AddressType)
    → has_address a (info_of address type).address ≡ true
    → a ≡ address
unfolding info_of
has_info a address none h = absurd cc
has_info a address type h = (==_iff a address).0 h

pub received-Cached :
    (address : ℕ) (type : WinAddressType) (self : CScanner)
    → Cached self
    → Cached (received address type self)
unfolding received contains
received-Cached address type self (cached, distinct) =
    elim (Bool-cases (contains address self.device_cache)) [
      | inl e ↦ rw (e) (cached, distinct)
      | inr e ↦ rw (e) (
        λ a h. now_cached a (sym (known-append a self.found_devices info) ∙ h),
        Distinct-append self.found_devices info distinct
            (λ a h. new a (has_info a address kind h) e),
      )
    ]
  where
    kind : AddressType
    kind = address_type type

    info : DeviceInfo
    info = info_of address kind

    differs : (a : ℕ) → a ≡ address → (a == address) ≡ false → ⊥
    differs a same e = ground arith

    now_cached :
        (a : ℕ)
        → (if has_address a info.address then true else known a self.found_devices) ≡ true
        → contains a (address ∷ self.device_cache) ≡ true
    now_cached a h = elim (Bool-cases (a == address)) [
      | inl e ↦ rw (e)
      | inr e ↦ elim (Bool-cases (has_address a info.address)) [
        | inl i ↦ absurd (differs a (has_info a address kind i) e)
        | inr i ↦ rw (e) (cached a (rw (i) at h))
      ]
    ]

    clash :
        (a : ℕ)
        → a ≡ address
        → contains a self.device_cache ≡ true
        → contains address self.device_cache ≡ false
        → ⊥
    clash a same h e = cc

    new :
        (a : ℕ)
        → a ≡ address
        → contains address self.device_cache ≡ false
        → known a self.found_devices ≡ false
    new a same e = elim (Bool-cases (known a self.found_devices)) [
      | inl k ↦ absurd (clash a same (cached a k) e)
      | inr k ↦ k
    ]
