-- ===== src/Profiles/Live.antt =====
-- Reads and writes of the objects in memory.
use ubiquitous_chainsaw.Base.{
  ℕ, suc, ◌<◌, ◌≡◌, [], ◌∷◌, ◌++◌, length, none, some, ok, ◌==◌, ==_self, ==_iff, Bool-cases, inl,
  inr, arith,
}
use ubiquitous_chainsaw.Profiles.Memory.{
  Memory, Cell, Callback, CharacteristicData, model, characteristic_data, read, write, read_model,
  read_data,
}
use ubiquitous_chainsaw.Profiles.Characteristic.{to_chr_def}

pub read_newest : (c : Cell) (m : Memory) → read (length m) (c ∷ m) ≡ some c
unfolding read
read_newest c m = rw (==_self (length m))

pub read-lt : (a : ℕ) (c : Cell) (m : Memory) → read a m ≡ some c → a < length m
unfolding read
read-lt a c [] h = absurd cc
read-lt a c (d ∷ m) h = ground (arith, read-lt a c m)

-- What is made later does not change what a pointer finds.
pub read_kept :
    (newer : Memory) (a : ℕ) (c : Cell) (m : Memory)
    → read a m ≡ some c
    → read a (newer ++ m) ≡ some c
unfolding read
read_kept [] a c m h = h
read_kept (d ∷ newer) a c m h =
    let below = read-lt a c (newer ++ m) (read_kept newer a c m h) in
    elim (Bool-cases (a == length (newer ++ m))) [
      | inl e ↦ absurd (omega (arith, (==_iff a (length (newer ++ m))).0 e))
      | inr e ↦ rw (e) (read_kept newer a c m h)
    ]

pub read_at : (newer : Memory) (c : Cell) (m : Memory) → read (length m) (newer ++ c ∷ m) ≡ some c
read_at newer c m = read_kept newer (length m) c (c ∷ m) (read_newest c m)

pub write_newest : (new c : Cell) (m : Memory) → write (length m) new (c ∷ m) ≡ new ∷ m
unfolding write
write_newest new c m = rw (==_self (length m))

length_newer : (newer : Memory) (c : Cell) (m : Memory) → length m < length (newer ++ c ∷ m)
length_newer [] c m = omega arith
length_newer (d ∷ newer) c m = omega (arith, length_newer newer c m)

pub write_at :
    (newer : Memory) (new c : Cell) (m : Memory)
    → write (length m) new (newer ++ c ∷ m) ≡ newer ++ new ∷ m
unfolding write
write_at [] new c m = write_newest new c m
write_at (d ∷ newer) new c m = elim (Bool-cases (length m == length (newer ++ c ∷ m))) [
  | inl e ↦
      absurd
        (omega (arith, (==_iff (length m) (length (newer ++ c ∷ m))).0 e, length_newer newer c m))
  | inr e ↦ rw (e, write_at newer new c m)
]

-- The entry of the array for a characteristic that has been made.
pub to_chr_def_made :
    (newer m : Memory) (d : CharacteristicData) (callback : Callback) (profile : ℕ)
    → to_chr_def (suc (length m)) (
        newer
        ++ (model (record { own_data = length m; callback = callback; profile = profile })
            ∷ characteristic_data d
            ∷ m))
      ≡ ok record {
        uuid = some (length m);
        access_cb = some tt;
        arg = some (suc (length m));
        descriptors = none;
        flags = d.flags;
        min_key_size = 0;
        val_handle = some (length m);
      }
unfolding to_chr_def read_model read_data
to_chr_def_made newer m d callback profile =
    let made = model (record { own_data = length m; callback = callback; profile = profile }) in
    rw (
      read_at newer made (characteristic_data d ∷ m),
      read_kept newer (length m) (characteristic_data d) (made ∷ characteristic_data d ∷ m)
          (read_at (made ∷ []) (characteristic_data d) m),
    )
