-- ===== src/Base/Bytes.antt =====
-- Byte buffers, `std::vector<uint8_t>` and `std::span<uint8_t>`, as lists of numbers below 256.
use Prim.Native.Nat.{ℕ, zero, suc, ◌+◌, ◌%◌, ◌<◌}
use mathlib.Core.Path.{◌≡◌}
use mathlib.Core.Bool.{true}
use mathlib.Core.List.{List, [], ◌∷◌, ◌++◌}
use native.Mathlib.Omega.{arith}
use ubiquitous_chainsaw.Base.Tests.{leb, le→leb}
use ubiquitous_chainsaw.Base.Lists.{
  length, take, drop, length-append, take-append, drop-append, zero_add, suc_add,
}
use ubiquitous_chainsaw.Base.Outcomes.{Outcome, ok, stop, undefined, ◌>>=◌, ◌>>◌, assert, defined}

-- `static_cast<uint8_t>`
abbrev pub u8 : ℕ → ℕ
u8 n = n % 256

abbrev pub AllBytes : List ℕ → Type 0
AllBytes [] = Unit
AllBytes (x ∷ xs) = (x < 256) × AllBytes xs

-- `packet[i]`
abbrev pub load : List ℕ → ℕ → Outcome ℕ
load [] i = stop undefined
load (x ∷ xs) zero = ok x
load (x ∷ xs) (suc i) = load xs i

-- `packet[i] = v`
abbrev pub store : List ℕ → ℕ → ℕ → Outcome (List ℕ)
store [] i v = stop undefined
store (x ∷ xs) zero v = ok (v ∷ xs)
store (x ∷ xs) (suc i) v = store xs i v >>= λ ys. ok (x ∷ ys)

-- `std::span{ std::begin(packet) + offset, size }`
unfoldable pub subspan : List ℕ → ℕ → ℕ → Outcome (List ℕ)
subspan packet offset size =
    defined (leb (offset + size) (length packet)) >> ok (take size (drop offset packet))

-- `view` of CRssiDemander.cpp and of CWhereAmI.cpp: the same span behind an `ASSERT`.
unfoldable pub view : List ℕ → ℕ → ℕ → Outcome (List ℕ)
view packet offset size =
    assert (leb (offset + size) (length packet)) >> ok (take size (drop offset packet))

-- `std::memcpy(packet.data() + offset, src.data(), src.size())`
unfoldable pub copy_to : List ℕ → ℕ → List ℕ → Outcome (List ℕ)
copy_to packet offset src =
    defined (leb (offset + length src) (length packet))
    >> ok (take offset packet ++ (src ++ drop (offset + length src) packet))

drop_middle : (pre mid post : List ℕ) → drop (length pre + length mid) (pre ++ (mid ++ post)) ≡ post
drop_middle [] mid post = rw zero_add (drop-append mid post)
drop_middle (x ∷ pre) mid post = rw suc_add (drop_middle pre mid post)

fits_middle :
    (pre mid post : List ℕ) → leb (length pre + length mid) (length (pre ++ (mid ++ post))) ≡ true
fits_middle pre mid post =
    le→leb _ _ (omega (arith, length-append pre (mid ++ post), length-append mid post))

-- A buffer that is known to consist of three parts, and an access to the middle one.
module _ (packet pre mid post : List ℕ) (offset size : ℕ) (parts : packet ≡ pre ++ (mid ++ post))
    (at_offset : offset ≡ length pre) (of_size : size ≡ length mid) where
  pub view-append : view packet offset size ≡ ok mid
  unfolding view
  view-append = rw (
    parts,
    at_offset,
    of_size,
    fits_middle pre mid post,
    drop-append pre (mid ++ post),
    take-append mid post,
  )

  pub subspan-append : subspan packet offset size ≡ ok mid
  unfolding subspan
  subspan-append = rw (
    parts,
    at_offset,
    of_size,
    fits_middle pre mid post,
    drop-append pre (mid ++ post),
    take-append mid post,
  )

pub copy_to-append :
    (packet pre mid post : List ℕ) (offset : ℕ) (src : List ℕ)
    → packet ≡ pre ++ (mid ++ post)
    → offset ≡ length pre
    → length src ≡ length mid
    → copy_to packet offset src ≡ ok (pre ++ (src ++ post))
unfolding copy_to
copy_to-append packet pre mid post offset src parts at_offset of_size = rw (
  parts,
  at_offset,
  of_size,
  fits_middle pre mid post,
  take-append pre (mid ++ post),
  drop_middle pre mid post,
)
