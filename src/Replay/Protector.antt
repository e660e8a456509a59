-- ===== src/Replay/Protector.antt =====
-- `CReplayProtector`. Time is that of its steady clock, in ticks; rounding to `float` is left out.
use ubiquitous_chainsaw.Base.{
  ℕ, ◌-◌, Bool, true, false, not, ◌&&◌, ltb, leb, if◌then◌else◌, List, [], ◌∷◌, Option, none, some,
  Outcome, ok, stop, assertion, defined, ◌>>=◌, ◌>>◌,
}
use ubiquitous_chainsaw.Replay.Packet.{Cache, packet_eq, lookup, erase, answer}

-- The iterator `packet` is the block of the element that it was made for, and whether it is valid still:
-- `extract` invalidates the iterators to its element, and a rehash all iterators of the set.
pub record PacketAge : Type 0 where
  pub block : List ℕ
  pub valid : Bool
  pub start : ℕ

-- `m_PacketAges`, the oldest in front.
abbrev pub Ages : Type 0
Ages = List PacketAge

unfoldable pub push : PacketAge → Ages → Ages
push age [] = age ∷ []
push age (other ∷ rest) =
    let later = push age rest in
    if ltb age.start other.start then age ∷ other ∷ rest else other ∷ later

-- The ages with their iterators valid as the test says.
unfoldable pub revalid : (PacketAge → Bool) → Ages → Ages
revalid test [] = []
revalid test (age ∷ ages) = record age { valid = test age } ∷ revalid test ages

-- `extract` of the block.
unfoldable pub extracted : List ℕ → Ages → Ages
unfolding revalid
extracted block ages = revalid (λ age. not (packet_eq block age.block) && age.valid) ages

-- What `emplace` leaves of the iterators, if it rehashes and if it does not.
unfoldable pub rehashed : Bool → Ages → Ages
unfolding revalid
rehashed rehashes ages = if rehashes then revalid (λ age. false) ages else ages

pub record ReplayProtector : Type 0 where
  pub packet_cache : Cache
  pub packet_ages : Ages
  pub oldest_allowed : ℕ

unfoldable pub make_replay_protector : ℕ → ReplayProtector
make_replay_protector store_duration = record {
  packet_cache = [];
  packet_ages = [];
  oldest_allowed = store_duration;
}

-- The loop of `remove_outdated_packets` at the time `now`; `erase` takes a valid iterator.
unfoldable pub remove_ages : ℕ → ℕ → Cache → Ages → Outcome (Cache × Ages)
remove_ages now allowed cache [] = ok (cache, [])
remove_ages now allowed cache (age ∷ ages) =
    let rest = remove_ages now allowed (erase age.block cache) ages in
    if leb allowed (now - age.start) then defined age.valid >> rest else ok (cache, age ∷ ages)

unfoldable pub remove_outdated_packets : ℕ → ReplayProtector → Outcome ReplayProtector
remove_outdated_packets now self =
    remove_ages now self.oldest_allowed self.packet_cache self.packet_ages >>= λ r.
    ok (record self { packet_cache = r.0; packet_ages = r.1 })

-- What `expected_random_data` does with what it finds.
unfoldable pub answered : List ℕ → Option Bool → ReplayProtector → Bool × ReplayProtector
answered block none self = (false, self)
answered block (some true) self = (false, self)
answered block (some false) self = (
  true,
  record self {
    packet_cache = answer block self.packet_cache;
    packet_ages = extracted block self.packet_ages;
  },
)

unfoldable pub expected_random_data :
    ℕ → List ℕ → ReplayProtector → Outcome (Bool × ReplayProtector)
expected_random_data now block self = do
  self' ← remove_outdated_packets now self
  ok (answered block (lookup block self'.packet_cache) self')

unfoldable pub emplace : List ℕ → Option Bool → Cache → Outcome Cache
emplace block none cache = ok ((block, false) ∷ cache)
emplace block (some answered) cache = stop assertion

-- `block` is what the random number generator gives, `rehashes` whether `emplace` rehashes the set.
unfoldable pub generate_random_block :
    ℕ → Bool → List ℕ → ReplayProtector → Outcome (List ℕ × ReplayProtector)
generate_random_block now rehashes block self =
    elim (emplace block (lookup block self.packet_cache) self.packet_cache) [
      | stop e ↦ stop e
      | ok cache ↦ ok (
        block,
        record self {
          packet_cache = cache;
          packet_ages =
              push (record { block = block; valid = true; start = now })
                (rehashed rehashes self.packet_ages);
        },
      )
    ]
