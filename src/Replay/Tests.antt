-- ===== src/Replay/Tests.antt =====
-- The protector with a store duration of three ticks.
use ubiquitous_chainsaw.Base.{ℕ, ◌≡◌, refl, true, false, List, [], ◌∷◌, ok}
use ubiquitous_chainsaw.Security.Hash.{same_bytes}
use ubiquitous_chainsaw.Replay.Packet.{packet_eq, lookup, erase, answer}
use ubiquitous_chainsaw.Replay.Protector.{
  ReplayProtector, make_replay_protector, push, rehashed, extracted, revalid, remove_ages,
  remove_outdated_packets, answered, expected_random_data, emplace, generate_random_block,
}
use ubiquitous_chainsaw.Replay.Closed.{done, generated}
use ubiquitous_chainsaw.Replay.Once.{accepted_once, IsRefused}

abbrev block : List ℕ
block = 4 ∷ 2 ∷ []

abbrev waiting : ReplayProtector
waiting = record {
  packet_cache = (block, false) ∷ [];
  packet_ages = record { block = block; valid = true; start = 10 } ∷ [];
  oldest_allowed = 3;
}

abbrev closed : ReplayProtector
closed = record waiting {
  packet_cache = (block, true) ∷ [];
  packet_ages = record { block = block; valid = false; start = 10 } ∷ [];
}

sends : generate_random_block 10 false block (make_replay_protector 3) ≡ ok (block, waiting)
unfolding generate_random_block emplace make_replay_protector lookup push rehashed
sends = refl

accepts : expected_random_data 12 block waiting ≡ ok (true, closed)
unfolding expected_random_data remove_outdated_packets remove_ages answered answer lookup erase
    packet_eq same_bytes extracted revalid
accepts = refl

accepted_once_example : IsRefused 12 block closed
accepted_once_example =
    accepted_once 3 12 12 block (generated 10 false block done tt sends) accepts done

-- After three ticks the block is gone.
expires : expected_random_data 13 block waiting ≡ ok (false, make_replay_protector 3)
unfolding expected_random_data remove_outdated_packets remove_ages answered answer lookup erase
    packet_eq same_bytes make_replay_protector
expires = refl
