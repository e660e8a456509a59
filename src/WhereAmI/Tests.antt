-- ===== src/WhereAmI/Tests.antt =====
-- The RSSI exchange at concrete keys and packets.
use ubiquitous_chainsaw.Base.{
  ℕ, ◌≡◌, ◌↔◌, refl, true, false, Option, none, some, List, [], ◌∷◌, ok, arith,
}
use ubiquitous_chainsaw.Base.Int.{ℤ, pos, negsuc}
use ubiquitous_chainsaw.Security.{Algorithm}
use ubiquitous_chainsaw.Security.Hash.{CHash, same_bytes}
use ubiquitous_chainsaw.Security.Sample
use ubiquitous_chainsaw.Security.Sample.{sample, sample-CryptoLaws}
use ubiquitous_chainsaw.Services
use ubiquitous_chainsaw.Nimble.{success}
use ubiquitous_chainsaw.Replay.Packet.{packet_eq, lookup, erase, answer}
use ubiquitous_chainsaw.Replay.Protector.{
  ReplayProtector, make_replay_protector, push, rehashed, extracted, revalid, remove_ages,
  remove_outdated_packets, answered, expected_random_data, emplace, generate_random_block,
}
use ubiquitous_chainsaw.Replay.Closed.{done, generated}
use ubiquitous_chainsaw.WhereAmI.Demand.{make_packet_demand_rssi}
use ubiquitous_chainsaw.WhereAmI.Token.{WhereAmI, Radio, measured, callback_demand_rssi}
use ubiquitous_chainsaw.WhereAmI.Receiver.{RssiDemander, receive}
use ubiquitous_chainsaw.WhereAmI.Exchange.{demand_is_answered}
use ubiquitous_chainsaw.WhereAmI.Notifier.{callback_rssi_notification}
use ubiquitous_chainsaw.WhereAmI.Answer.{notification_is_accepted}
use ubiquitous_chainsaw.WhereAmI.RoundTrip.{measurement_is_queued}
use ubiquitous_chainsaw.WhereAmI.Sender.{send_demand, waits, try_demand_rssi}
use ubiquitous_chainsaw.WhereAmI.Sent.{demand_is_written_once}
use ubiquitous_chainsaw.Server.State.{CServer, HasSubscribedResult, is_authenticated}
use ubiquitous_chainsaw.Scanner.Info.{random}
use ubiquitous_chainsaw.Characteristic.Status.{unreachable}
use ubiquitous_chainsaw.WhereAmI.Notification.{
  packet, any_rssi_is_accepted, LeavesQueue, replay_adds_nothing,
}

abbrev key : List ℕ
key = 9 ∷ 8 ∷ []

abbrev block : List ℕ
block = 4 ∷ 2 ∷ []

abbrev token : Option ℕ → List ℕ → ℤ → WhereAmI
token handle data_block rssi = record {
  private_key = 1 ∷ [];
  client_public_key = key;
  random_data_block = data_block;
  notify_handle = handle;
  rssi = rssi;
}

abbrev radio : Radio
radio = record { attribute_handle = some 21; conn_rssi = measured (negsuc 59) }

abbrev demand_bytes : List ℕ
demand_bytes = 7 ∷ 2 ∷ 1 ∷ 9 ∷ 2 ∷ 11 ∷ 2 ∷ 4 ∷ 2 ∷ 2 ∷ 7 ∷ 2 ∷ 9 ∷ []

demand_is_answered_example :
    (make_packet_demand_rssi sample key 0 block ≡ ok demand_bytes)
    × (callback_demand_rssi sample radio (some demand_bytes) (token none [] (pos 0))
        ≡ ok (success, true, token (some 21) block (negsuc 59)))
unfolding Services.sha_version_id_of Sample.head_and_tag Sample.tag
demand_is_answered_example =
    demand_is_answered sample sample-CryptoLaws key key refl (omega arith) 0 21 block (1 ∷ []) []
      none (pos 0) (negsuc 59) (omega arith)

abbrev waiting : ReplayProtector
waiting = record {
  packet_cache = (block, false) ∷ [];
  packet_ages = record { block = block; valid = true; start = 10 } ∷ [];
  oldest_allowed = 3;
}

abbrev closed : ReplayProtector
closed = record waiting {
  packet_cache = (block, true) ∷ [];
  packet_ages = record { block = block; valid = false; start = 10 } ∷ [];
}

sends : generate_random_block 10 false block (make_replay_protector 3) ≡ ok (block, waiting)
unfolding generate_random_block emplace make_replay_protector lookup push rehashed
sends = refl

accepts : expected_random_data 12 block waiting ≡ ok (true, closed)
unfolding expected_random_data remove_outdated_packets remove_ages answered answer lookup erase
    packet_eq same_bytes extracted revalid
accepts = refl

abbrev demander : RssiDemander
demander = record { queue = []; server_key = key; protector = waiting }

-- The hash of another message.
abbrev stale : CHash
stale = record { hash_type = Algorithm.sha2_256; bytes = 50 ∷ 7 ∷ [] }

verified : sample.verify_hash key (50 ∷ 9 ∷ []) stale.bytes ≡ true
unfolding Sample.head_and_tag Sample.tag same_bytes
verified = refl

any_rssi_is_accepted_example :
    receive sample 12 (packet block 200 stale (50 ∷ 9 ∷ [])) demander
    ≡ ok (record { queue = negsuc 55 ∷ []; server_key = key; protector = closed })
any_rssi_is_accepted_example =
    any_rssi_is_accepted block 200 stale (50 ∷ 9 ∷ []) sample demander refl (omega arith) verified
      12 closed accepts

abbrev demander_with : List ℤ → ReplayProtector → RssiDemander
demander_with queue protector = record { queue = queue; server_key = key; protector = protector }

replay_adds_nothing_example :
    ((self' : RssiDemander) × (receive sample 12 (packet block 200 stale (50 ∷ 9 ∷ [])) demander
        ≡ ok self')
      × (self'.queue ≡ negsuc 55 ∷ [])
      × (self'.protector ≡ closed))
    × LeavesQueue block 200 stale (50 ∷ 9 ∷ []) sample 12 (demander_with (negsuc 55 ∷ []) closed)
replay_adds_nothing_example =
    replay_adds_nothing block 200 stale (50 ∷ 9 ∷ []) sample demander
      (demander_with (negsuc 55 ∷ []) closed) 3 12 12 closed refl (omega arith) verified
      (generated 10 false block done tt sends) accepts done

abbrev measuring : WhereAmI
measuring = record {
  private_key = key;
  client_public_key = [];
  random_data_block = block;
  notify_handle = some 21;
  rssi = negsuc 59;
}

abbrev notification_bytes : List ℕ
notification_bytes = 9 ∷ 2 ∷ 11 ∷ 1 ∷ 1 ∷ 12 ∷ 2 ∷ 14 ∷ 2 ∷ 4 ∷ 2 ∷ 196 ∷ 3 ∷ 7 ∷ 3 ∷ 9 ∷ []

notification_is_accepted_example :
    (callback_rssi_notification sample 0 (λ bytes. success) measuring
      ≡ ok (success, notification_bytes))
    × (receive sample 12 notification_bytes demander
        ≡ ok (record { queue = negsuc 59 ∷ []; server_key = key; protector = closed }))
unfolding Services.sha_version_id_of Sample.head_and_tag Sample.tag
notification_is_accepted_example =
    notification_is_accepted sample sample-CryptoLaws key key refl (omega arith) 0 12
      (λ bytes. success) measuring demander closed refl refl (omega arith) (omega arith) accepts

measurement_is_queued_example :
    (demand answer : List ℕ) × (token' : WhereAmI) × (protector' : ReplayProtector)
    × (make_packet_demand_rssi sample key 0 block ≡ ok demand)
    × (callback_demand_rssi sample radio
          (some demand)
          (record (token none [] (pos 0)) { private_key = key })
        ≡ ok (success, true, token'))
    × (callback_rssi_notification sample 0 (λ bytes. success) token' ≡ ok (success, answer))
    × (receive sample 12 answer (demander_with [] waiting)
        ≡ ok (demander_with (negsuc 59 ∷ []) protector'))
unfolding make_replay_protector
measurement_is_queued_example =
    measurement_is_queued sample sample-CryptoLaws key key refl key key refl (omega arith) 3 10 12 0
      0 21 false block [] none (pos 0) (negsuc 59) (λ bytes. success) [] (make_replay_protector 3)
      waiting done sends (omega arith) (λ late. refl, tt) (omega arith) (omega arith)

abbrev holding : CServer ℕ
holding = record {
  server = some (record {
    device = record { address = 5; services = [] };
    info = record { address = some 5; address_type = random };
  });
  server_key = some key;
  devices = [];
}

holds : is_authenticated holding ≡ true
unfolding is_authenticated
holds = refl

demand_is_written_once_example :
    ((try_demand_rssi (λ i. unreachable) holding).writes ≡ 1)
    × ((is_authenticated (try_demand_rssi (λ i. unreachable) holding).server ≡ false)
        ↔ (unreachable ≡ unreachable))
demand_is_written_once_example = demand_is_written_once (λ i. unreachable) holding holds

too_early : send_demand 3 2 HasSubscribedResult.subscribed ≡ waits
unfolding send_demand
too_early = refl
