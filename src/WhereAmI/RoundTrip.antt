-- ===== src/WhereAmI/RoundTrip.antt =====
-- One measurement, from the demand of the client to the value in its queue.
use ubiquitous_chainsaw.Base.{
  ℕ, ◌-◌, ◌≤◌, ◌<◌, ◌≡◌, refl, Bool, true, List, [], ◌∷◌, ◌++◌, length, Option, some, ok,
}
use ubiquitous_chainsaw.Base.Int.{ℤ, IsInt8}
use ubiquitous_chainsaw.Security.{Algorithm, Crypto, CryptoLaws}
use ubiquitous_chainsaw.Nimble.{NimbleErrorCode, success}
use ubiquitous_chainsaw.Replay.Protector.{
  ReplayProtector, make_replay_protector, generate_random_block,
}
use ubiquitous_chainsaw.Replay.Closed.{Steps}
use ubiquitous_chainsaw.Replay.InTime.{Erasable, accepted_in_time}
use ubiquitous_chainsaw.WhereAmI.Demand.{make_packet_demand_rssi}
use ubiquitous_chainsaw.WhereAmI.Token.{WhereAmI, measured, callback_demand_rssi}
use ubiquitous_chainsaw.WhereAmI.Receiver.{RssiDemander, receive}
use ubiquitous_chainsaw.WhereAmI.Notifier.{callback_rssi_notification}
use ubiquitous_chainsaw.WhereAmI.Exchange.{demand_is_answered}
use ubiquitous_chainsaw.WhereAmI.Answer.{notification_is_accepted}

-- A token that has not answered yet, or has answered the demand for another block.
abbrev pub token_with : List ℕ → List ℕ → Option ℕ → List ℕ → ℤ → WhereAmI
token_with private_key client_public_key handle block rssi = record {
  private_key = private_key;
  client_public_key = client_public_key;
  random_data_block = block;
  notify_handle = handle;
  rssi = rssi;
}

abbrev pub demander : List ℤ → List ℕ → ReplayProtector → RssiDemander
demander queue server_key protector = record {
  queue = queue;
  server_key = server_key;
  protector = protector;
}

module _ (c : Crypto) {IsPair : List ℕ → List ℕ → Type 0} (laws : CryptoLaws c IsPair)
    (client_public client_private : List ℕ) (client_pair : IsPair client_public client_private)
    (token_public token_private : List ℕ) (token_pair : IsPair token_public token_private)
    (short : c.hash_size Algorithm.sha2_256 ≤ 32) where
  -- Where wolfCrypt keeps its laws, a hash has at most 32 bytes and each side holds the other's public
  -- key: after any calls of the replay protector that returned the client generates a block, of up to 96 bytes, and
  -- demands the RSSI for it; the token measures a value and notifies the client; and if that comes
  -- back before the block's time is over, and the ages that have run out by then have valid iterators,
  -- the client adds the value to its queue.
  pub measurement_is_queued :
      (duration sent now draw draw' attribute : ℕ) (rehashes : Bool) (block old_block : List ℕ)
      (found : Option ℕ) (old_rssi value : ℤ) (append : List ℕ → NimbleErrorCode) (queue : List ℤ)
      (earlier protector : ReplayProtector)
      → Steps (λ k. Unit {0}) (make_replay_protector duration) earlier
      → generate_random_block sent rehashes block earlier ≡ ok (block, protector)
      → now - sent < duration
      → Erasable now duration protector.packet_ages
      → length block ≤ 96
      → IsInt8 value
      → (demand notification : List ℕ) × (token' : WhereAmI) × (protector' : ReplayProtector)
        × (make_packet_demand_rssi c client_private draw block ≡ ok demand)
        × (callback_demand_rssi c
              (record { attribute_handle = some attribute; conn_rssi = measured value })
              (some demand)
              (token_with token_private client_public found old_block old_rssi)
            ≡ ok (success, true, token'))
        × (callback_rssi_notification c draw' append token'
            ≡ ok (append notification, notification))
        × (receive c now notification (demander queue token_public protector)
            ≡ ok (demander (queue ++ (value ∷ [])) token_public protector'))
  measurement_is_queued duration sent now draw draw' attribute rehashes block old_block found
        old_rssi value append queue earlier protector steps generates soon erasable small is_int8 =
      let (protector', expected) =
        accepted_in_time duration sent now rehashes block steps generates soon erasable in
      let (makes, answers) =
        demand_is_answered c laws client_public client_private client_pair short draw attribute
          block token_private old_block found old_rssi value small in
      let (notifies, receives) =
        notification_is_accepted c laws token_public token_private token_pair short draw' now append
          (token_with token_private client_public _ block value)
          (demander queue token_public protector) protector' refl refl small is_int8 expected in
      (_, _, _, _, makes, answers, notifies, receives)
