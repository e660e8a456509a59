-- ===== src/KeyTransfer/Transfer.antt =====
-- A key that comes in, in pieces of any size, is stored once.
use ubiquitous_chainsaw.Base.{
  ℕ, ◌+◌, ◌≤◌, ◌<◌, ◌≡◌, ◌≢◌, refl, sym, ◌∙◌, List, [], ◌∷◌, ◌++◌, length, Option, some, Outcome,
  ok, arith, false, length-append, append_assoc, le→leb, ==_self, stop, ok_injective, ◌>>=◌,
}
use ubiquitous_chainsaw.Base.Int.{pos}
use ubiquitous_chainsaw.Security.Hash.{same_bytes}
use ubiquitous_chainsaw.Nvs.Flash.{NvsFlash, NvsWorks, OpenMode, Entry, int8, blob, updated}
use ubiquitous_chainsaw.WhoAmI.Token.{assert_down_cast}
use ubiquitous_chainsaw.KeyTransfer.Client.{
  KeyType, to_underlying, client_public, server_public, server_private, undefined_key, messages,
}
use ubiquitous_chainsaw.KeyTransfer.Token.{
  encryption_namespace, key_num_stored_enc_keys, nvs_key, Session, fresh, receive_header,
  receive_key, rx_callback, rx_callbacks, complete_key,
}
use ubiquitous_chainsaw.KeyTransfer.Stores.{complete_key_works}

abbrev pub concat : List (List ℕ) → List ℕ
concat [] = []
concat (x ∷ xs) = x ++ concat xs

bind_ok {ℓ κ} : {A : Type ℓ} {B : Type κ} (m : Outcome (A × B)) → (m >>= λ r. ok (r.0, r.1)) ≡ m
bind_ok (ok r) = refl
bind_ok (stop e) = refl

module _ {S : Type 0} (nvs : NvsFlash S) where
  abbrev pub collecting : ℕ → ℕ → List ℕ → Session
  collecting type size key = record { key_type = type; key = key; key_size = size }

  pub takes_data :
      (type size : ℕ) (key read : List ℕ) (s : S)
      → type ≢ 3
      → 0 < size
      → rx_callback nvs (some read) (collecting type size key) s
        ≡ receive_key nvs read (collecting type size key) s
  unfolding rx_callback
  takes_data type size key read s known some_size = ground arith

  receive_key_more :
      (type size : ℕ) (key read : List ℕ) (s : S)
      → length (key ++ read) < size
      → receive_key nvs read (collecting type size key) s
        ≡ ok (collecting type size (key ++ read), s)
  unfolding receive_key
  receive_key_more type size key read s h = ground (arith, length-append key read)

  receive_key_last :
      (type : ℕ) (key read : List ℕ) (s : S)
      → receive_key nvs read (collecting type (length (key ++ read)) key) s
        ≡ complete_key nvs type (key ++ read) s
  unfolding receive_key
  receive_key_last type key read s = rw (
    le→leb (length read) (length (key ++ read)) (omega (arith, length-append key read)),
    ==_self (length (key ++ read)),
  )

  longer : (a b c d : List ℕ) → 0 < length d → length (a ++ b) < length (a ++ (b ++ (c ++ d)))
  longer a b c d h = omega (
    arith,
    length-append a b,
    length-append a (b ++ (c ++ d)),
    length-append b (c ++ d),
    length-append c d,
  )

  -- Until its last piece a key is only collected.
  collects :
      (pieces : List (List ℕ)) (type : ℕ) (before last : List ℕ) (s : S)
      → type ≢ 3
      → 0 < length last
      → rx_callbacks nvs
          (pieces ++ (last ∷ []))
          (collecting type (length (before ++ (concat pieces ++ last))) before)
          s
        ≡ complete_key nvs type (before ++ (concat pieces ++ last)) s
  unfolding rx_callbacks
  collects [] type before last s known some_left = rw (
    takes_data type (length (before ++ last)) before last s known
        (omega (arith, length-append before last)),
    receive_key_last type before last s,
    bind_ok (complete_key nvs type (before ++ last) s),
  )
  collects (piece ∷ pieces) type before last s known some_left =
      rw
        (
          append_assoc piece (concat pieces) last,
          takes_data type (length (before ++ (piece ++ (concat pieces ++ last)))) before piece s
              known (omega (arith, longer before piece (concat pieces) last some_left)),
          receive_key_more type (length (before ++ (piece ++ (concat pieces ++ last)))) before piece
              s (longer before piece (concat pieces) last some_left),
          sym (append_assoc before piece (concat pieces ++ last)),
        )
        (collects pieces type (before ++ piece) last s known some_left)

  starts :
      (type size : ℕ) (reads : List (List ℕ)) (s : S)
      → type ≢ 3
      → rx_callbacks nvs ((type ∷ []) ∷ (size ∷ []) ∷ reads) fresh s
        ≡ rx_callbacks nvs reads (collecting type size []) s
  unfolding rx_callbacks rx_callback receive_header
  starts type size reads s known = ground arith

-- A name under which a key is stored.
abbrev IsKeyName : ℕ → List ℕ → Type 0
IsKeyName type name =
    (type ≢ 3) × (length name ≤ 14) × (same_bytes key_num_stored_enc_keys name ≡ false)

nvs_key-IsKeyName :
    (type : KeyType) (name : List ℕ)
    → nvs_key (to_underlying type) ≡ ok name
    → IsKeyName (to_underlying type) name
unfolding nvs_key same_bytes
nvs_key-IsKeyName client_public name e =
    (ground arith, rw (sym (ok_injective e)) (omega arith), rw (sym (ok_injective e)))
nvs_key-IsKeyName server_public name e =
    (ground arith, rw (sym (ok_injective e)) (omega arith), rw (sym (ok_injective e)))
nvs_key-IsKeyName server_private name e =
    (ground arith, rw (sym (ok_injective e)) (omega arith), rw (sym (ok_injective e)))
nvs_key-IsKeyName undefined_key name e = cc

messages_lem :
    (type : KeyType) (key : List ℕ)
    → length key ≤ 255
    → messages type key ≡ ok ((to_underlying type ∷ []) ∷ (length key ∷ []) ∷ key ∷ [])
unfolding messages assert_down_cast
messages_lem type key h = ground arith

module _ {S : Type 0} (nvs : NvsFlash S) (entry : S → List ℕ → Option Entry)
    (IsOpen : OpenMode → ℕ → S → Type 0)
    (works : NvsWorks nvs encryption_namespace entry IsOpen) where
  -- On a flash that works, for a key of 1 to 255 bytes and a count below 127: the client sends a key as a byte for its type, a byte for its size and the key. The token, however
  -- the key is cut into the reads that its callback makes, then stores the key under the name of its
  -- type, has counted one key more, changes no other entry and is ready for the next key.
  pub transfer_key :
      (type : KeyType) (pieces : List (List ℕ)) (last name : List ℕ) (n : ℕ) (s : S)
      → nvs_key (to_underlying type) ≡ ok name
      → 0 < length last
      → length (concat pieces ++ last) ≤ 255
      → n < 127
      → entry s key_num_stored_enc_keys ≡ some (int8 (pos n))
      → let key = concat pieces ++ last in
        let header_byte = to_underlying type ∷ [] in
        let size_byte = length key ∷ [] in
        (messages type key ≡ ok (header_byte ∷ size_byte ∷ key ∷ []))
        × (s' : S) × (rx_callbacks nvs (header_byte ∷ size_byte ∷ (pieces ++ (last ∷ []))) fresh s
            ≡ ok (fresh, s'))
        × ((k : List ℕ)
            → entry s' k
              ≡ updated
                  (updated (entry s) name (blob key))
                  key_num_stored_enc_keys
                  (int8 (pos (n + 1)))
                  k)
  transfer_key type pieces last name n s named some_left short small count =
      let key = concat pieces ++ last in
      let (known, short_name, differs) = nvs_key-IsKeyName type name named in
      let (s', done, holds) =
        complete_key_works nvs entry IsOpen works s (to_underlying type) n name key named short_name
          differs small count in
      (
        messages_lem type key short,
        s',
        starts nvs (to_underlying type) (length key) (pieces ++ (last ∷ [])) s known
            ∙ collects nvs pieces (to_underlying type) [] last s known some_left
            ∙ done,
        holds,
      )
