-- ===== src/KeyTransfer/Overflow.antt =====
-- A key that is longer than it was announced.
use ubiquitous_chainsaw.Base.{
  ℕ, ◌≤◌, ◌<◌, ◌≡◌, ◌≢◌, sym, List, [], ◌∷◌, ◌++◌, length, ok, arith, length-append, append_assoc,
  append-nil,
}
use ubiquitous_chainsaw.Nvs.Flash.{NvsFlash}
use ubiquitous_chainsaw.KeyTransfer.Token.{receive_key, rx_callbacks}
use ubiquitous_chainsaw.KeyTransfer.Transfer.{collecting, takes_data, concat}

abbrev pub AllWithin : ℕ → List (List ℕ) → Type 0
AllWithin size [] = Unit {0}
AllWithin size (read ∷ reads) = (length read ≤ size) × AllWithin size reads

module _ {S : Type 0} (nvs : NvsFlash S) where
  receive_key_over :
      (type size : ℕ) (key read : List ℕ) (s : S)
      → size < length key
      → length read ≤ size
      → receive_key nvs read (collecting nvs type size key) s
        ≡ ok (collecting nvs type size (key ++ read), s)
  unfolding receive_key
  receive_key_over type size key read s over h = ground (arith, length-append key read)

  -- With a known key type and a size byte above 0: once the token has collected more bytes than the size
  -- byte said, then as long as no later read is longer than that byte said, it only goes on collecting;
  -- no later read stores a key, counts one or starts the next one.
  pub overflow_is_kept :
      (reads : List (List ℕ)) (type size : ℕ) (key : List ℕ) (s : S)
      → type ≢ 3
      → 0 < size
      → size < length key
      → AllWithin size reads
      → rx_callbacks nvs reads (collecting nvs type size key) s
        ≡ ok (collecting nvs type size (key ++ concat reads), s)
  unfolding rx_callbacks
  overflow_is_kept [] type size key s known some_size over within = rw (append-nil key)
  overflow_is_kept (read ∷ reads) type size key s known some_size over (h, within) =
      rw
        (
          takes_data nvs type size key read s known some_size,
          receive_key_over type size key read s over h,
          sym (append_assoc key read (concat reads)),
        )
        (overflow_is_kept reads type size (key ++ read) s known some_size
          (omega (arith, length-append key read)) within)
