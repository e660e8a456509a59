-- ===== src/WhoAmI/Layout.antt =====
-- The bytes of the authentication packet.
use ubiquitous_chainsaw.Base.{
  ℕ, suc, ◌+◌, ◌≤◌, ◌<◌, ◌≡◌, refl, sym, ap, ◌∙◌, List, [], ◌∷◌, ◌++◌, length, replicate,
  length-append, length-replicate, replicate-add, le→leb, ok, arith, subspan-append, copy_to-append,
  append-nil,
}
use ubiquitous_chainsaw.Security.Hash.{CHash}
use ubiquitous_chainsaw.Services.{sha_version_id_of}
use ubiquitous_chainsaw.WhoAmI.Token.{
  fill_header, copy_from_buffer, copy_hash_and_signature, make_packet,
}

-- The packet: its five header bytes, the hash and the signature.
abbrev pub layout : CHash → List ℕ → List ℕ → List ℕ
layout hash payload signature =
    sha_version_id_of hash.hash_type
    ∷ 5
    ∷ length hash.bytes
    ∷ (5 + length hash.bytes)
    ∷ length signature
    ∷ payload

zeros :
    (h s : ℕ)
    → replicate {A = ℕ} (5 + h + s) 0 ≡ 0 ∷ 0 ∷ 0 ∷ 0 ∷ 0 ∷ (replicate h 0 ++ replicate s 0)
zeros h s =
    ap (λ k. replicate k 0) (five h s) ∙ ap (λ t. 0 ∷ 0 ∷ 0 ∷ 0 ∷ 0 ∷ t) (replicate-add h s 0)
  where
    five : (h s : ℕ) → 5 + h + s ≡ suc (suc (suc (suc (suc (h + s)))))
    five h s = omega arith

fill_header_lem :
    (hash : CHash) (signature rest : List ℕ)
    → length hash.bytes ≤ 250
    → length signature ≤ 255
    → 0 < length rest
    → fill_header (0 ∷ 0 ∷ 0 ∷ 0 ∷ 0 ∷ rest) hash signature ≡ ok (layout hash rest signature)
unfolding fill_header sha_version_id_of
fill_header_lem hash signature rest p q r = ground arith

copy_from_buffer-append :
    (packet pre mid post : List ℕ) (offset : ℕ) (src : List ℕ)
    → packet ≡ pre ++ (mid ++ post)
    → offset ≡ length pre
    → length src ≡ length mid
    → copy_from_buffer packet offset (length src) src ≡ ok (pre ++ (src ++ post))
unfolding copy_from_buffer
copy_from_buffer-append packet pre mid post offset src parts at_offset of_size =
    rw
      (
        subspan-append packet pre mid post offset (length src) parts at_offset of_size,
        of_size,
        le→leb (length mid) (length mid) (omega arith),
      )
      (copy_to-append packet pre mid post offset src parts at_offset of_size)

module _ (hash : CHash) (signature : List ℕ) where
  -- The header's cells, as a list of their own.
  abbrev cells : List ℕ
  cells = layout hash [] signature

  copy_hash :
      (room rest : List ℕ)
      → length hash.bytes ≡ length room
      → copy_from_buffer (layout hash (room ++ rest) signature) 5 (length hash.bytes) hash.bytes
        ≡ ok (layout hash (hash.bytes ++ rest) signature)
  copy_hash room rest e = copy_from_buffer-append _ cells room rest 5 hash.bytes refl refl e

  copy_signature :
      (room : List ℕ)
      → length signature ≡ length room
      → copy_from_buffer
          (layout hash (hash.bytes ++ room) signature)
          (5 + length hash.bytes)
          (length signature)
          signature
        ≡ ok (layout hash (hash.bytes ++ signature) signature)
  copy_signature room e =
      copy_from_buffer-append (layout hash (hash.bytes ++ room) signature) (cells ++ hash.bytes)
        room [] _ signature (rw (append-nil room)) (omega arith) e
      ∙ rw (append-nil signature)

  -- `make_packet` puts the header, the hash and the signature one behind another.
  pub make_packet_lem :
      length hash.bytes ≤ 250
      → length signature ≤ 255
      → 0 < length hash.bytes
      → make_packet hash signature ≡ ok (layout hash (hash.bytes ++ signature) signature)
  unfolding make_packet copy_hash_and_signature
  make_packet_lem p q r =
      rw
        (
          zeros (length hash.bytes) (length signature),
          fill_header_lem hash signature blank p q room,
        )
        (rw
          (
            le→leb (5 + length hash.bytes) (length (layout hash blank signature)) whole,
            copy_hash zeros_hash zeros_signature (sym (length-replicate (length hash.bytes) 0)),
            le→leb (5 + length hash.bytes + length signature)
                (length (layout hash (hash.bytes ++ zeros_signature) signature)) fits,
          )
          (copy_signature zeros_signature (sym (length-replicate (length signature) 0))))
    where
      zeros_hash : List ℕ
      zeros_hash = replicate (length hash.bytes) 0

      zeros_signature : List ℕ
      zeros_signature = replicate (length signature) 0

      blank : List ℕ
      blank = zeros_hash ++ zeros_signature

      blank_size : length blank ≡ length hash.bytes + length signature
      blank_size = omega (
        arith,
        length-append zeros_hash zeros_signature,
        length-replicate {A = ℕ} (length hash.bytes) 0,
        length-replicate {A = ℕ} (length signature) 0,
      )

      room : 0 < length blank
      room = omega (arith, blank_size)

      whole : 5 + length hash.bytes ≤ length (layout hash blank signature)
      whole = omega (arith, blank_size)

      fits :
          5 + length hash.bytes + length signature
          ≤ length (layout hash (hash.bytes ++ zeros_signature) signature)
      fits = omega (
        arith,
        length-append hash.bytes zeros_signature,
        length-replicate {A = ℕ} (length signature) 0,
      )
