-- ===== src/SerialPort/Finds.antt =====
-- com_port on a list of devices with the token in it.
use ubiquitous_chainsaw.Base.{
  ℕ, ◌+◌, ◌-◌, ◌%◌, ◌^◌, ◌<◌, ◌≡◌, refl, sym, ap, ◌∙◌, List, [], ◌∷◌, ◌++◌, length, take, drop,
  get_elem?, true, some, ok, arith, append_assoc, take-append, drop-append, length-append,
  Bool-cases, inl, inr,
}
use ubiquitous_chainsaw.SerialPort.Search.{
  find_text, find_last_of, found, com_text, token_id, Described, access_token_is_connected,
  query_com_port, com_port,
}
use ubiquitous_chainsaw.SerialPort.Texts.{
  Lacks, Contains, find_text-Contains, Contains-find_text, find_text-com_text, find_last_of-append,
}

-- Devices none of which has the id of the token.
abbrev pub AreOthers : List Described → Type 0
AreOthers [] = Unit
AreOthers (d ∷ rest) = ¬ (Contains token_id d.hardware_id) × AreOthers rest

pub token_id_found :
    (text : List ℕ) → Contains token_id text → found (find_text token_id text) ≡ true
token_id_found text (before, after, e) =
    ap (λ t. found (find_text token_id t)) e ∙ Contains-find_text token_id before after cc

token_index :
    (others : List Described) (d : Described) (rest : List Described)
    → AreOthers others
    → Contains token_id d.hardware_id
    → access_token_is_connected (others ++ (d ∷ rest)) ≡ some (length others)
unfolding access_token_is_connected
token_index [] d rest are has = rw (token_id_found d.hardware_id has)
token_index (o ∷ others) d rest (is_other, are) has =
    elim (Bool-cases (found (find_text token_id o.hardware_id))) [
      | inl e ↦ absurd (is_other (find_text-Contains token_id o.hardware_id e))
      | inr e ↦ rw (e, token_index others d rest are has)
    ]

listed_at :
    (others : List Described) (d : Described) (rest : List Described)
    → get_elem? (others ++ (d ∷ rest)) (length others) ≡ some d
listed_at [] d rest = refl
listed_at (o ∷ others) d rest = listed_at others d rest

count_eq :
    (begin digits : ℕ)
    → begin + digits < 2 ^ 64
    → (begin + digits + 2 ^ 64 - begin) % 2 ^ 64 ≡ digits
count_eq begin digits h = omega arith

-- "COM" and the number, behind a text with no 'C' and before a ')' and a text with none.
abbrev pub port_name : List ℕ → List ℕ → List ℕ → List ℕ
port_name before digits after = before ++ (com_text ++ (digits ++ (b')' ∷ after)))

last_at :
    (before digits after : List ℕ)
    → Lacks b')' after
    → find_last_of b')' (port_name before digits after)
      ≡ some (length before + length (com_text ++ digits))
last_at before digits after h =
    ap (find_last_of b')') (sym (append_assoc before (com_text ++ digits) (b')' ∷ after)))
    ∙ find_last_of-append b')' (before ++ (com_text ++ digits)) after h
    ∙ ap some (length-append before (com_text ++ digits))

port_queried :
    (devices : List Described) (d : Described) (i begin count : ℕ)
    → get_elem? devices i ≡ some d
    → find_text com_text d.friendly_name ≡ some begin
    → find_last_of b')' d.friendly_name ≡ some (begin + count)
    → begin + count < 2 ^ 64
    → query_com_port devices i ≡ ok (take count (drop begin d.friendly_name))
unfolding query_com_port
port_queried devices d i begin count at_i begins ends short =
    rw (query_com_port, at_i, begins, ends)
      (ap (λ n. ok (take n (drop begin d.friendly_name))) (count_eq begin count short))

-- The first device with the id of the token is the one whose port com_port gives: of a friendly name
-- with "COM" and a number in parentheses, "COM" and the number; if no 'C' stands before the "COM" and no
-- ')' behind that of the number, and this ')' stands before byte 2 ^ 64.
pub com_port_finds :
    (others rest : List Described) (hardware_id before digits after : List ℕ)
    → AreOthers others
    → Contains token_id hardware_id
    → Lacks b'C' before
    → Lacks b')' after
    → length before + length (com_text ++ digits) < 2 ^ 64
    → com_port (
        others
        ++ (record { hardware_id = hardware_id; friendly_name = port_name before digits after }
            ∷ rest))
      ≡ ok (some (com_text ++ digits))
unfolding com_port query_com_port
com_port_finds others rest hardware_id before digits after are has no_c no_end short =
    let d : Described = record {
      hardware_id = hardware_id;
      friendly_name = port_name before digits after;
    } in
    rw
      (
        com_port,
        token_index others d rest are has,
        port_queried (others ++ (d ∷ rest)) d (length others) (length before)
            (length (com_text ++ digits)) (listed_at others d rest)
            (find_text-com_text before (digits ++ (b')' ∷ after)) no_c)
            (last_at before digits after no_end) short,
        drop-append before (com_text ++ (digits ++ (b')' ∷ after))),
      )
      (ap (λ t. ok (some t)) (take-append (com_text ++ digits) (b')' ∷ after)))
