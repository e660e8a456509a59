-- ===== src/Profiles/Found.antt =====
-- What the arrays of CGattService.cpp and CProfileCache.cpp denote for NimBLE, which reads the
-- services up to the one of type `end` and the characteristics up to the one without a UUID. This
-- describes the data independently of the functions that make it: a pointer to an object that is
-- not there, and an array without an end, are undefined.
use ubiquitous_chainsaw.Base.{
  ℕ, List, [], ◌∷◌, Option, none, some, Outcome, ok, stop, undefined, ◌>>=◌,
}
use ubiquitous_chainsaw.Profiles.Memory.{
  Memory, Callback, ChrDef, read_uuid, read_data, read_chr_defs,
}
use ubiquitous_chainsaw.Profiles.Characteristic.{callback_caller}
use ubiquitous_chainsaw.Profiles.Service.{SvcDef, primary, end}

-- A characteristic: the callback that serves it, and the profile for which it does.
pub record Found : Type 0 where
  pub uuid : List ℕ
  pub flags : ℕ
  pub callback : Callback
  pub profile : ℕ

abbrev pub pointer : Option ℕ → Outcome ℕ
pointer none = stop undefined
pointer (some address) = ok address

unfoldable pub found_characteristic : ℕ → ChrDef → Memory → Outcome Found
unfolding callback_caller read_uuid read_data
found_characteristic uuid_at def memory = do
  uuid ← read_uuid uuid_at memory
  arg ← pointer def.arg
  (callback, profile) ← callback_caller arg memory
  handle_at ← pointer def.val_handle
  owner ← read_data handle_at memory
  ok (record { uuid = uuid; flags = def.flags; callback = callback; profile = profile })

unfoldable pub found_characteristics : List ChrDef → Memory → Outcome (List Found)
unfolding found_characteristic
found_characteristics [] memory = stop undefined
found_characteristics (def ∷ defs) memory =
    let rest = found_characteristics defs memory in
    elim def.uuid [
      | none ↦ ok []
      | some at ↦ found_characteristic at def memory >>= λ c. rest >>= λ cs. ok (c ∷ cs)
    ]

unfoldable pub found_service : SvcDef → Memory → Outcome (List ℕ × List Found)
unfolding found_characteristics read_uuid read_chr_defs
found_service def memory = do
  uuid_at ← pointer def.uuid
  uuid ← read_uuid uuid_at memory
  defs_at ← pointer def.characteristics
  defs ← read_chr_defs defs_at memory
  characteristics ← found_characteristics defs memory
  ok (uuid, characteristics)

unfoldable pub found_services : List SvcDef → Memory → Outcome (List (List ℕ × List Found))
unfolding found_service
found_services [] memory = stop undefined
found_services (def ∷ defs) memory =
    let rest = found_services defs memory in
    elim def.type [
      | end ↦ ok []
      | primary ↦ found_service def memory >>= λ s. rest >>= λ ss. ok (s ∷ ss)
    ]
