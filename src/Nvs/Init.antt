-- ===== src/Nvs/Init.antt =====
-- The constructor of `CNonVolatileStorage`, which erases a flash without free pages and tries again,
-- and the moves of a handle.
use ubiquitous_chainsaw.Base.{
  ℕ, zero, suc, ◌≡◌, ◌≢◌, refl, sym, ◌∙◌, ◌⊎◌, inl, inr, Option, none, some, Outcome, ok, stop,
  fatal,
}
use ubiquitous_chainsaw.Nvs.Flash.{NvsErrorCode, success, no_free_pages, uint32_max}

-- `nvs_flash_init` and `nvs_flash_erase`.
pub record Partition (S : Type 0) : Type 0 where
  pub flash_init : S → NvsErrorCode × S
  pub flash_erase : S → NvsErrorCode × S

-- The move constructor of `CHandle` and its move assignment to another object: the handle, and what is
-- left of `other`. The handle that is assigned to is not closed.
unfoldable pub moved_handle : ℕ → ℕ × ℕ
moved_handle other = (other, uint32_max)

unfoldable pub assign_handle : ℕ → ℕ → ℕ × ℕ
assign_handle self other = (other, uint32_max)

-- What a turn of the loop makes of the result of an erase, and of that of the init: `inl` goes on.
unfoldable pub erased : {S : Type 0} → NvsErrorCode × S → S ⊎ Outcome S
erased (success, s) = inl s
erased (code, s) = inr (stop fatal)

unfoldable pub initialized : {S : Type 0} → Partition S → NvsErrorCode × S → S ⊎ Outcome S
initialized partition (success, s) = inr (ok s)
initialized partition (no_free_pages, s) = erased (partition.flash_erase s)
initialized partition (code, s) = inr (stop fatal)

-- The loop, of which `fuel` bounds the turns; `none` is that it still runs then.
unfoldable pub init_storage : {S : Type 0} → Partition S → ℕ → S → Option (Outcome S)
init_storage partition zero s = none
init_storage partition (suc fuel) s = elim (initialized partition (partition.flash_init s)) [
  | inl s' ↦ init_storage partition fuel s'
  | inr result ↦ some result
]

module _ {S : Type 0} (partition : Partition S) where
  -- A flash that has been erased has free pages.
  abbrev pub Frees : Type 0
  Frees =
      (s : S)
      → (partition.flash_erase s).0 ≡ success
      → (partition.flash_init (partition.flash_erase s).1).0 ≢ no_free_pages

  erased-cases :
      (r : NvsErrorCode × S)
      → ((erased r ≡ inl r.1) × (r.0 ≡ success)) ⊎ ((r.0 ≢ success) × (erased r ≡ inr (stop fatal)))
  unfolding erased
  erased-cases (success, s) = inl (refl, refl)
  erased-cases (code, s) = inr (λ same. cc, refl)

  -- What a turn of the loop makes of the result of the init: it ends it with the storage or with a fatal
  -- error, or has erased the flash.
  initialized-cases :
      (r : NvsErrorCode × S)
      → ((r.0 ≡ success) × (initialized partition r ≡ inr (ok r.1)))
        ⊎ ((r.0 ≢ success)
            × (¬ ((r.0 ≡ no_free_pages) × ((partition.flash_erase r.1).0 ≡ success)))
            × (initialized partition r ≡ inr (stop fatal)))
        ⊎ ((r.0 ≡ no_free_pages)
            × ((partition.flash_erase r.1).0 ≡ success)
            × (initialized partition r ≡ inl (partition.flash_erase r.1).1))
  unfolding initialized
  initialized-cases (success, s) = inl (refl, refl)
  initialized-cases (no_free_pages, s) = elim (erased-cases (partition.flash_erase s)) [
    | inl (e, works) ↦ inr (inr (refl, works, e))
    | inr (fails, e) ↦ inr (inl (λ same. cc, λ both. fails both.1, e))
  ]
  initialized-cases (code, s) = inr (inl (λ same. cc, λ both. absurd cc, refl))

  -- The state in which the storage has been initialized: by the first init, or by the second after an
  -- erase of a flash without free pages.
  abbrev pub IsInitialized : S → S → Type 0
  IsInitialized s s' =
      let first = partition.flash_init s in
      let erases = partition.flash_erase first.1 in
      let second = partition.flash_init erases.1 in
      ((first.0 ≡ success) × (first.1 ≡ s'))
      ⊎ ((first.0 ≡ no_free_pages) × (erases.0 ≡ success) × (second.0 ≡ success) × (second.1 ≡ s'))

  -- If an erased flash has free pages, the loop ends within two turns: with the storage initialized by the
  -- first init, or by the second after an erase that succeeded of a flash without free pages; and with
  -- a fatal error exactly if neither initializes it.
  pub init_storage_ends :
      (fuel : ℕ) (s : S)
      → Frees
      → ((s' : S) × IsInitialized s s' × (init_storage partition (suc (suc fuel)) s ≡ some (ok s')))
        ⊎ (((s' : S) → ¬ IsInitialized s s')
            × (init_storage partition (suc (suc fuel)) s ≡ some (stop fatal)))
  unfolding init_storage
  init_storage_ends fuel s frees = elim (initialized-cases (partition.flash_init s)) [
    | inl (works, e) ↦ inl (_, inl (works, refl), rw (e, init_storage))
    | inr (inl (fails, full, e)) ↦ inr (
      λ s' ends. elim ends [
        | inl (works, at) ↦ fails works
        | inr (no_pages, erases, works, at) ↦ full (no_pages, erases)
      ],
      rw (e, init_storage),
    )
    | inr (inr (no_pages, erases, e)) ↦
        let erased_flash = (partition.flash_erase (partition.flash_init s).1).1 in
        elim (initialized-cases (partition.flash_init erased_flash)) [
          | inl (works, e') ↦
              inl (_, inr (no_pages, erases, works, refl), rw (e, init_storage, e', init_storage))
          | inr (inl (fails, full, e')) ↦ inr (
            λ s' ends. elim ends [
              | inl (works, at) ↦ let never = sym no_pages ∙ works in absurd cc
              | inr (again, also, works, at) ↦ fails works
            ],
            rw (e, init_storage, e', init_storage),
          )
          | inr (inr (full, again, e')) ↦ absurd (frees (partition.flash_init s).1 erases full)
        ]
  ]
