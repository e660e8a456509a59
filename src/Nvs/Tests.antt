-- ===== src/Nvs/Tests.antt =====
-- A partition that is full at first.
use ubiquitous_chainsaw.Base.{
  ◌≡◌, refl, Bool, true, false, if◌then◌else◌, some, ok, stop, fatal, ◌⊎◌,
}
use ubiquitous_chainsaw.Nvs.Flash.{success, no_free_pages}
use ubiquitous_chainsaw.Nvs.Init.{
  Partition, Frees, IsInitialized, erased, initialized, init_storage, init_storage_ends,
}

-- Its state is whether it has free pages.
abbrev partition : Partition Bool
partition = record {
  flash_init = λ free. (if free then success else no_free_pages, free);
  flash_erase = λ free. (success, true);
}

partition-Frees : Frees partition
partition-Frees free works e = cc

init_storage_ends_example :
    ((free : Bool) × IsInitialized partition false free
      × (init_storage partition 3 false ≡ some (ok free)))
    ⊎ (((free : Bool) → ¬ IsInitialized partition false free)
        × (init_storage partition 3 false ≡ some (stop fatal)))
init_storage_ends_example = init_storage_ends partition 1 false partition-Frees

initializes : init_storage partition 2 false ≡ some (ok true)
unfolding init_storage initialized erased
initializes = refl
