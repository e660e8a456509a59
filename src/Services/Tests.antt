-- ===== src/Services/Tests.antt =====
-- The shared definitions at concrete values.
use ubiquitous_chainsaw.Base.{◌≡◌, refl, ok, stop, undefined}
use ubiquitous_chainsaw.Services.{sha_version_id, version_of_byte}

names_count : sha_version_id (version_of_byte 6) ≡ ok 6
unfolding sha_version_id version_of_byte
names_count = refl

names_no_more : sha_version_id (version_of_byte 9) ≡ stop undefined
unfolding sha_version_id version_of_byte
names_no_more = refl
